-- ===== src/Fraud/RateLimiter/Laws.antt =====
-- The limiter against its specification: a request passes exactly if fewer than `limit` requests of
-- its key came before it in its minute.
use ml_monitor.Prelude.{
  ℕ, suc, ◌+◌, ◌/◌, ◌≤◌, ◌<◌, ◌≡◌, refl, ◌≢◌, Bool, false, some, String, List, [], ◌∷◌, arith, leb,
  if◌then◌else◌, ◌==◌, nat_eq, string_eq, pair_eq, Bool-cases, inl, inr, ne_of_beq-false, ◌∙◌, sym,
  ap,
}
use ml_monitor.Fraud.RateLimiter.{Bucket, Counter, check}

-- What Redis documents while it is up. `count` is the counter at a time, 0 if there is none: INCR
-- adds one, and the key then lives for 120 seconds more; other keys are not touched.
pub record IsUp (c : Counter) : Type 0 where
  pub count : ℕ → Bucket → c.State → ℕ
  pub next : ℕ → Bucket → c.State → c.State
  pub incr_next :
      (t : ℕ) (b : Bucket) (s : c.State) → c.incr t b s ≡ some (suc (count t b s), next t b s)
  pub count_next_self :
      (t u : ℕ) (b : Bucket) (s : c.State)
      → t ≤ u
      → u < t + 120
      → count u b (next t b s) ≡ suc (count t b s)
  pub count_next_ne :
      (t u : ℕ) (b b' : Bucket) (s : c.State) → b ≢ b' → count u b' (next t b s) ≡ count u b' s

-- Requests, each with its time and its key.
abbrev pub Request : Type 0
Request = ℕ × String

abbrev pub bucket_of : Request → Bucket
bucket_of (t, key) = (key, t / 60)

abbrev pub count_same : Bucket → List Request → ℕ
count_same b [] = 0
count_same b (q ∷ earlier) =
    if bucket_of q == b then suc (count_same b earlier) else count_same b earlier

-- The clock does not go back.
abbrev pub IsChronological : ℕ → List Request → Type 0
IsChronological now [] = Unit
IsChronological now ((t, key) ∷ qs) = (now ≤ t) × IsChronological t qs

module _ (c : Counter) (limit : ℕ) where
  open c use {State}

  unfoldable pub check_all : List Request → State → List Bool
  check_all [] s = []
  check_all ((t, key) ∷ qs) s =
      let (verdict, s') = check c limit t key s in verdict.0 ∷ check_all qs s'

  -- The requests that must pass, after earlier ones, newest first.
  unfoldable pub verdicts : List Request → List Request → List Bool
  verdicts earlier [] = []
  verdicts earlier (q ∷ qs) =
      leb (suc (count_same (bucket_of q) earlier)) limit ∷ verdicts (q ∷ earlier) qs

  module _ (up : IsUp c) where
    open up use {count, next}

    -- The counters of the current minute hold what has come in.
    abbrev Counted : ℕ → List Request → State → Type 0
    Counted now earlier s =
        (u : ℕ) (key : String)
        → now ≤ u
        → count u (key, u / 60) s ≡ count_same (key, u / 60) earlier

    next-Counted :
        (now t : ℕ) (key : String) (earlier : List Request) (s : State)
        → now ≤ t
        → Counted now earlier s
        → Counted t ((t, key) ∷ earlier) (next t (key, t / 60) s)
    next-Counted now t key earlier s later counted u k after =
        let b : Bucket = (key, t / 60) in
        let b' : Bucket = (k, u / 60) in
        elim (Bool-cases (b == b')) [
          | inl same ↦
              let e : b ≡ b' = (pair_eq.iff_path b b').0 same in
              let minute : t / 60 ≡ u / 60 = ap (λ (x : Bucket). x.1) e in
              rw same (
                ap (λ x. count u x (next t b s)) (sym e)
                ∙ up.count_next_self t u b s after (omega arith)
                ∙ ap suc (counted t key later)
                ∙ ap (λ x. suc (count_same x earlier)) e)
          | inr other ↦
              rw other
                (up.count_next_ne t u b b' s (ne_of_beq-false other) ∙ counted u k (omega arith))
        ]

    check_all-Counted :
        0 < limit
        → (qs earlier : List Request) (now : ℕ) (s : State) → Counted now earlier s
        → IsChronological now qs
        → check_all qs s ≡ verdicts earlier qs
    unfolding check_all verdicts check
    check_all-Counted h [] earlier now s counted order = refl
    check_all-Counted h ((t, key) ∷ qs) earlier now s counted (later, order) =
        let positive : leb limit 0 ≡ false = ground arith in
        let rest =
          check_all-Counted h qs ((t, key) ∷ earlier) t (next t (key, t / 60) s)
            (next-Counted now t key earlier s later counted) order in
        rw (positive, up.incr_next, counted t key later, rest, check_all, check)

    -- With Redis up, a positive limit and a clock that does not go back: over any sequence of
    -- requests, from empty counters, the limiter lets a request pass exactly if, with it, at most
    -- `limit` requests of its key have come in its minute.
    pub check_all-verdicts :
        0 < limit
        → (qs : List Request) (s : State) → ((t : ℕ) (b : Bucket) → count t b s ≡ 0)
        → IsChronological 0 qs
        → check_all qs s ≡ verdicts [] qs
    check_all-verdicts h qs s empty order =
        check_all-Counted h qs [] 0 s (λ u key _. empty u (key, u / 60)) order

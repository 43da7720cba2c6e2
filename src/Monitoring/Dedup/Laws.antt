-- ===== src/Monitoring/Dedup/Laws.antt =====
-- Alerts of one key are a cooldown apart, and keys do not disturb one another.
use ml_monitor.Prelude.{
  ℕ, ◌+◌, ◌≤◌, ◌≡◌, refl, sym, ap, ◌∙◌, String, Bool, true, false, Option, none, some, List, [],
  ◌∷◌, arith, select, ltb, ◌==◌, string_eq, pair_eq, if◌then◌else◌, Bool-cases, inl, inr,
}
use mathlib.Core.Path.{ap₂}
use ml_monitor.Prelude.Dict.{get, get-put}
use ml_monitor.Monitoring.Dedup.{Key, key_of, Deduplicator, should_alert}

-- A request for an alert: the drift type, the feature and the time.
abbrev pub Request : Type 0
Request = String × Option String × ℕ

abbrev pub request_key : Request → Key
request_key (drift_type, feature, now) = key_of drift_type feature

-- The times at which alerts of one key were let through, in the order of the requests.
unfoldable pub fired : Key → List Request → Deduplicator → List ℕ
fired k [] d = []
fired k (q ∷ qs) d =
    let (fires, d') = should_alert q.0 q.1 q.2 d in
    let rest = fired k qs d' in
    if request_key q == k then if fires then q.2 ∷ rest else rest else rest

-- Each time is at least the cooldown after the one before it.
abbrev pub IsSpaced : ℕ → Option ℕ → List ℕ → Type 0
IsSpaced cooldown last [] = Unit
IsSpaced cooldown none (t ∷ ts) = IsSpaced cooldown (some t) ts
IsSpaced cooldown (some t0) (t ∷ ts) = (t0 + cooldown ≤ t) × IsSpaced cooldown (some t) ts

should_alert-cooldown :
    (q : Request) (d : Deduplicator) → (should_alert q.0 q.1 q.2 d).1.cooldown ≡ d.cooldown
unfolding should_alert
should_alert-cooldown q d = ground arith

-- What a request leaves in the dictionary, at each key.
get-should_alert :
    (q : Request) (d : Deduplicator) (k : Key)
    → get k (should_alert q.0 q.1 q.2 d).1.last_fired ≡ (
        if request_key q == k
        then if (should_alert q.0 q.1 q.2 d).0 then some q.2 else get k d.last_fired
        else get k d.last_fired)
unfolding should_alert
get-should_alert q d k =
    ground (arith, get-put (request_key q) k q.2 d.last_fired, pair_eq.iff_path (request_key q) k)

-- An alert is let through exactly if none of its key came before, or the last one is at least the
-- cooldown old.
should_alert_lem :
    (q : Request) (d : Deduplicator)
    → (should_alert q.0 q.1 q.2 d).0 ≡ (elim (get (request_key q) d.last_fired) as (λ _. Bool) [
      | none ↦ true
      | some last ↦ if ltb q.2 (last + d.cooldown) then false else true
    ])
unfolding should_alert
should_alert_lem q d = ground arith

IsSpaced-cons :
    (cooldown : ℕ) (last : Option ℕ) (t : ℕ) (ts : List ℕ)
    → (elim last as (λ _. Bool) [
      | none ↦ true
      | some t0 ↦ if ltb t (t0 + cooldown) then false else true
    ])
      ≡ true
    → IsSpaced cooldown (some t) ts
    → IsSpaced cooldown last (t ∷ ts)
IsSpaced-cons cooldown none t ts h spaced = spaced
IsSpaced-cons cooldown (some t0) t ts h spaced = (ground arith, spaced)

-- The alerts of one drift type and feature that get through are each at least the cooldown after the
-- one before, whatever requests stand between them and in whatever order the clock reads; the first
-- is at least the cooldown after the last alert that the deduplicator remembers.
pub fired-IsSpaced :
    (k : Key) (qs : List Request) (d : Deduplicator)
    → IsSpaced d.cooldown (get k d.last_fired) (fired k qs d)
unfolding fired
fired-IsSpaced k [] d = tt
fired-IsSpaced k (q ∷ qs) d =
    let d' : Deduplicator = (should_alert q.0 q.1 q.2 d).1 in
    let after : IsSpaced d.cooldown (get k d'.last_fired) (fired k qs d') =
      rw should_alert-cooldown at (fired-IsSpaced k qs d') in
    let kept : get k d'.last_fired ≡ (
        if request_key q == k
        then if (should_alert q.0 q.1 q.2 d).0 then some q.2 else get k d.last_fired
        else get k d.last_fired) =
      get-should_alert q d k in
    elim (Bool-cases (request_key q == k)) [
      | inl same ↦ elim (Bool-cases (should_alert q.0 q.1 q.2 d).0) [
        | inl fires ↦
            let open_now = should_alert_lem q d in
            rw (same, fires)
              (IsSpaced-cons d.cooldown (get k d.last_fired) q.2 (fired k qs d')
                (rw (← (pair_eq.iff_path (request_key q) k).0 same) (sym open_now ∙ fires))
                (rw (kept, same, fires) at after))
        | inr quiet ↦ rw (same, quiet) (rw (kept, same, quiet) at after)
      ]
      | inr other ↦ rw other (rw (kept, other) at after)
    ]

abbrev opens : ℕ → ℕ → Option ℕ → Bool
opens cooldown now none = true
opens cooldown now (some last) = if ltb now (last + cooldown) then false else true

opens_lem :
    (q : Request) (d : Deduplicator)
    → (should_alert q.0 q.1 q.2 d).0 ≡ opens d.cooldown q.2 (get (request_key q) d.last_fired)
opens_lem q d = ground (arith, should_alert_lem q d)

same_verdict :
    (q : Request) (k : Key) (d e : Deduplicator)
    → d.cooldown ≡ e.cooldown
    → get k d.last_fired ≡ get k e.last_fired
    → request_key q ≡ k
    → (should_alert q.0 q.1 q.2 d).0 ≡ (should_alert q.0 q.1 q.2 e).0
same_verdict q k d e c h p =
    opens_lem q d
    ∙ ap₂ (λ x (j : Key). opens x q.2 (get j d.last_fired)) c p
    ∙ ap (opens e.cooldown q.2) h
    ∙ ap (λ (j : Key). opens e.cooldown q.2 (get j e.last_fired)) (sym p)
    ∙ sym (opens_lem q e)

-- Other keys do not matter: what gets through for one key is what would get through if only the
-- requests of that key had been made.
pub fired-select :
    (k : Key) (qs : List Request) (d e : Deduplicator)
    → d.cooldown ≡ e.cooldown
    → get k d.last_fired ≡ get k e.last_fired
    → fired k qs d ≡ fired k (select (λ (q : Request). request_key q == k) qs) e
unfolding fired
fired-select k [] d e c h = refl
fired-select k (q ∷ qs) d e c h =
    let d' : Deduplicator = (should_alert q.0 q.1 q.2 d).1 in
    let e' : Deduplicator = (should_alert q.0 q.1 q.2 e).1 in
    let c' : d'.cooldown ≡ e'.cooldown =
      should_alert-cooldown q d ∙ c ∙ sym (should_alert-cooldown q e) in
    elim (Bool-cases (request_key q == k)) [
      | inl same ↦
          let verdict : (should_alert q.0 q.1 q.2 d).0 ≡ (should_alert q.0 q.1 q.2 e).0 =
            same_verdict q k d e c h ((pair_eq.iff_path (request_key q) k).0 same) in
          let kept : get k d'.last_fired ≡ get k e'.last_fired =
            rw (get-should_alert q d k, get-should_alert q e k, same, verdict, h) refl in
          rw (same, verdict, fired-select k qs d' e' c' kept, same, fired) refl
      | inr other ↦
          let kept : get k d'.last_fired ≡ get k e.last_fired =
            rw (get-should_alert q d k, other) h in
          rw (other, fired-select k qs d' e (should_alert-cooldown q d ∙ c) kept) refl
    ]

-- ===== src/Monitoring/Concept/Ddm/ErrorFree.antt =====
-- DDM on a stream with no errors: the estimate is p = s = 0, so the drift test compares 0 with 0.
use ml_monitor.Prelude.{
  ℕ, zero, suc, false, ◌+◌, ◌<◌, ◌≡◌, refl, ap, ◌∙◌, true, some, List, [], ◌∷◌, ◌++◌, arith,
  get_elem?, if◌then◌else◌, ltb, leb, Floats,
}
use ml_monitor.Monitoring.Concept.Ddm.{Ddm, init, estimate, track_min, signal, update}
use ml_monitor.Monitoring.Concept.Ddm.Laws.{decisions, decisions-made}

-- What IEEE arithmetic gives for the values 0, 1 and infinity that the run meets.
pub record ZeroLaws (fl : Floats) : Type 0 where
  pub first_p :
      fl.add (fl.ratio 1 1) (fl.div (fl.sub (fl.ratio 0 1) (fl.ratio 1 1)) (fl.ratio 1 1))
      ≡ fl.ratio 0 1
  pub next_p :
      (n : ℕ)
      → fl.add (fl.ratio 0 1) (fl.div (fl.sub (fl.ratio 0 1) (fl.ratio 0 1)) (fl.ratio (suc n) 1))
        ≡ fl.ratio 0 1
  pub zero_square :
      (n : ℕ)
      → fl.div (fl.mul (fl.ratio 0 1) (fl.sub (fl.ratio 1 1) (fl.ratio 0 1))) (fl.ratio (suc n) 1)
        ≡ fl.ratio 0 1
  pub zero_lt : fl.lt (fl.ratio 0 1) (fl.ratio 0 1) ≡ false
  pub zero_sqrt : fl.sqrt (fl.ratio 0 1) ≡ fl.ratio 0 1
  pub zero_sum : fl.add (fl.ratio 0 1) (fl.ratio 0 1) ≡ fl.ratio 0 1
  pub below_inf : fl.lt (fl.ratio 0 1) (fl.add fl.inf fl.inf) ≡ true
  pub zero_le : fl.le (fl.ratio 0 1) (fl.ratio 0 1) ≡ true

abbrev pub replicate : {A : Type 0} → ℕ → A → List A
replicate zero a = []
replicate (suc n) a = a ∷ replicate n a

module _ (fl : Floats) (laws : ZeroLaws fl) where
  open fl use {Float, ratio, inf, add, sub, mul, div, lt, le, sqrt}

  -- The estimate after some updates, all without error; nothing has been tracked yet.
  record ErrorFree (k : ℕ) (d : Ddm fl) : Type 0 where
    counted : d.n ≡ k
    at_p : d.p ≡ (if leb k 0 then ratio 1 1 else ratio 0 1)
    untracked_p : d.p_min ≡ inf
    untracked_s : d.s_min ≡ inf

  estimate-zero :
      (k : ℕ) (d : Ddm fl)
      → ErrorFree k d
      → estimate fl d (ratio 0 1)
        ≡ some (record d {
          n = suc k;
          p = ratio 0 1;
          s = ratio 0 1;
          drift_detected = false;
          warning_detected = false;
        })
  unfolding estimate
  estimate-zero zero d h =
      let e : d.n + 1 ≡ 1 = omega arith in
      ground (arith, laws.first_p, laws.zero_square 0, laws.zero_lt, laws.zero_sqrt, h.at_p, e)
  estimate-zero (suc k) d h =
      let e : d.n + 1 ≡ suc (suc k) = omega arith in
      ground (
        arith,
        laws.next_p (suc k),
        laws.zero_square (suc k),
        laws.zero_lt,
        laws.zero_sqrt,
        h.at_p,
        e,
      )

  update-early :
      (k : ℕ) (d : Ddm fl)
      → ErrorFree k d
      → suc k < d.min_n
      → (d' : Ddm fl) × (update fl d (ratio 0 1) ≡ some (false, d'))
        × ErrorFree (suc k) d'
        × (d'.min_n ≡ d.min_n)
        × (d'.drift_level ≡ d.drift_level)
  unfolding update
  update-early k d h early =
      let test : ltb (suc k) d.min_n ≡ true = ground arith in
      (
        record d {
          n = suc k;
          p = ratio 0 1;
          s = ratio 0 1;
          drift_detected = false;
          warning_detected = false;
        },
        ground (arith, estimate-zero k d h, test),
        record {
          counted = refl;
          at_p = ground arith;
          untracked_p = h.untracked_p;
          untracked_s = h.untracked_s;
        },
        refl,
        refl,
      )

  update-signals :
      (k : ℕ) (d : Ddm fl)
      → ErrorFree k d
      → d.min_n ≡ suc k
      → mul d.drift_level (ratio 0 1) ≡ ratio 0 1
      → (d' : Ddm fl) × (update fl d (ratio 0 1) ≡ some (true, d'))
  unfolding update
  update-signals k d h now finite =
      let facts = estimate-zero k d h in
      let late : ltb (suc k) d.min_n ≡ false = ground arith in
      let e : Ddm fl = record d {
        n = suc k;
        p = ratio 0 1;
        s = ratio 0 1;
        drift_detected = false;
        warning_detected = false;
      } in
      (
        signal fl (track_min fl e),
        ground (arith, facts, late, laws.zero_sum, finite, laws.below_inf, laws.zero_le),
      )

  decisions-zero :
      (j k : ℕ) (rest : List Float) (d : Ddm fl)
      → ErrorFree k d
      → d.min_n ≡ k + suc j
      → mul d.drift_level (ratio 0 1) ≡ ratio 0 1
      → get_elem? (decisions fl (replicate (suc j) (ratio 0 1) ++ rest) d) j ≡ some true
  unfolding decisions
  decisions-zero zero k rest d h e finite =
      let (d', made) = update-signals k d h (omega arith) finite in
      ap (λ ds. get_elem? ds 0) (decisions-made fl (ratio 0 1) rest d true d' made)
  decisions-zero (suc j) k rest d h e finite =
      let (d', made, h', same, level) = update-early k d h (omega arith) in
      ap (λ ds. get_elem? ds (suc j))
        (decisions-made fl (ratio 0 1) (replicate (suc j) (ratio 0 1) ++ rest) d false d' made)
      ∙ decisions-zero j (suc k) rest d' h' (omega arith) (rw level finite)

  -- With the arithmetic of 0, 1 and infinity that IEEE floats have, and a drift level whose product with 0
  -- is 0, as it is of a finite one: on a stream whose first `min_n` predictions are all correct, DDM reports a drift at the last of them.
  pub decisions-error_free :
      (warning_level drift_level : Float) (m : ℕ) (rest : List Float)
      → mul drift_level (ratio 0 1) ≡ ratio 0 1
      → get_elem?
          (decisions fl
            (replicate (suc m) (ratio 0 1) ++ rest)
            (init fl warning_level drift_level (suc m)))
          m
        ≡ some true
  unfolding init
  decisions-error_free warning_level drift_level m rest finite =
      decisions-zero m 0 rest (init fl warning_level drift_level (suc m))
        (record { counted = refl; at_p = refl; untracked_p = refl; untracked_s = refl })
        (omega arith) finite

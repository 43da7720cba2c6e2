-- ===== src/Monitoring/Concept/Detect/Laws.antt =====
-- `detect_concept_drift` reports the first error at which its detector signals.
use ml_monitor.Prelude.{
  ℕ, suc, ◌+◌, ◌<◌, ◌≡◌, refl, Bool, true, false, Option-cases, ◌==◌, nat_eq, Option, none, some,
  List, [], ◌∷◌, map, arith, length, min, take, take_last, leb, string_eq, if◌then◌else◌,
  Bool-cases, inl, inr, Floats,
}
use ml_monitor.Monitoring.Concept.Ddm
use ml_monitor.Monitoring.Concept.Ddm.Laws.{decisions}
use ml_monitor.Monitoring.Concept.Detect.{
  Detected, value_error, raise, ddm, ok, make_detector, update, find_drift, is_some, rate,
  detect_concept_drift,
}

-- The position of the first `true`, counted from `i`.
abbrev pub first_true : ℕ → List Bool → Option ℕ
first_true i [] = none
first_true i (b ∷ bs) = if b then some i else first_true (i + 1) bs

positive_min : (a b : ℕ) → 0 < a → leb (min a (suc b)) 0 ≡ false
positive_min a b h = let p : 0 < min a (suc b) = omega arith in ground arith

module _ (fl : Floats) where
  open fl use {Float, ratio}

  -- A result, if each error got a decision.
  abbrev pub if_decided : {A : Type 0} → List Float → List Bool → A → Detected A
  if_decided errors ds a = if length ds == length errors then ok a else raise value_error

  find_drift-found :
      (i j : ℕ) (errors : List Float) (d : Ddm.Ddm fl)
      → find_drift fl i errors (ddm d) (some j) ≡ if_decided errors (decisions fl errors d) (some j)
  unfolding find_drift update decisions
  find_drift-found i j [] d = refl
  find_drift-found i j (e ∷ errors) d = elim (Option-cases (Ddm.update fl d e)) [
    | inl raised ↦ ground (arith, raised)
    | inr ((drift, d'), made) ↦ ground (arith, made, find_drift-found (i + 1) j errors d')
  ]

  find_drift-first_true :
      (i : ℕ) (errors : List Float) (d : Ddm.Ddm fl)
      → find_drift fl i errors (ddm d) none
        ≡ if_decided errors (decisions fl errors d) (first_true i (decisions fl errors d))
  unfolding find_drift update decisions
  find_drift-first_true i [] d = refl
  find_drift-first_true i (e ∷ errors) d = elim (Option-cases (Ddm.update fl d e)) [
    | inl raised ↦ ground (arith, raised)
    | inr ((true, d'), made) ↦ ground (arith, made, find_drift-found (i + 1) i errors d')
    | inr ((false, d'), made) ↦ ground (arith, made, find_drift-first_true (i + 1) errors d')
  ]

  -- With the method "ddm", at least one error value and a positive baseline size: if some update of DDM,
  -- with levels 2 and 3 and 30 as its minimum, raises, the run raises a ValueError. Otherwise it reports a drift exactly if DDM signals
  -- at some error, then the index of the first such error, and beside it the error rates of the
  -- first and of the last `baseline_size` errors, or of all if there are fewer.
  pub detect_concept_drift-ddm :
      (e : ℕ) (errors : List ℕ) (baseline_size : ℕ)
      → 0 < baseline_size
      → let all = e ∷ errors in
        let start = Ddm.init fl (ratio 2 1) (ratio 3 1) 30 in
        let values = map (λ x. ratio x 1) all in
        let point = first_true 0 (decisions fl values start) in
        detect_concept_drift fl all "ddm" baseline_size
        ≡ if_decided values (decisions fl values start) (record {
          drift_detected = is_some fl point;
          drift_point_index = point;
          current_error_rate = some (rate fl (take_last (min baseline_size (length all)) all));
          baseline_error_rate = some (rate fl (take (min baseline_size (length all)) all));
          method = "ddm";
        })
  unfolding detect_concept_drift make_detector
  detect_concept_drift-ddm e errors baseline_size pos =
      let all : List ℕ = e ∷ errors in
      let filled : leb (length all) 0 ≡ false = ground arith in
      let sized : leb (min baseline_size (length all)) 0 ≡ false =
        positive_min baseline_size (length errors) pos in
      let start = Ddm.init fl (ratio 2 1) (ratio 3 1) 30 in
      let values = map (λ x. ratio x 1) all in
      let found = find_drift-first_true 0 values start in
      elim (Bool-cases (length (decisions fl values start) == length values)) [
        | inl decided ↦ ground (arith, filled, found, sized, decided)
        | inr raised ↦ ground (arith, filled, found, sized, raised)
      ]

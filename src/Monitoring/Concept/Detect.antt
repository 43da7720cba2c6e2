-- ===== src/Monitoring/Concept/Detect.antt =====
-- `detect_concept_drift` of src/ml_platform/monitoring/detectors/concept_drift.py.
pub mod Laws
use ml_monitor.Prelude.{
  ℕ, zero, suc, ◌+◌, min, String, Bool, true, false, Option, none, some, List, [], ◌∷◌, map, length,
  take, take_last, leb, ◌==◌, string_eq, if◌then◌else◌, Floats,
}
use ml_monitor.Monitoring.Concept.Ddm
use ml_monitor.Monitoring.Concept.PageHinkley
use ml_monitor.Monitoring.Concept.Adwin

pub data DetectError : Type 0 where
  value_error zero_division index_error : DetectError

pub data Detected (A : Type 0) : Type 0 where
  ok : A → Detected A
  raise : DetectError → Detected A

pub record ConceptDrift (Float : Type 0) : Type 0 where
  pub drift_detected : Bool
  pub drift_point_index : Option ℕ
  pub current_error_rate : Option Float
  pub baseline_error_rate : Option Float
  pub method : String

module _ (fl : Floats) where
  open fl use {Float, ratio, div}

  -- An object of one of the classes in `_DETECTORS`.
  pub data Detector : Type 0 where
    adwin : Adwin.Adwin fl → Detector
    page_hinkley : PageHinkley.PageHinkley fl → Detector
    ddm : Ddm.Ddm fl → Detector

  -- `_DETECTORS[method]()`, with the constructors' default arguments.
  unfoldable pub make_detector : String → Option Detector
  make_detector method =
      if method == "adwin"
      then some (adwin (Adwin.init fl (ratio 2 1000) 5))
      else if method == "page_hinkley"
      then some (page_hinkley (PageHinkley.init fl (ratio 5 1000) (ratio 50 1) (ratio 9999 10000)))
      else if method == "ddm"
      then some (ddm (Ddm.init fl (ratio 2 1) (ratio 3 1) 30))
      else none

  -- `detector.update(e)`
  unfoldable pub update : Detector → Float → Detected (Bool × Detector)
  update (adwin d) e = elim (Adwin.update fl d e) [
    | none ↦ raise index_error
    | some (drift, d') ↦ ok (drift, adwin d')
  ]
  update (page_hinkley d) e =
      let (drift, d') = PageHinkley.update fl d e in ok (drift, page_hinkley d')
  update (ddm d) e = elim (Ddm.update fl d e) [
    | none ↦ raise value_error
    | some (drift, d') ↦ ok (drift, ddm d')
  ]

  -- The loop over the errors, at index `i`.
  unfoldable pub find_drift : ℕ → List Float → Detector → Option ℕ → Detected (Option ℕ)
  find_drift i [] d point = ok point
  find_drift i (e ∷ errors) d point = elim (update d e) [
    | raise error ↦ raise error
    | ok (detected, d') ↦
        let point' : Option ℕ = elim point [
          | none ↦ if detected then some i else none
          | some j ↦ some j
        ] in
        find_drift (i + 1) errors d' point'
  ]

  abbrev pub is_some : {A : Type 0} → Option A → Bool
  is_some none = false
  is_some (some a) = true

  abbrev pub sum : List ℕ → ℕ
  sum [] = 0
  sum (x ∷ xs) = x + sum xs

  abbrev pub rate : List ℕ → Float
  rate errors = div (ratio (sum errors) 1) (ratio (length errors) 1)

  unfoldable pub detect_concept_drift : List ℕ → String → ℕ → Detected (ConceptDrift Float)
  detect_concept_drift errors method baseline_size = elim (make_detector method) [
    | none ↦ raise value_error
    | some detector ↦
        if leb (length errors) 0
        then ok (record {
          drift_detected = false;
          drift_point_index = none;
          current_error_rate = none;
          baseline_error_rate = none;
          method = method;
        })
        else (let size = min baseline_size (length errors) in
            elim (find_drift 0 (map (λ e. ratio e 1) errors) detector none) [
              | raise error ↦ raise error
              | ok drift_point ↦
                  if leb size 0
                  then raise zero_division
                  else ok (record {
                    drift_detected = is_some drift_point;
                    drift_point_index = drift_point;
                    current_error_rate = some (rate (take_last size errors));
                    baseline_error_rate = some (rate (take size errors));
                    method = method;
                  })
            ])
  ]

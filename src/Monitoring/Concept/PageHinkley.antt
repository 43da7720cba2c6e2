-- ===== src/Monitoring/Concept/PageHinkley.antt =====
-- The class `PageHinkley` of src/ml_platform/monitoring/detectors/concept_drift.py.
use ml_monitor.Prelude.{ℕ, ◌+◌, Bool, false, if◌then◌else◌, Floats}

module _ (fl : Floats) where
  open fl use {Float, ratio, add, sub, mul, div, lt}

  pub record PageHinkley : Type 0 where
    pub delta : Float
    pub threshold : Float
    pub alpha : Float
    pub mean : Float
    pub n : ℕ
    pub sum : Float
    pub min_sum : Float
    pub drift_detected : Bool

  -- `__init__`
  unfoldable pub init : Float → Float → Float → PageHinkley
  init delta threshold alpha = record {
    delta = delta;
    threshold = threshold;
    alpha = alpha;
    mean = ratio 0 1;
    n = 0;
    sum = ratio 0 1;
    min_sum = ratio 0 1;
    drift_detected = false;
  }

  -- `min(a, b)`
  abbrev pub fmin : Float → Float → Float
  fmin a b = if lt b a then b else a

  unfoldable pub update : PageHinkley → Float → Bool × PageHinkley
  update d value =
      let n = d.n + 1 in
      let mean = add d.mean (div (sub value d.mean) (ratio n 1)) in
      let sum = add (mul d.alpha d.sum) (sub (sub value mean) d.delta) in
      let min_sum = fmin d.min_sum sum in
      let drift = lt d.threshold (sub sum min_sum) in
      (
        drift,
        record d {
          n = n;
          mean = mean;
          sum = if drift then ratio 0 1 else sum;
          min_sum = if drift then ratio 0 1 else min_sum;
          drift_detected = drift;
        },
      )

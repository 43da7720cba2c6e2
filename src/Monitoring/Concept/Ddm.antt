-- ===== src/Monitoring/Concept/Ddm.antt =====
-- The class `DDM` of src/ml_platform/monitoring/detectors/concept_drift.py.
pub mod Laws
pub mod ErrorFree
use ml_monitor.Prelude.{
  ℕ, ◌+◌, ◌≡◌, Bool, true, false, Option, none, some, List, [], ◌∷◌, if◌then◌else◌, ltb, leb,
  Floats,
}

module _ (fl : Floats) where
  open fl use {Float, ratio, inf, add, sub, mul, div, lt, le, sqrt}

  pub record Ddm : Type 0 where
    pub warning_level : Float
    pub drift_level : Float
    pub min_n : ℕ
    pub n : ℕ
    pub p : Float
    pub s : Float
    pub p_min : Float
    pub s_min : Float
    pub drift_detected : Bool
    pub warning_detected : Bool

  -- `__init__`
  unfoldable pub init : Float → Float → ℕ → Ddm
  init warning_level drift_level min_n = record {
    warning_level = warning_level;
    drift_level = drift_level;
    min_n = min_n;
    n = 0;
    p = ratio 1 1;
    s = ratio 0 1;
    p_min = inf;
    s_min = inf;
    drift_detected = false;
    warning_detected = false;
  }

  -- The new estimates, with both flags cleared; `none` is the ValueError of `math.sqrt`.
  unfoldable pub estimate : Ddm → Float → Option Ddm
  estimate d error =
      let n = d.n + 1 in
      let p = add d.p (div (sub error d.p) (ratio n 1)) in
      let square = div (mul p (sub (ratio 1 1) p)) (ratio n 1) in
      let s : Option Float =
        if leb n 0
        then some (ratio 0 1)
        else if lt square (ratio 0 1)
        then none
        else some (sqrt square) in
      elim s [
        | none ↦ none
        | some s ↦
            some
              (record d { n = n; p = p; s = s; drift_detected = false; warning_detected = false })
      ]

  -- The smallest estimate so far.
  unfoldable pub track_min : Ddm → Ddm
  track_min d =
      if lt (add d.p d.s) (add d.p_min d.s_min) then record d { p_min = d.p; s_min = d.s } else d

  -- `p + s >= p_min + level * s_min`
  unfoldable pub exceeds : Float → Ddm → Bool
  exceeds level d = le (add d.p_min (mul level d.s_min)) (add d.p d.s)

  -- The drift and warning tests, with the reset after a drift.
  unfoldable pub signal : Ddm → Ddm
  unfolding exceeds
  signal d =
      if exceeds d.drift_level d
      then record d {
        drift_detected = true;
        n = 0;
        p = ratio 1 1;
        s = ratio 0 1;
        p_min = inf;
        s_min = inf;
      }
      else if exceeds d.warning_level d
      then record d { warning_detected = true }
      else d

  unfoldable pub update : Ddm → Float → Option (Bool × Ddm)
  unfolding estimate track_min signal
  update d error = elim (estimate d error) [
    | none ↦ none
    | some e ↦
        if ltb e.n e.min_n
        then some (false, e)
        else (let s = signal (track_min e) in some (s.drift_detected, s))
  ]

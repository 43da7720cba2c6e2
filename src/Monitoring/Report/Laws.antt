-- ===== src/Monitoring/Report/Laws.antt =====
-- The views of a report in src/ml_platform/monitoring/core/report.py.
use ml_monitor.Prelude.{
  ℕ, zero, suc, min, ◌≡◌, ap, ◌∙◌, Bool, true, false, List, [], ◌∷◌, length, length-take, take,
  Floats,
}
use ml_monitor.Prelude.Sorting.{sort_by, length-sort_by, IsOrdered, sort_by-IsOrdered}
use ml_monitor.Monitoring.DataDrift.{Numerics}
use ml_monitor.Monitoring.Report.{DriftReport, higher, top_drifted}

module _ {A : Type 0} (before : A → A → Bool) where
  take-IsOrdered : (n : ℕ) (xs : List A) → IsOrdered before xs → IsOrdered before (take n xs)
  take-IsOrdered zero xs h = tt
  take-IsOrdered (suc n) [] h = tt
  take-IsOrdered (suc n) (x ∷ []) h = go n
    where
      go : (m : ℕ) → IsOrdered before (x ∷ take m [])
      go zero = tt
      go (suc m) = tt
  take-IsOrdered (suc zero) (x ∷ y ∷ ys) h = tt
  take-IsOrdered (suc (suc n)) (x ∷ y ∷ ys) h = (h.0, take-IsOrdered (suc n) (y ∷ ys) h.1)

module _ (fl : Floats) {V : Type 0} (np : Numerics fl.Float V) where
  open fl use {Float, lt}

  -- If `<` is asymmetric, `top_drifted` gives n features, or all of them when there are fewer, and none
  -- of them has a higher drift score than the one before it.
  top_drifted-IsOrdered :
      ((x y : Float) → lt x y ≡ true → lt y x ≡ false)
      → (report : DriftReport fl np) (n : ℕ)
      → (length (top_drifted fl np report n) ≡ min n (length report.data_drift))
        × IsOrdered (higher fl np) (top_drifted fl np report n)
  unfolding top_drifted
  top_drifted-IsOrdered asym report n = (
    length-take n (sort_by (higher fl np) report.data_drift)
        ∙ ap (min n) (length-sort_by (higher fl np) report.data_drift),
    take-IsOrdered (higher fl np) n _ (
        sort_by-IsOrdered (higher fl np) (λ x y. asym y.1.drift_score x.1.drift_score)
          report.data_drift),
  )

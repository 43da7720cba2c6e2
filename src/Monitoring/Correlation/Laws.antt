-- ===== src/Monitoring/Correlation/Laws.antt =====
-- The pairs that correlation_drift.py flags.
use ml_monitor.Prelude.{
  ◌≡◌, refl, ap, ◌∙◌, String, false, Option, none, some, List, [], ◌∷◌, ◌++◌, select, Floats,
}
use mathlib.Core.Path.{ap₂}
use ml_monitor.Monitoring.DataDrift.{Frame}
use ml_monitor.Monitoring.Correlation.{
  Matrix, detect_correlation_drift, flag_row, flag_pairs, is_in, or_zero, spearman_matrix,
  delta_cell,
}

module _ (fl : Floats) {V : Type 0} (spearmanr : Frame V → String → String → Option fl.Float)
    (sorted_set : List String → List String) where
  open fl use {Float, ratio, sub, fabs, le}

  module _ (delta : String → String → Option Float) (threshold : Float) where
    module _
        (calm : (a b : String)
          → le threshold (or_zero fl spearmanr sorted_set (delta a b)) ≡ false) where
      flag_row-calm :
          (a : String) (bs : List String)
          → flag_row fl spearmanr sorted_set delta threshold a bs ≡ []
      unfolding flag_row
      flag_row-calm a [] = refl
      flag_row-calm a (b ∷ bs) = rw (calm a b) (flag_row-calm a bs)

      flag_pairs-calm :
          (cols : List String) → flag_pairs fl spearmanr sorted_set delta threshold cols ≡ []
      unfolding flag_pairs
      flag_pairs-calm [] = refl
      flag_pairs-calm (a ∷ cols) = ap₂ ◌++◌ (flag_row-calm a cols) (flag_pairs-calm cols)

  -- If x - x is 0 for every float and the threshold is above 0, then a frame compared with itself has
  -- no flagged pair, and its flagged features are those of the empty list.
  detect_correlation_drift_self :
      ((x : Float) → fabs (sub x x) ≡ ratio 0 1)
      → (df : Frame V) (threshold : Float) → le threshold (ratio 0 1) ≡ false
      → let drift = detect_correlation_drift fl spearmanr sorted_set df df threshold in
        (drift.flagged_pairs ≡ []) × (drift.flagged_features ≡ sorted_set [])
  unfolding detect_correlation_drift
  detect_correlation_drift_self self df threshold positive =
      let m : Matrix Float = spearman_matrix fl spearmanr sorted_set df in
      let delta : String → String → Option Float = delta_cell fl spearmanr sorted_set m m in
      let calm : (a b : String)
          → le threshold (or_zero fl spearmanr sorted_set (delta a b)) ≡ false =
        λ a b. delta_cell-self m a b in
      let none_flagged : flag_pairs fl spearmanr sorted_set delta threshold
            (select (is_in m.columns) m.columns)
          ≡ [] =
        flag_pairs-calm delta threshold calm (select (is_in m.columns) m.columns) in
      (none_flagged, rw none_flagged refl)
    where
      delta_cell-self :
          (m : Matrix Float) (a b : String)
          → le threshold
              (or_zero fl spearmanr sorted_set (delta_cell fl spearmanr sorted_set m m a b))
            ≡ false
      delta_cell-self m a b =
          elim (m.cell a b)
            as (λ c.
              le threshold (
                or_zero fl spearmanr sorted_set (elim c as (λ _. Option Float) [
                  | none ↦ none
                  | some x ↦ elim c as (λ _. Option Float) [
                    | none ↦ none
                    | some y ↦ some (fabs (sub x y))
                  ]
                ]))
              ≡ false) [ none ↦ positive | some x ↦ ap (le threshold) (self x) ∙ positive ]

-- ===== src/Monitoring/Correlation.antt =====
-- src/ml_platform/monitoring/detectors/correlation_drift.py: the pairs of features whose Spearman
-- correlation moved. scipy's `spearmanr` is an argument.
pub mod Laws
use ml_monitor.Prelude.{
  ℕ, String, Bool, true, false, Option, none, some, List, [], ◌∷◌, ◌++◌, map, any, length, ltb,
  select, ◌==◌, string_eq, if◌then◌else◌, Floats,
}
use ml_monitor.Monitoring.DataDrift.{Column, Frame, column}

pub record FlaggedPair (Float : Type 0) : Type 0 where
  pub feature_a : String
  pub feature_b : String
  pub delta : Float

-- A matrix with names on its rows and columns; `none` in a cell is NaN.
pub record Matrix (Float : Type 0) : Type 0 where
  pub columns : List String
  pub cell : String → String → Option Float

pub record CorrelationDrift (Float : Type 0) : Type 0 where
  pub reference_matrix : Matrix Float
  pub current_matrix : Matrix Float
  pub delta_matrix : Matrix Float
  pub flagged_pairs : List (FlaggedPair Float)
  pub flagged_features : List String

unfoldable pub numeric_columns : {V : Type 0} → Frame V → List String
numeric_columns [] = []
numeric_columns ((name, c) ∷ df) =
    let rest = numeric_columns df in if c.is_numeric then name ∷ rest else rest

abbrev pub is_in : List String → String → Bool
is_in xs x = any (λ y. y == x) xs

module _ (fl : Floats) {V : Type 0} (spearmanr : Frame V → String → String → Option fl.Float)
    (sorted_set : List String → List String) where
  open fl use {Float, ratio, sub, fabs, le}

  -- The cells for the numeric columns: NaN when there are fewer than two, the one coefficient off the
  -- diagonal when there are two, else the matrix of `spearmanr`.
  abbrev pub corr : Frame V → List String → String → String → Option Float
  corr df [] a b = none
  corr df (c ∷ []) a b = none
  corr df (c ∷ d ∷ []) a b = if a == b then some (ratio 1 1) else spearmanr df c d
  corr df (c ∷ d ∷ e ∷ cols) a b = spearmanr df a b

  unfoldable pub spearman_matrix : Frame V → Matrix Float
  unfolding numeric_columns
  spearman_matrix df =
      let cols = numeric_columns df in record { columns = cols; cell = corr df cols }

  -- `(cur_corr - ref_corr).abs()`, where NaN propagates.
  abbrev pub delta_cell : Matrix Float → Matrix Float → String → String → Option Float
  delta_cell ref cur a b = elim (cur.cell a b) [
    | none ↦ none
    | some c ↦ elim (ref.cell a b) [ none ↦ none | some r ↦ some (fabs (sub c r)) ]
  ]

  -- `float(delta) if not pd.isna(delta) else 0.0`
  abbrev pub or_zero : Option Float → Float
  or_zero none = ratio 0 1
  or_zero (some d) = d

  -- The inner loop over `common[i + 1:]`.
  unfoldable pub flag_row :
      (String → String → Option Float) → Float → String → List String → List (FlaggedPair Float)
  flag_row delta threshold a [] = []
  flag_row delta threshold a (b ∷ later) =
      let rest = flag_row delta threshold a later in
      let d = or_zero (delta a b) in
      if le threshold d then record { feature_a = a; feature_b = b; delta = d } ∷ rest else rest

  unfoldable pub flag_pairs :
      (String → String → Option Float) → Float → List String → List (FlaggedPair Float)
  unfolding flag_row
  flag_pairs delta threshold [] = []
  flag_pairs delta threshold (a ∷ common) =
      flag_row delta threshold a common ++ flag_pairs delta threshold common

  unfoldable pub detect_correlation_drift : Frame V → Frame V → Float → CorrelationDrift Float
  unfolding flag_pairs spearman_matrix
  detect_correlation_drift reference_df current_df change_threshold =
      let ref = spearman_matrix reference_df in
      let cur = spearman_matrix current_df in
      let common = select (is_in cur.columns) ref.columns in
      let delta = delta_cell ref cur in
      let flagged_pairs = flag_pairs delta change_threshold common in
      record {
        reference_matrix = record { columns = common; cell = ref.cell };
        current_matrix = record { columns = common; cell = cur.cell };
        delta_matrix = record { columns = common; cell = delta };
        flagged_pairs = flagged_pairs;
        flagged_features = sorted_set (
            map (λ (p : FlaggedPair Float). p.feature_a) flagged_pairs
            ++ map (λ (p : FlaggedPair Float). p.feature_b) flagged_pairs);
      }

-- ===== src/Features/GroupDrift.antt =====
-- src/ml_platform/features/quality/drift_detector.py: the history of a feature group, split in time and
-- compared with itself. `column_of` is the column that pandas makes of cells, `none` where a row has no
-- value; a value is the same under each dtype. A split time is already parsed.
pub mod Laws
mod Tests
use ml_monitor.Prelude.{
  ℕ, ◌/◌, String, Bool, not, ◌||◌, string_eq, Option, none, some, List, [], ◌∷◌, select, map, take,
  drop, length, any, leb, ltb, if◌then◌else◌, Floats,
}
use ml_monitor.Prelude.Dict.{Dict, get}
use ml_monitor.Features.Frame.{Row}
use ml_monitor.Features.Store.{Libraries, FeatureStore, offline_read}
use ml_monitor.Monitoring.DataDrift.{
  Column, Numerics, FeatureDrift, DriftError, Frame, ok, raise, detect_data_drift,
}
use ml_monitor.Pipeline.Reference.{feature_columns, has_column}

-- The dict, or why there is none.
pub data Check (A : Type 0) : Type 0 where
  checked : A → Check A
  not_registered key_error : Check A
  drift_failed : DriftError → Check A

-- The reference and the current rows of a history in order: before and from a time, or its two halves.
unfoldable pub split_rows : {V : Type 0} → Option ℕ → List (Row V) → List (Row V) × List (Row V)
split_rows (some split_ts) df = (
  select (λ (r : Row _). ltb r.event_timestamp split_ts) df,
  select (λ (r : Row _). leb split_ts r.event_timestamp) df,
)
split_rows none df = let midpoint = length df / 2 in (take midpoint df, drop midpoint df)

module _ (fl : Floats) {S V : Type 0} (lib : Libraries S V) (column_of : List (Option V) → Column V)
    (np : Numerics fl.Float V) where
  open fl use {Float}

  abbrev cells_of : String → List (Row V) → Column V
  cells_of c rows = column_of (map (λ (r : Row V). get c r.features) rows)

  -- The columns of a slice of a frame, which keep the dtypes of the whole frame.
  unfoldable pub slice_columns : List String → List (Row V) → List (Row V) → Frame V
  slice_columns cols df part =
      map
        (λ c. (
          c,
          record {
            values = (cells_of c part).values;
            is_numeric = (cells_of c df).is_numeric;
            is_bool = (cells_of c df).is_bool;
          },
        ))
        cols

  -- The comparison of the two sides, once both have rows.
  unfoldable pub compare_sides :
      List String
      → List (Row V)
      → List (Row V) × List (Row V)
      → String
      → String
      → Float
      → Check (Dict String (FeatureDrift Float))
  unfolding slice_columns
  compare_sides feature_cols df (reference_df, current_df) num cat threshold =
      if leb (length reference_df) 0 || leb (length current_df) 0
      then checked []
      else if any (λ c. not (has_column fl lib column_of df c)) feature_cols
      then key_error
      else elim (detect_data_drift fl np (slice_columns feature_cols df reference_df)
          (slice_columns feature_cols df current_df) num cat threshold) [
            | raise e ↦ drift_failed e
            | ok results ↦ checked results
          ]

  unfoldable pub check_drift :
      String
      → Option ℕ
      → String
      → String
      → Float
      → FeatureStore fl lib
      → Check (Dict String (FeatureDrift Float))
  unfolding feature_columns split_rows compare_sides
  check_drift feature_group split_at num cat threshold fs =
      elim (feature_columns fl lib column_of feature_group fs) [
        | none ↦ not_registered
        | some feature_cols ↦
            let df = offline_read fl lib feature_group fs in
            if leb (length df) 0
            then checked []
            else (let sorted = lib.sort_values df in
                compare_sides feature_cols sorted (split_rows split_at sorted) num cat threshold)
      ]

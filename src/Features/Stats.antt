-- ===== src/Features/Stats.antt =====
-- src/ml_platform/features/registry/stats.py and quality/profiler.py: the statistics of an ingest, over
-- what pandas computes of a column.
pub mod Laws
use ml_monitor.Prelude.{
  ℕ, String, Bool, true, false, ◌&&◌, not, Option, none, some, List, [], ◌∷◌, length, select, any,
  leb, ltb, if◌then◌else◌, string_eq, Floats,
}
use ml_monitor.Prelude.Dict.{Dict, put}
use ml_monitor.Features.Frame.{Frame}

-- The statistics are over the numbers of a column; `to_numeric` leaves out what it cannot convert.
pub record ColumnOps (Float V : Type 0) : Type 0 where
  pub column : Frame V → String → Option (List V)
  pub is_na : V → Bool
  -- a numeric or a Boolean dtype
  pub is_statable : List V → Bool
  pub to_numeric : List V → List Float
  pub mean : List Float → Float
  pub std : List Float → Float
  pub minimum : List Float → Float
  pub maximum : List Float → Float

pub record Entry (Float : Type 0) : Type 0 where
  pub count : ℕ
  pub null_rate : Float
  pub mean : Option Float
  pub std : Option Float
  pub minimum : Option Float
  pub maximum : Option Float

module _ (fl : Floats) {V : Type 0} (ops : ColumnOps fl.Float V) where
  open fl use {Float, ratio, div}

  -- `float(col.isna().mean()) if len(col) else 0.0`
  unfoldable pub null_rate_of : List V → Float
  null_rate_of col =
      if leb (length col) 0
      then ratio 0 1
      else div (ratio (length (select ops.is_na col)) 1) (ratio (length col) 1)

  -- The body of the loop for a column that is there.
  unfoldable pub entry_of : List V → Entry Float
  unfolding null_rate_of
  entry_of col =
      if ops.is_statable col && any (λ v. not (ops.is_na v)) col
      then (let numeric = ops.to_numeric col in
          record {
            count = length col;
            null_rate = null_rate_of col;
            mean = some (ops.mean numeric);
            std = some (if ltb 1 (length numeric) then ops.std numeric else ratio 0 1);
            minimum = some (ops.minimum numeric);
            maximum = some (ops.maximum numeric);
          })
      else record {
        count = length col;
        null_rate = null_rate_of col;
        mean = none;
        std = none;
        minimum = none;
        maximum = none;
      }

  -- The loop over the feature names, on the dict so far.
  unfoldable pub add_stats :
      Frame V → List String → Dict String (Entry Float) → Dict String (Entry Float)
  unfolding entry_of
  add_stats df [] stats = stats
  add_stats df (name ∷ feature_names) stats = elim (ops.column df name) [
    | none ↦ add_stats df feature_names stats
    | some col ↦ add_stats df feature_names (put name (entry_of col) stats)
  ]

  unfoldable pub compute_stats : Frame V → List String → Dict String (Entry Float)
  unfolding add_stats
  compute_stats df feature_names = add_stats df feature_names []

  unfoldable pub profile : Frame V → List String → Dict String (Entry Float)
  unfolding compute_stats
  profile df feature_names = compute_stats df feature_names

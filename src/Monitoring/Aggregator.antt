-- ===== src/Monitoring/Aggregator.antt =====
-- src/ml_platform/monitoring/store/aggregator.py: the predictions of the last hours, by hour or by
-- day. The numeric values of a drift_scores dict and the order of SQLite are arguments.
pub mod Laws
use ml_monitor.Prelude.{
  ℕ, ◌+◌, ◌-◌, ◌*◌, ◌/◌, String, Bool, true, false, Option, none, some, List, [], ◌∷◌, ◌++◌, map,
  length, ltb, ◌==◌, nat_eq, string_eq, if◌then◌else◌, Floats,
}
use ml_monitor.Prelude.Dict.{Dict, get, put}
use ml_monitor.Prelude.Sorting.{sort_by}
use ml_monitor.Monitoring.Store.{Json, Prediction, PredictionRow, SqliteStore, recent_predictions}

-- `_BUCKET_SECONDS.get(granularity)`
unfoldable pub bucket_seconds : String → Option ℕ
bucket_seconds granularity =
    if granularity == "hourly"
    then some 3_600
    else if granularity == "daily"
    then some 86_400
    else none

module _ (fl : Floats) {V : Type 0} (numbers_of : V → List fl.Float) where
  open fl use {Float, ratio, add, div}

  pub record Bucket : Type 0 where
    pub count : ℕ
    pub labeled : ℕ
    pub drift_scores : List Float

  pub record Aggregate : Type 0 where
    pub bucket_start : ℕ
    pub count : ℕ
    pub labeled : ℕ
    pub mean_drift_score : Option Float

  -- The `defaultdict`'s bucket.
  unfoldable pub bucket_or_new : Option Bucket → Bucket
  bucket_or_new none = record { count = 0; labeled = 0; drift_scores = [] }
  bucket_or_new (some b) = b

  unfoldable pub scores_of : Option V → List Float
  scores_of none = []
  scores_of (some scores) = numbers_of scores

  unfoldable pub one_if_some : Option V → ℕ
  one_if_some none = 0
  one_if_some (some label) = 1

  unfoldable pub add_row : Prediction V → Bucket → Bucket
  unfolding scores_of one_if_some
  add_row row b = record {
    count = b.count + 1;
    labeled = b.labeled + one_if_some row.label;
    drift_scores = b.drift_scores ++ scores_of row.drift_scores;
  }

  -- The loop over the rows.
  unfoldable pub fill : ℕ → List (Prediction V) → Dict ℕ Bucket → Dict ℕ Bucket
  unfolding add_row bucket_or_new
  fill bucket_size [] buckets = buckets
  fill bucket_size (row ∷ rows) buckets =
      let bucket_key = row.timestamp / bucket_size * bucket_size in
      fill bucket_size rows
        (put bucket_key (add_row row (bucket_or_new (get bucket_key buckets))) buckets)

  abbrev pub sum_from : Float → List Float → Float
  sum_from total [] = total
  sum_from total (x ∷ xs) = sum_from (add total x) xs

  unfoldable pub mean_drift : List Float → Option Float
  mean_drift [] = none
  mean_drift (x ∷ xs) = some (div (sum_from (ratio 0 1) (x ∷ xs)) (ratio (length (x ∷ xs)) 1))

  unfoldable pub result_of : ℕ × Bucket → Aggregate
  unfolding mean_drift
  result_of (bucket_start, b) = record {
    bucket_start = bucket_start;
    count = b.count;
    labeled = b.labeled;
    mean_drift_score = mean_drift b.drift_scores;
  }

  -- `sorted(buckets)`
  abbrev pub starts_before : ℕ × Bucket → ℕ × Bucket → Bool
  starts_before x y = ltb x.0 y.0

  -- `none` is the ValueError. A `since` before the epoch selects what 0 selects.
  unfoldable pub aggregate :
      Json V
      → (List PredictionRow → List PredictionRow)
      → ℕ
      → SqliteStore
      → String
      → ℕ
      → Option (List Aggregate)
  unfolding fill result_of bucket_seconds
  aggregate json order_desc now store granularity hours = elim (bucket_seconds granularity) [
    | none ↦ none
    | some bucket_size ↦
        let rows =
          recent_predictions json order_desc 1_000_000 (some (now - hours * 3_600)) store in
        some (map result_of (sort_by starts_before (fill bucket_size rows [])))
  ]

-- ===== src/Monitoring/Tests.antt =====
-- The theorems on the monitoring package, each applied to concrete values.
use mathlib.Core.List.{reverse}
use ml_monitor.Prelude.{
  ℕ, ◌≡◌, refl, none, some, String, List, [], ◌∷◌, arith, length, take_last, ◌==◌, string_eq,
  nat_eq, pair_eq, select, ◌-◌, ◌*◌,
}
use ml_monitor.Prelude.Dict.{get}
use ml_monitor.Samples.Fixed.{Fixed, fixed, fixed_ratio}
use ml_monitor.Monitoring.Window.{LogRecord}
use ml_monitor.Monitoring.Dedup as Dedup
use ml_monitor.Monitoring.Dedup.{Key, Deduplicator}
use ml_monitor.Monitoring.Dedup.Laws.{
  Request, request_key, fired, IsSpaced, fired-IsSpaced, fired-select,
}
use ml_monitor.Monitoring.Store as Store
use ml_monitor.Monitoring.Store.{
  Json, SqliteStore, PredictionRow, AlertRow, recent_predictions, purge_old, count, is_expired,
}
use ml_monitor.Monitoring.Store.Laws.{Entry, log_all, numbered, recent_predictions-log_all}
use ml_monitor.Monitoring.Aggregator.{Aggregate, aggregate, bucket_seconds}
use ml_monitor.Monitoring.Aggregator.Laws.{total, total_labeled, labeled_rows, aggregate-total}

abbrev logged : ℕ → LogRecord ℕ
logged t = record { timestamp = t; features = ("x", t) ∷ []; prediction = 1; label = some 1 }

abbrev age : Key
age = ("data_drift", "age")

abbrev requests : List Request
requests =
    ("data_drift", some "age", 5)
    ∷ ("prediction_drift", none, 6)
    ∷ ("data_drift", some "age", 7)
    ∷ ("data_drift", some "age", 30)
    ∷ []

fired-IsSpaced_example : IsSpaced 10 none (fired age requests (Dedup.init 10))
unfolding get
fired-IsSpaced_example = fired-IsSpaced age requests (Dedup.init 10)

fired-select_example :
    fired age requests (Dedup.init 10)
    ≡ fired age (select (λ (q : Request). request_key q == age) requests) (Dedup.init 10)
fired-select_example = fired-select age requests (Dedup.init 10) (Dedup.init 10) refl refl

-- Texts that hold their value.
abbrev json : Json String
json = record { dumps = λ v. v; loads = λ v. v }

abbrev entry : ℕ → Entry String
entry t = record {
  features = "{}";
  prediction = "1";
  label = none;
  drift_scores = none;
  timestamp = t;
}

recent_predictions-log_all_example :
    recent_predictions json
      (λ rows. reverse rows)
      1
      none
      (log_all json (entry 1 ∷ entry 2 ∷ []) (Store.init 30))
    ≡ take_last 1 (numbered json 1 (entry 1 ∷ entry 2 ∷ []))
recent_predictions-log_all_example =
    recent_predictions-log_all json (λ v. refl) (λ rows. reverse rows) (λ rows h. refl) 1 30
      (entry 1 ∷ entry 2 ∷ []) (omega arith, tt)

-- A drift score for each text.
abbrev one_score : String → List Fixed
one_score text = fixed_ratio 1 2 ∷ []

abbrev two_hours : SqliteStore
two_hours =
    log_all json (entry 1 ∷ record (entry 2) { label = some "1" } ∷ entry 7_200 ∷ [])
      (Store.init 30)

aggregate-total_example :
    let rows =
      recent_predictions json
        (λ rows. reverse rows)
        1_000_000
        (some (7_300 - 24 * 3_600))
        two_hours in
    (result : List (Aggregate fixed one_score)) × (aggregate fixed one_score json
        (λ rows. reverse rows)
        7_300
        two_hours
        "hourly"
        24
      ≡ some result)
    × (total fixed one_score result ≡ length rows)
    × (total_labeled fixed one_score result ≡ labeled_rows fixed one_score rows)
unfolding bucket_seconds
aggregate-total_example =
    aggregate-total fixed one_score json (λ rows. reverse rows) 7_300 two_hours "hourly" 24 3_600
      refl

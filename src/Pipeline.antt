-- ===== src/Pipeline.antt =====
-- src/ml_platform/pipeline.py: history is ingested into the feature store, a monitor is built from the
-- group's offline history, and live rows are scored for drift against it. An exception is a
-- constructor of `Failure`; what was stored before it is not modelled. Times are given.
pub mod Reference
pub mod Live
pub mod Monitored
pub mod Laws
mod Tests
use ml_monitor.Prelude.{
  ℕ, String, ◌<>◌, Bool, true, false, not, Option, none, some, List, [], ◌∷◌, ◌++◌, map, any,
  select, length, leb, ltb, string_eq, if◌then◌else◌, Floats,
}
use ml_monitor.Prelude.Dict.{Dict, get}
use ml_monitor.Features.Frame.{Frame, Row, is_in}
use ml_monitor.Features.Registry.{Feature, Registered, done, integrity_error}
use ml_monitor.Features.Schema.{required_cols}
use ml_monitor.Features.Store as Features
use ml_monitor.Features.Store.{FeatureGroup, FeatureStore, Libraries, StoreError, register, ingest}
use ml_monitor.Fraud.Features as Fraud
use ml_monitor.Monitoring.DataDrift as DataDrift
use ml_monitor.Monitoring.DataDrift.{Column, Numerics, DriftError}
use ml_monitor.Monitoring.Report.{DriftReport, drifted_features}
use ml_monitor.Monitoring.Store.{Json, SqliteStore}
use ml_monitor.Monitoring.Monitor.{Message, Effect}
use ml_monitor.Monitoring.Monitor.Drift.{Pandas, Monitor, mapping, drift_report}
use ml_monitor.Monitoring.Monitor.Drift.Laws.{Call, log_all}
use ml_monitor.Monitoring.Monitor.Drift.Open.{drift_config}
use ml_monitor.Pipeline.Reference.{
  found, not_registered, no_offline_data, monitor_from_feature_store,
}

abbrev pub fraud_feature_group : String
fraud_feature_group = "user_transaction_features"

pub data Failure : Type 0 where
  registration_failed key_error value_error no_group : Failure
  no_reference : List String → Failure
  ingest_failed : StoreError → Failure
  drift_failed : DriftError → Failure

pub data Run (A : Type 0) : Type 0 where
  returned : A → Run A
  failed : Failure → Run A

-- `float(v)` as a value, `none` if it raises, and 0.0.
pub record Casts (V : Type 0) : Type 0 where
  pub to_float : V → Option V
  pub zero : V

-- `{f: float(row[f]) for f in names}`
unfoldable pub floats_of :
    {V : Type 0} → Casts V → List String → Dict String V → Run (Dict String V)
floats_of casts [] row = returned []
floats_of casts (f ∷ names) row = elim (get f row) [
  | none ↦ failed key_error
  | some v ↦ elim (casts.to_float v) [
    | none ↦ failed value_error
    | some x ↦ elim (floats_of casts names row) [
      | failed e ↦ failed e
      | returned rest ↦ returned ((f, x) ∷ rest)
    ]
  ]
]

-- `float(row.get("fraud_score", 0.0))`
unfoldable pub prediction_of : {V : Type 0} → Casts V → Dict String V → Option V
prediction_of casts row = elim (get "fraud_score" row) [
  | none ↦ casts.to_float casts.zero
  | some v ↦ casts.to_float v
]

-- The calls of `log` in the loop over the live rows, each with its time.
unfoldable pub live_calls : {V : Type 0} → Casts V → List (ℕ × Dict String V) → Run (List (Call V))
unfolding floats_of prediction_of
live_calls casts [] = returned []
live_calls casts ((now, row) ∷ live) = elim (floats_of casts Fraud.feature_names row) [
  | failed e ↦ failed e
  | returned features ↦ elim (prediction_of casts row) [
    | none ↦ failed value_error
    | some prediction ↦ elim (live_calls casts live) [
      | failed e ↦ failed e
      | returned calls ↦ returned (
          record { features = mapping features; prediction = prediction; label = none; now = now }
          ∷ calls)
    ]
  ]
]

abbrev pub ingest_cols : List String
ingest_cols = required_cols ++ Fraud.feature_names

-- The cells of the named columns.
unfoldable pub restrict : {V : Type 0} → List String → Dict String V → Dict String V
restrict [] row = []
restrict (n ∷ names) row =
    let rest = restrict names row in elim (get n row) [ none ↦ rest | some v ↦ (n, v) ∷ rest ]

-- `history[ingest_cols]`; `none` is the KeyError for a column that is not there.
unfoldable pub project : {V : Type 0} → Frame V → Option (Frame V)
unfolding restrict
project history =
    if any (λ c. not (is_in history.columns c)) ingest_cols
    then none
    else some (record {
      columns = ingest_cols;
      rows =
          map (λ (r : Row _). record r { features = restrict Fraud.feature_names r.features })
            history.rows;
    })

abbrev pub fraud_feature : String → Feature
fraud_feature f = record { name = f; dtype = "float32"; description = "fraud model input: " <> f }

unfoldable pub fraud_group : String → FeatureGroup
fraud_group name = record {
  name = name;
  entity_name = "user_id";
  entity_dtype = "int64";
  entity_description = "transacting user";
  features = map fraud_feature Fraud.feature_names;
  ttl_hours = some 24;
  online = true;
  offline = true;
  tags = "fraud" ∷ "streaming" ∷ [];
}

module _ (fl : Floats) {S V : Type 0} (lib : Libraries S V) (column_of : List (Option V) → Column V)
    (np : Numerics fl.Float V) (pd : Pandas fl.Float V) (json : Json V)
    (render : Message fl.Float → String) (casts : Casts V) where
  unfoldable pub register_fraud_feature_group :
      String → ℕ → FeatureStore fl lib → Registered × FeatureStore fl lib
  unfolding fraud_group
  register_fraud_feature_group name now fs = register fl lib (fraud_group name) now fs

  pub record PipelineResult : Type 0 where
    pub feature_group : String
    pub reference_rows : ℕ
    pub live_rows : ℕ
    pub drifted_features : List String
    pub drift_detected : Bool
    pub report : DriftReport fl np

  -- What a run leaves: its result, the alerts' effects, the feature store and the monitor.
  pub record Finished : Type 0 where
    pub result : PipelineResult
    pub effects : List (Effect fl.Float)
    pub features : FeatureStore fl lib
    pub monitor : Monitor fl np pd json render

  -- The loop and the report, over the monitor.
  unfoldable pub score_live :
      List (ℕ × Dict String V)
      → ℕ
      → Monitor fl np pd json render
      → Run (DriftReport fl np × List (Effect fl.Float) × Monitor fl np pd json render)
  unfolding live_calls
  score_live live now monitor = elim (live_calls casts live) [
    | failed e ↦ failed e
    | returned calls ↦
        elim (drift_report fl np pd json render (log_all fl np pd json render calls monitor) now) [
          | DataDrift.raise e ↦ failed (drift_failed e)
          | DataDrift.ok r ↦ returned r
        ]
  ]

  abbrev pub window_for : List (ℕ × Dict String V) → ℕ
  window_for live = if ltb (length live) 1 then 1 else length live

  -- The part after the ingest.
  unfoldable pub monitor_live :
      String → ℕ → List (ℕ × Dict String V) → SqliteStore → ℕ → FeatureStore fl lib → Run Finished
  unfolding score_live
  monitor_live feature_group reference_rows live db now fs =
      elim (monitor_from_feature_store fl lib column_of np pd json render feature_group none
        (some (drift_config fl (window_for live))) none db fs) [
          | not_registered ↦ failed no_group
          | no_offline_data missing ↦ failed (no_reference missing)
          | found monitor ↦ elim (score_live live now monitor) [
            | failed e ↦ failed e
            | returned (report, effects, m) ↦
                let drifted = drifted_features fl np report in
                returned (record {
                  result = record {
                    feature_group = feature_group;
                    reference_rows = reference_rows;
                    live_rows = length live;
                    drifted_features = drifted;
                    drift_detected = ltb 0 (length drifted);
                    report = report;
                  };
                  effects = effects;
                  features = fs;
                  monitor = m;
                })
          ]
        ]

  unfoldable pub run_reference_pipeline :
      Frame V
      → List (ℕ × Dict String V)
      → String
      → SqliteStore
      → ℕ
      → FeatureStore fl lib
      → Run Finished
  unfolding register_fraud_feature_group project monitor_live
  run_reference_pipeline history live feature_group db now fs =
      let (outcome, registered) = register_fraud_feature_group feature_group now fs in
      elim outcome [
        | integrity_error ↦ failed registration_failed
        | done ↦ elim (project history) [
          | none ↦ failed key_error
          | some df ↦ elim (ingest fl lib feature_group df now registered) [
            | Features.raise e ↦ failed (ingest_failed e)
            | Features.ok (counted, ingested) ↦
                monitor_live feature_group (length history.rows) live db now ingested
          ]
        ]
      ]

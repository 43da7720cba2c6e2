-- ===== src/Monitoring/Monitor/Drift.antt =====
-- The class Monitor of src/ml_platform/monitoring/core/monitor.py: its state, the hot path `log`, the
-- lazy `drift_report` and `update_reference`.
pub mod Laws
pub mod Report
pub mod Open
pub mod Names
pub mod Wide
use ml_monitor.Prelude.{
  ℕ, suc, String, Bool, true, false, ◌&&◌, Option, none, some, List, [], ◌∷◌, map, length, leb,
  select, string_eq, if◌then◌else◌, Floats,
}
use ml_monitor.Prelude.Dict.{Dict, put}
use ml_monitor.Monitoring.Window as Window
use ml_monitor.Monitoring.Window.{WindowManager, LogRecord}
use ml_monitor.Monitoring.Dedup as Dedup
use ml_monitor.Monitoring.Dedup.{Deduplicator}
use ml_monitor.Monitoring.Store as Store
use ml_monitor.Monitoring.Store.{SqliteStore, Json}
use ml_monitor.Monitoring.DataDrift.{
  FeatureDrift, PredictionDrift, Numerics, Frame, Column, column, detect_data_drift,
  detect_prediction_drift, value_error, Checked, ok, raise,
}
use ml_monitor.Monitoring.Concept.Detect as Detect
use ml_monitor.Monitoring.Concept.Detect.{ConceptDrift, Detected, detect_concept_drift}
use ml_monitor.Monitoring.Correlation.{CorrelationDrift, detect_correlation_drift, is_in}
use ml_monitor.Monitoring.Report.{DriftReport, empty_report}
use ml_monitor.Monitoring.Monitor.{DriftConfig, AlertConfig, Message, Effect, fire_alerts}

-- What a caller may pass as `features`: a mapping (a dict or a Series), or an array-like row.
pub data Features (V : Type 0) : Type 0 where
  mapping : Dict String V → Features V
  row : List V → Features V

-- pandas, numpy and Python's formatting, as Monitor calls them.
pub record Pandas (Float V : Type 0) : Type 0 where
  -- `pd.DataFrame(rows)`
  pub frame : List (Dict String V) → Frame V
  -- `np.asarray(values, dtype=float)` succeeds.
  pub is_castable : List V → Bool
  -- `float(v)`; `none` is its ValueError or TypeError.
  pub to_float : V → Option Float
  pub spearmanr : Frame V → String → String → Option Float
  -- `sorted` of a set
  pub sorted_set : List String → List String
  -- `f"f{i}"`
  pub field_name : ℕ → String
  -- A dict as a value.
  pub of_dict : Dict String V → V

module _ (fl : Floats) {V : Type 0} (np : Numerics fl.Float V) (pd : Pandas fl.Float V)
    (json : Json V) (render : Message fl.Float → String) where
  open fl use {Float, ratio, feq}

  pub record Monitor : Type 0 where
    pub reference_data : Option (Frame V)
    pub reference_predictions : Option (List V)
    pub config : DriftConfig Float
    pub alert_config : AlertConfig
    pub window : WindowManager V
    pub store : SqliteStore
    pub deduplicator : Deduplicator
    pub last_report : Option (DriftReport fl np)

  unfoldable pub init :
      Option (Frame V) → Option (List V) → DriftConfig Float → AlertConfig → ℕ → Monitor
  init reference_data reference_predictions config alerts retention_days = record {
    reference_data = reference_data;
    reference_predictions = reference_predictions;
    config = config;
    alert_config = alerts;
    window = Window.init config.window_size;
    store = Store.init retention_days;
    deduplicator = Dedup.init alerts.dedup_cooldown_seconds;
    last_report = none;
  }

  -- `[f"f{i}" for i in range(len(arr))]`, from index `i` on.
  abbrev pub field_names : ℕ → List V → List String
  field_names i [] = []
  field_names i (v ∷ arr) = pd.field_name i ∷ field_names (suc i) arr

  -- `{c: v for c, v in zip(cols, arr)}`
  abbrev pub zip_row : Dict String V → List String → List V → Dict String V
  zip_row d [] arr = d
  zip_row d (c ∷ cols) [] = d
  zip_row d (c ∷ cols) (v ∷ arr) = zip_row (put c v d) cols arr

  unfoldable pub to_features : Option (Frame V) → Features V → Dict String V
  to_features reference_data (mapping features) = features
  to_features none (row arr) = zip_row [] (field_names 0 arr) arr
  to_features (some reference) (row arr) = zip_row [] (map (λ x. x.0) reference) arr

  unfoldable pub log : Features V → V → Option V → ℕ → Monitor → Monitor
  unfolding to_features
  log features prediction label now m =
      let fields = to_features m.reference_data features in
      record m {
        window =
            Window.add m.window (record {
              timestamp = now;
              features = fields;
              prediction = prediction;
              label = label;
            });
        store = (Store.log_prediction json (pd.of_dict fields) prediction label none now m.store).1;
      }

  -- `errors`: 0 where label and prediction are the same number.
  unfoldable pub errors_of : List V → List V → Checked (List ℕ)
  errors_of [] preds = ok []
  errors_of (l ∷ labels) [] = ok []
  errors_of (l ∷ labels) (p ∷ preds) =
      let rest = errors_of labels preds in
      elim (pd.to_float l) [
        | none ↦ raise value_error
        | some x ↦ elim (pd.to_float p) [
          | none ↦ raise value_error
          | some y ↦ elim rest [
            | raise e ↦ raise e
            | ok errors ↦ ok ((if feq x y then 0 else 1) ∷ errors)
          ]
        ]
      ]

  -- `df[cols]`
  unfoldable pub project : List String → Frame V → Frame V
  project [] df = []
  project (c ∷ cols) df =
      let rest = project cols df in elim (column c df) [ none ↦ rest | some v ↦ (c, v) ∷ rest ]

  -- The data and the correlation drift over the columns that both frames have.
  unfoldable pub data_part :
      Monitor
      → Frame V
      → Checked (Dict String (FeatureDrift Float) × Option (CorrelationDrift Float))
  unfolding project
  data_part m current_df = elim m.reference_data [
    | none ↦ ok ([], none)
    | some reference ↦
        let common = select (is_in (map (λ x. x.0) current_df)) (map (λ x. x.0) reference) in
        if leb (length current_df) 0
        then ok ([], none)
        else if leb (length common) 0
        then ok ([], none)
        else elim (detect_data_drift fl np (project common reference) (project common current_df)
            m.config.numerical_method m.config.categorical_method m.config.drift_threshold) [
              | raise e ↦ raise e
              | ok data_drift ↦ ok (
                data_drift,
                some (
                    detect_correlation_drift fl pd.spearmanr pd.sorted_set
                      (project common reference) (project common current_df)
                      m.config.correlation_change_threshold),
              )
            ]
  ]

  abbrev pub as_column : List V → Column V
  as_column values = record { values = values; is_numeric = true; is_bool = false }

  -- A failed conversion to floats leaves None.
  unfoldable pub prediction_part : Monitor → List V → Option (PredictionDrift fl np)
  prediction_part m current = elim m.reference_predictions [
    | none ↦ none
    | some reference ↦
        if leb (length current) 0
        then none
        else if pd.is_castable reference && pd.is_castable current
        then some (
            detect_prediction_drift fl np (as_column reference) (as_column current) 10 (ratio 1 10))
        else none
  ]

  unfoldable pub concept_part : Monitor → Checked (Option (ConceptDrift Float))
  unfolding errors_of
  concept_part m =
      let (labels, preds) = Window.labels_and_predictions m.window in
      if leb (length labels) 0 then ok none else elim (errors_of labels preds) [
        | raise e ↦ raise e
        | ok errors ↦ elim (detect_concept_drift fl errors m.config.concept_drift_method 30) [
          | Detect.raise e ↦ raise value_error
          | Detect.ok drift ↦ ok (some drift)
        ]
      ]

  -- The report, before it is kept and the alerts are raised.
  unfoldable pub compute_report : Monitor → ℕ → Checked (DriftReport fl np)
  unfolding data_part prediction_part concept_part
  compute_report m now = elim (data_part m (pd.frame (Window.feature_rows m.window))) [
    | raise e ↦ raise e
    | ok (data_drift, correlation_drift) ↦ elim (concept_part m) [
      | raise e ↦ raise e
      | ok concept_drift ↦ ok (record {
        generated_at = now;
        data_drift = data_drift;
        prediction_drift = prediction_part m (Window.predictions m.window);
        concept_drift = concept_drift;
        correlation_drift = correlation_drift;
        n_samples = Window.size m.window;
      })
    ]
  ]

  -- The report, the alerts' effects and the monitor after it. An exception leaves no trace.
  unfoldable pub drift_report :
      Monitor → ℕ → Checked (DriftReport fl np × List (Effect Float) × Monitor)
  unfolding compute_report
  drift_report m now =
      if leb (Window.size m.window) 0
      then (let report = empty_report fl np now 0 in
          ok (report, [], record m { last_report = some report }))
      else elim (compute_report m now) [
        | raise e ↦ raise e
        | ok report ↦
            let f = fire_alerts fl np render m.alert_config now report m.deduplicator m.store in
            ok (
              report,
              f.effects,
              record m {
                last_report = some report;
                deduplicator = f.deduplicator;
                store = f.store;
              },
            )
      ]

  unfoldable pub update_reference : Frame V → Option (List V) → Monitor → Monitor
  update_reference reference_data none m = record m { reference_data = some reference_data }
  update_reference reference_data (some predictions) m = record m {
    reference_data = some reference_data;
    reference_predictions = some predictions;
  }

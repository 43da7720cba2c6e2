-- ===== src/Monitoring/Monitor.antt =====
-- src/ml_platform/monitoring/core/monitor.py with alerts/logger.py, alerts/webhook.py and
-- alerts/slack.py: the hot path, the drift report and the alerts. What leaves the process is a list of
-- effects. An f-string is the data it is filled with, turned into text by an argument; the frames and
-- the numbers of pandas are arguments too. Times are seconds of the clock.
pub mod Laws
pub mod Cooldown
pub mod Drift
mod Tests
use ml_monitor.Prelude.{
  ℕ, String, Bool, true, false, not, ◌&&◌, Option, none, some, List, [], ◌∷◌, ◌++◌, map, length,
  leb, ltb, select, ◌==◌, string_eq, if◌then◌else◌, Floats,
}
use ml_monitor.Prelude.Dict.{Dict}
use ml_monitor.Monitoring.Window as Window
use ml_monitor.Monitoring.Window.{WindowManager, LogRecord}
use ml_monitor.Monitoring.Dedup as Dedup
use ml_monitor.Monitoring.Dedup.{Deduplicator, should_alert}
use ml_monitor.Monitoring.Store as Store
use ml_monitor.Monitoring.Store.{SqliteStore, Json}
use ml_monitor.Monitoring.DataDrift.{
  Severity, info, warning, critical, FeatureDrift, PredictionDrift, Numerics, Frame, Column, column,
  detect_data_drift, detect_prediction_drift, Checked, ok, raise,
}
use ml_monitor.Monitoring.Concept.Detect as Detect
use ml_monitor.Monitoring.Concept.Detect.{ConceptDrift}
use ml_monitor.Monitoring.Correlation.{detect_correlation_drift, is_in}
use ml_monitor.Monitoring.Report.{DriftReport, empty_report}

abbrev pub severity_text : Severity → String
severity_text info = "INFO"
severity_text warning = "WARNING"
severity_text critical = "CRITICAL"

-- `_SEVERITY_RANK`
abbrev pub rank : Severity → ℕ
rank info = 1
rank warning = 2
rank critical = 3

-- `_SEVERITY_RANK.get(severity_threshold, 2)`
unfoldable pub threshold_rank : String → ℕ
threshold_rank name =
    if name == "INFO"
    then 1
    else if name == "WARNING"
    then 2
    else if name == "CRITICAL"
    then 3
    else 2

pub record DriftConfig (Float : Type 0) : Type 0 where
  pub numerical_method : String
  pub categorical_method : String
  pub drift_threshold : Float
  pub window_size : ℕ
  pub concept_drift_method : String
  pub correlation_change_threshold : Float

pub record AlertConfig : Type 0 where
  pub email : Option String
  pub webhook_url : Option String
  pub slack_webhook_url : Option String
  pub severity_threshold : String
  pub dedup_cooldown_seconds : ℕ

-- The three f-strings of `_fire_alerts`.
pub data Message (Float : Type 0) : Type 0 where
  data_drift_message : String → Float → Severity → Message Float
  prediction_drift_message : Float → Message Float
  concept_drift_message : String → Option Float → Option Float → Message Float

-- An element of `due`.
pub record Due (Float : Type 0) : Type 0 where
  pub feature : String
  pub severity : Severity
  pub drift_score : Float

pub data Effect (Float : Type 0) : Type 0 where
  log_alert : Severity → Message Float → String → Option String → Effect Float
  send_webhook send_slack_alert : String → List (Due Float) → Effect Float

-- `if url:`, for an optional string
abbrev pub truthy : Option String → Option String
truthy none = none
truthy (some url) = if url == "" then none else some url

module _ (fl : Floats) {V : Type 0} (np : Numerics fl.Float V) where
  open fl use {Float, ratio, feq}

  -- What `_fire_alerts` works on: the deduplicator, the store, `due` and the effects so far.
  pub record Firing : Type 0 where
    pub deduplicator : Deduplicator
    pub store : SqliteStore
    pub due : List (Due Float)
    pub effects : List (Effect Float)

  module _ (render : Message Float → String) where
    -- `log_alert(...)`, `self.store.log_alert(...)` and `due.append(...)`.
    abbrev pub raise_alert :
        Severity → Message Float → String → Option String → Due Float → ℕ → Firing → Firing
    raise_alert severity message drift_type feature entry now f = record f {
      store =
          (Store.log_alert (severity_text severity) (render message) drift_type feature now
            f.store).1;
      due = f.due ++ entry ∷ [];
      effects = f.effects ++ log_alert severity message drift_type feature ∷ [];
    }

    -- `if not self.deduplicator.should_alert(...)`, else the alert.
    unfoldable pub alert_once :
        Severity → Message Float → String → Option String → Due Float → ℕ → Firing → Firing
    alert_once severity message drift_type feature entry now f =
        let (fires, d) = should_alert drift_type feature now f.deduplicator in
        let f' : Firing = record f { deduplicator = d } in
        if fires then raise_alert severity message drift_type feature entry now f' else f'

    -- The body of the loop over `report.data_drift`.
    unfoldable pub fire_feature : ℕ → ℕ → String × FeatureDrift Float → Firing → Firing
    unfolding alert_once
    fire_feature minimum now (feature, result) f = elim result.severity [
      | none ↦ f
      | some severity ↦
          if not result.is_drifted
          then f
          else if ltb (rank severity) minimum
          then f
          else alert_once severity (data_drift_message feature result.drift_score severity)
              "data_drift" (some feature)
              (record { feature = feature; severity = severity; drift_score = result.drift_score })
              now f
    ]

    unfoldable pub fire_features : ℕ → ℕ → Dict String (FeatureDrift Float) → Firing → Firing
    unfolding fire_feature
    fire_features minimum now [] f = f
    fire_features minimum now (x ∷ data_drift) f =
        fire_features minimum now data_drift (fire_feature minimum now x f)

    unfoldable pub fire_prediction : ℕ → ℕ → Option (PredictionDrift fl np) → Firing → Firing
    unfolding alert_once
    fire_prediction minimum now none f = f
    fire_prediction minimum now (some drift) f =
        if drift.is_drifted
        then (let severity : Severity = elim drift.severity [ none ↦ warning | some s ↦ s ] in
            if leb minimum (rank severity)
            then alert_once severity (prediction_drift_message drift.drift_score) "prediction_drift"
                none
                (record {
                  feature = "__prediction__";
                  severity = severity;
                  drift_score = drift.drift_score;
                })
                now f
            else f)
        else f

    unfoldable pub fire_concept : ℕ → Option (ConceptDrift Float) → Firing → Firing
    unfolding alert_once
    fire_concept now none f = f
    fire_concept now (some drift) f =
        if drift.drift_detected
        then alert_once critical
            (concept_drift_message drift.method drift.baseline_error_rate drift.current_error_rate)
            "concept_drift" none
            (record { feature = "__concept__"; severity = critical; drift_score = ratio 1 1 }) now f
        else f

    -- `if url: send(url, due)`
    unfoldable pub post :
        Option String
        → (String → List (Due Float) → Effect Float)
        → List (Due Float)
        → List (Effect Float)
    post url send due = elim (truthy url) [ none ↦ [] | some u ↦ send u due ∷ [] ]

    -- The end of `_fire_alerts`: the webhooks, if anything is due.
    unfoldable pub deliver : AlertConfig → List (Due Float) → List (Effect Float)
    unfolding post
    deliver config [] = []
    deliver config (d ∷ due) =
        post config.webhook_url send_webhook (d ∷ due)
        ++ post config.slack_webhook_url send_slack_alert (d ∷ due)

    unfoldable pub fire_alerts :
        AlertConfig → ℕ → DriftReport fl np → Deduplicator → SqliteStore → Firing
    unfolding fire_features fire_prediction fire_concept deliver threshold_rank
    fire_alerts config now report deduplicator store =
        let minimum : ℕ = threshold_rank config.severity_threshold in
        let f0 : Firing = record {
          deduplicator = deduplicator;
          store = store;
          due = [];
          effects = [];
        } in
        let f1 : Firing = fire_features minimum now report.data_drift f0 in
        let f2 : Firing = fire_prediction minimum now report.prediction_drift f1 in
        let f3 : Firing = fire_concept now report.concept_drift f2 in
        record f3 { effects = f3.effects ++ deliver config f3.due }

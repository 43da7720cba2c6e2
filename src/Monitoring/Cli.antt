-- ===== src/Monitoring/Cli.antt =====
-- src/ml_platform/monitoring/cli.py: the commands `report` and `status`. A command's files and printed
-- lines are its output; the CSV reader and the dispatch on the type of stored features are arguments.
pub mod Laws
mod Tests
use ml_monitor.Prelude.{
  ℕ, String, Option, none, some, List, map, length, string_eq, ◌==◌, if◌then◌else◌, Floats,
}
use ml_monitor.Monitoring.DataDrift as DataDrift
use ml_monitor.Monitoring.DataDrift.{Frame, Numerics, DriftError}
use ml_monitor.Monitoring.Report.{DriftReport, ReportDict, to_dict}
use ml_monitor.Monitoring.Store as Store
use ml_monitor.Monitoring.Store.{
  Json, SqliteStore, Prediction, PredictionRow, AlertRow, recent_predictions, recent_alerts,
}
use ml_monitor.Monitoring.Monitor.{Message, Effect}
use ml_monitor.Monitoring.Monitor.Drift.{Features, Pandas, Monitor, drift_report}
use ml_monitor.Monitoring.Monitor.Drift.Laws.{Call, log_all}
use ml_monitor.Monitoring.Monitor.Drift.Open.{open_monitor}

-- The lines of `status`: the number of predictions, and the recent alerts.
pub record Status : Type 0 where
  pub total_predictions : ℕ
  pub recent : List AlertRow

unfoldable pub status : (List AlertRow → List AlertRow) → SqliteStore → Status
status alerts_desc db = record {
  total_predictions = Store.count db;
  recent = recent_alerts alerts_desc 10 none db;
}

module _ (fl : Floats) {V : Type 0} (np : Numerics fl.Float V) (pd : Pandas fl.Float V)
    (json : Json V) (render : Message fl.Float → String) (features_of : V → Features V)
    (predictions_desc : List PredictionRow → List PredictionRow) where
  -- The file at `output`.
  pub data ReportFile : Type 0 where
    html_file : String → DriftReport fl np → ReportFile
    json_file : String → ReportDict fl np → ReportFile

  -- The call of `log` for a stored row.
  abbrev pub call_of : ℕ → Prediction V → Call V
  call_of now row = record {
    features = features_of row.features;
    prediction = row.prediction;
    label = row.label;
    now = now;
  }

  -- The monitor after the loop over the stored rows; all calls come at one time.
  unfoldable pub rehydrate : Frame V → SqliteStore → ℕ → Monitor fl np pd json render
  rehydrate reference db now =
      let monitor = open_monitor fl np pd json render (some reference) none none none db in
      let rows =
        recent_predictions json predictions_desc monitor.config.window_size none monitor.store in
      log_all fl np pd json render (map (call_of now) rows) monitor

  -- The file, the effects of alerts and the monitor, whose store is the database after the command.
  unfoldable pub report :
      Frame V
      → String
      → String
      → SqliteStore
      → ℕ
      → DataDrift.Checked (ReportFile × List (Effect fl.Float) × Monitor fl np pd json render)
  unfolding rehydrate
  report reference fmt output db now =
      elim (drift_report fl np pd json render (rehydrate reference db now) now) [
        | DataDrift.raise e ↦ DataDrift.raise e
        | DataDrift.ok (rep, effects, m) ↦ DataDrift.ok (
          if fmt == "html" then html_file output rep else json_file output (to_dict fl np rep),
          effects,
          m,
        )
      ]

-- ===== src/Monitoring/Cli/Laws.antt =====
-- What the command `report` leaves in the database that it reads.
use ml_monitor.Prelude.{ℕ, String, List, string_eq, Floats}
use ml_monitor.Monitoring.DataDrift as DataDrift
use ml_monitor.Monitoring.DataDrift.{Numerics}
use ml_monitor.Monitoring.Store.{Json, PredictionRow}
use ml_monitor.Monitoring.Window as Window
use ml_monitor.Monitoring.Monitor.{Message}
use ml_monitor.Monitoring.Monitor.Drift.{Features, Pandas, Monitor}
use ml_monitor.Monitoring.Cli.{ReportFile, html_file, json_file}

module _ (fl : Floats) {V : Type 0} (np : Numerics fl.Float V) (pd : Pandas fl.Float V)
    (json : Json V) (render : Message fl.Float → String) (features_of : V → Features V)
    (predictions_desc : List PredictionRow → List PredictionRow) where
  -- The number of samples that a written report counts.
  abbrev pub samples : ReportFile fl np pd json render features_of predictions_desc → ℕ
  samples (html_file output rep) = rep.n_samples
  samples (json_file output d) = d.n_samples

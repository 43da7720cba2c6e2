-- ===== src/Monitoring/Cli/Tests.antt =====
-- The theorem on the command `report`, applied to concrete values.
use ml_monitor.Prelude.{ℕ, none, List, [], ◌∷◌}
use ml_monitor.Samples.Fixed.{Fixed, fixed}
use ml_monitor.Samples.Numbers.{numerics, column_of}
use ml_monitor.Samples.Platform.{pandas, text_json, render}
use ml_monitor.Monitoring.DataDrift.{Checked, ok, raise, Frame}
use ml_monitor.Monitoring.Store as Store
use ml_monitor.Monitoring.Store.{SqliteStore, PredictionRow, recent_predictions}
use ml_monitor.Monitoring.Window as Window
use ml_monitor.Monitoring.Monitor.{Effect}
use ml_monitor.Monitoring.Monitor.Drift as Drift
use ml_monitor.Monitoring.Monitor.Drift.{Monitor, Features, row}
use ml_monitor.Monitoring.Monitor.Drift.Laws.{log_all}
use ml_monitor.Monitoring.Monitor.Drift.Open.{open_monitor}
use ml_monitor.Monitoring.Cli.{ReportFile, report}

abbrev features_of : ℕ → Features ℕ
features_of v = row (v ∷ [])

abbrev db : SqliteStore
db = record (Store.init 30) {
  predictions =
      record {
        id = 1;
        timestamp = 5;
        features = "0";
        prediction = "0";
        label = none;
        drift_scores = none;
      }
      ∷ [];
  next_prediction = 2;
}

abbrev reference : Frame ℕ
reference = ("age", column_of (1 ∷ [])) ∷ []

abbrev Output : Type 0
Output =
    ReportFile fixed numerics pandas text_json render features_of (λ rows. rows)
    × List (Effect Fixed)
    × Monitor fixed numerics pandas text_json render

abbrev run : Checked Output
run =
    report fixed numerics pandas text_json render features_of (λ rows. rows) reference "html" "out"
      db 9

abbrev IsOk : {A : Type 0} → Checked A → Type 0
IsOk (ok a) = Unit
IsOk (raise e) = ⊥

abbrev value_of : {A : Type 0} (r : Checked A) → IsOk r → A
value_of (ok a) h = a
value_of (raise e) h = absurd h

run-IsOk : IsOk run
unfolding report Drift.drift_report Window.size log_all recent_predictions open_monitor Drift.init
    Drift.log Window.add Window.init Window.labels_and_predictions
run-IsOk = tt

output : Output
output = value_of run run-IsOk

-- ===== src/Fraud/Backend/Tests.antt =====
-- The theorem on the second backend, applied to concrete values.
use ml_monitor.Prelude.{ℕ, ◌≡◌, refl, true, List, [], ◌∷◌, map, length, select, All}
use ml_monitor.Samples.Fixed.{Fixed, fixed}
use ml_monitor.Samples.Numbers.{numerics, column_of}
use ml_monitor.Samples.Platform.{pandas, text_json, render}
use ml_monitor.Monitoring.DataDrift.{
  Frame, detect_data_drift, detect_feature_drift, is_categorical, run_test,
}
use ml_monitor.Monitoring.Report.{ReportDict, drifted}
use ml_monitor.Monitoring.Monitor.{Effect}
use ml_monitor.Monitoring.Window as Window
use ml_monitor.Monitoring.Monitor.Drift as Drift
use ml_monitor.Monitoring.Monitor.Drift.Laws.{log_all}
use ml_monitor.Monitoring.Monitor.Drift.Open.{open_monitor}
use ml_monitor.Fraud.Backend.{Backend, written, key_error, drift_failed, CurrentRow, run_once}
use ml_monitor.Fraud.Backend.Laws.{is_monitored, run_once-n_samples}

abbrev IsWritten : {A : Type 0} → Backend A → Type 0
IsWritten (written a) = Unit
IsWritten key_error = ⊥
IsWritten (drift_failed e) = ⊥

abbrev value_of : {A : Type 0} (b : Backend A) → IsWritten b → A
value_of (written a) h = a
value_of key_error h = absurd h
value_of (drift_failed e) h = absurd h

value_of_lem : {A : Type 0} (b : Backend A) (h : IsWritten b) → b ≡ written (value_of b h)
value_of_lem (written a) h = refl
value_of_lem key_error h = absurd h
value_of_lem (drift_failed e) h = absurd h

abbrev reference : Frame ℕ
reference =
    ("amount", column_of (1 ∷ 2 ∷ []))
    ∷ ("is_fraud", column_of (0 ∷ 1 ∷ []))
    ∷ ("fraud_score", column_of (0 ∷ 1 ∷ []))
    ∷ []

abbrev current : List (CurrentRow ℕ)
current =
    record { amount = 9; is_fraud = 0; fraud_score = 0 }
    ∷ record { amount = 8; is_fraud = 1; fraud_score = 1 }
    ∷ []

abbrev run : Backend (ReportDict fixed numerics × List (Effect Fixed))
run = run_once fixed numerics pandas text_json render reference current 7

run-IsWritten : IsWritten run
unfolding run_once Drift.drift_report Window.size log_all Drift.log Window.add Window.init
    open_monitor Drift.init detect_data_drift Window.feature_rows detect_feature_drift run_test
    is_categorical Window.labels_and_predictions
run-IsWritten = tt

outcome : ReportDict fixed numerics × List (Effect Fixed)
outcome = value_of run run-IsWritten

run-outcome : run ≡ written (outcome.0, outcome.1)
unfolding outcome
run-outcome = value_of_lem run run-IsWritten

run_once-n_samples_example :
    (outcome.0.n_samples ≡ length current)
    × All (λ f. is_monitored f ≡ true) (map (λ x. x.0) outcome.0.data_drift)
    × (outcome.0.n_drifted_features ≡ length (select (drifted fixed numerics) outcome.0.data_drift))
run_once-n_samples_example =
    run_once-n_samples fixed numerics pandas text_json render reference current 7 outcome.0
      outcome.1 run-outcome

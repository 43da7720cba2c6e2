-- ===== src/Pipeline/Tests.antt =====
-- The theorems on the pipeline, each applied to concrete values.
use ml_monitor.Prelude.{ℕ, suc, ◌+◌, ◌≡◌, refl, true, some, String, List, [], ◌∷◌, All, length, ltb}
use ml_monitor.Prelude.Dict.{Dict, get, put}
use ml_monitor.Samples.Fixed.{fixed}
use ml_monitor.Samples.Numbers.{numerics}
use ml_monitor.Samples.Platform.{
  library, column_of_cells, pandas, text_json, render, fraud_row, history_row, empty_store,
}
use ml_monitor.Features.Frame.{Frame, is_in}
use ml_monitor.Fraud.Features.{feature_names}
use ml_monitor.Monitoring.Store as Store
use ml_monitor.Monitoring.Report.{drifted_features}
use ml_monitor.Pipeline.{
  Casts, Run, returned, failed, Finished, ingest_cols, run_reference_pipeline,
}
use ml_monitor.Features.Registry.{
  register_entity, register_feature_group, get_feature_group, log_ingestion,
}
use ml_monitor.Features.Schema.{validate_schema, check_quality}
use ml_monitor.Features.Store.{register, ingest}
use ml_monitor.Monitoring.DataDrift.{
  detect_data_drift, detect_feature_drift, is_categorical, run_test, ks_test,
}
use ml_monitor.Monitoring.Window as Window
use ml_monitor.Monitoring.Monitor.Drift as Drift
use ml_monitor.Monitoring.Monitor.Drift.Laws.{log_all}
use ml_monitor.Monitoring.Monitor.Drift.Open.{open_monitor}
use ml_monitor.Pipeline.Reference.{monitor_from_feature_store}
use ml_monitor.Pipeline.Laws.{run_reference_pipeline_lem}

abbrev IsReturned : {A : Type 0} → Run A → Type 0
IsReturned (returned a) = Unit
IsReturned (failed e) = ⊥

abbrev value_of : {A : Type 0} (r : Run A) → IsReturned r → A
value_of (returned a) h = a
value_of (failed e) h = absurd h

value_of_lem : {A : Type 0} (r : Run A) (h : IsReturned r) → r ≡ returned (value_of r h)
value_of_lem (returned a) h = refl
value_of_lem (failed e) h = absurd h

abbrev casts : Casts ℕ
casts = record { to_float = λ v. some v; zero = 0 }

abbrev history : Frame ℕ
history = record { columns = ingest_cols; rows = history_row "u1" 1 ∷ history_row "u2" 2 ∷ [] }

abbrev live : List (ℕ × Dict String ℕ)
live = (5, fraud_row 7) ∷ (6, ("fraud_score", 1) ∷ fraud_row 8) ∷ []

abbrev run : Run (Finished fixed library column_of_cells numerics pandas text_json render casts)
run =
    run_reference_pipeline fixed library column_of_cells numerics pandas text_json render casts
      history live "users" (Store.init 30) 9 empty_store

run-IsReturned : IsReturned run
unfolding run_reference_pipeline register register_feature_group register_entity ingest
    get_feature_group get put validate_schema check_quality monitor_from_feature_store log_ingestion
    Drift.drift_report Window.size log_all Drift.log Window.add Window.feature_rows
    detect_data_drift detect_feature_drift Window.labels_and_predictions is_categorical run_test
    Window.init open_monitor Drift.init ks_test
run-IsReturned = tt

finished : Finished fixed library column_of_cells numerics pandas text_json render casts
finished = value_of run run-IsReturned

run-finished : run ≡ returned finished
unfolding finished
run-finished = value_of_lem run run-IsReturned

run_reference_pipeline_lem_example :
    (finished.result.report.n_samples ≡ length live)
    × (finished.result.live_rows ≡ length live)
    × (finished.result.reference_rows ≡ length history.rows)
    × (finished.result.drift_detected
        ≡ ltb 0 (length (drifted_features fixed numerics finished.result.report)))
    × All
        (λ x. is_in feature_names x ≡ true)
        (drifted_features fixed numerics finished.result.report)
    × (finished.monitor.last_report ≡ some finished.result.report)
    × (length finished.monitor.store.predictions ≡ length (Store.init 30).predictions + length live)
    × (length finished.features.registry.ingestion_log
        ≡ suc (length empty_store.registry.ingestion_log))
run_reference_pipeline_lem_example =
    run_reference_pipeline_lem fixed library column_of_cells numerics pandas text_json render casts
      history live "users" (Store.init 30) 9 empty_store finished (λ P fs h. h) refl refl
      run-finished

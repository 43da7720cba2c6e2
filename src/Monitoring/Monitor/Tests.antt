-- ===== src/Monitoring/Monitor/Tests.antt =====
-- The theorems on the class Monitor and its alerts, each applied to concrete values.
use ml_monitor.Prelude.{
  ℕ, ◌≡◌, refl, true, none, some, List, [], ◌∷◌, arith, map, length, min, take_last, string_eq,
  nat_eq, pair_eq,
}
use ml_monitor.Samples.Fixed.{Fixed, fixed, fixed_ratio}
use ml_monitor.Samples.Numbers.{numerics}
use ml_monitor.Monitoring.Window as Window
use ml_monitor.Monitoring.Dedup as Dedup
use ml_monitor.Monitoring.Dedup.{Key, Deduplicator}
use ml_monitor.Monitoring.Report.{DriftReport, empty_report}
use ml_monitor.Monitoring.Store as Store
use ml_monitor.Monitoring.Store.{
  Json, SqliteStore, PredictionRow, AlertRow, recent_predictions, purge_old, count, is_expired,
}
use ml_monitor.Monitoring.Monitor.{DriftConfig, fire_alerts}
use ml_monitor.Monitoring.Monitor.Drift as Drift
use ml_monitor.Monitoring.Monitor.Drift.{Pandas, mapping, row}
use ml_monitor.Monitoring.Monitor.Drift.Laws as HotPath
use ml_monitor.Monitoring.Monitor.Drift.Laws.{Call, record_of, log_all-init}
use ml_monitor.Monitoring.Monitor.Cooldown.Reports.{fire_alerts-fire_alerts}
use ml_monitor.Samples.Drift.{frame, report, alerts, render}
use ml_monitor.Monitoring.Monitor.Drift.Report.{drift_report-log_all}

fire_alerts-fire_alerts_example :
    let f = fire_alerts fixed numerics render alerts 9 report (Dedup.init 3600) (Store.init 30) in
    fire_alerts fixed numerics render alerts 100 report f.deduplicator (Store.init 30)
    ≡ record { deduplicator = f.deduplicator; store = Store.init 30; due = []; effects = [] }
fire_alerts-fire_alerts_example =
    fire_alerts-fire_alerts fixed numerics render 9 3600 (omega arith) alerts 100 report
      (Store.init 30) (Store.init 30) (omega arith)

abbrev pandas : Pandas Fixed ℕ
pandas = record {
  frame = λ rows. [];
  is_castable = λ values. true;
  to_float = λ v. some (fixed_ratio v 1);
  spearmanr = λ df a b. none;
  sorted_set = λ xs. xs;
  field_name = λ i. "f";
  of_dict = λ d. 0;
}

abbrev text_json : Json ℕ
text_json = record { dumps = λ v. "0"; loads = λ text. 0 }

abbrev config : DriftConfig Fixed
config = record {
  numerical_method = "ks";
  categorical_method = "chi2";
  drift_threshold = fixed_ratio 1 20;
  window_size = 1;
  concept_drift_method = "ddm";
  correlation_change_threshold = fixed_ratio 3 10;
}

abbrev calls : List (Call ℕ)
calls =
    record { features = row (2 ∷ []); prediction = 0; label = some 1; now = 3 }
    ∷ record { features = mapping (("a", 1) ∷ []); prediction = 1; label = none; now = 4 }
    ∷ []

log_all-init_example :
    let start =
      Drift.init fixed numerics pandas text_json render (some frame) none config alerts 30 in
    let m = HotPath.log_all fixed numerics pandas text_json render calls start in
    (m.window.records
      ≡ take_last 1 (map (record_of fixed numerics pandas text_json render (some frame)) calls))
    × (count m.store ≡ length calls)
    × (m.store.alerts ≡ [])
    × (m.last_report ≡ none)
    × (m.deduplicator ≡ start.deduplicator)
log_all-init_example =
    log_all-init fixed numerics pandas text_json render (some frame) none config alerts 30 calls

drift_report-log_all_example :
    let start =
      Drift.init fixed numerics pandas text_json render (some frame) none config alerts 30 in
    let m = HotPath.log_all fixed numerics pandas text_json render calls start in
    let quiet : DriftReport fixed numerics = empty_report fixed numerics 5 1 in
    (quiet.n_samples ≡ min config.window_size (length calls))
    × (some quiet ≡ some quiet)
    × (m.window.records
        ≡ take_last 1 (map (record_of fixed numerics pandas text_json render (some frame)) calls))
    × (count m.store ≡ length calls)
unfolding Drift.drift_report Window.size HotPath.log_all Drift.log Window.add Drift.init Window.init
    Window.labels_and_predictions fire_alerts Store.log_prediction
drift_report-log_all_example =
    let start =
      Drift.init fixed numerics pandas text_json render (some frame) none config alerts 30 in
    let m = HotPath.log_all fixed numerics pandas text_json render calls start in
    let quiet : DriftReport fixed numerics = empty_report fixed numerics 5 1 in
    drift_report-log_all fixed numerics pandas text_json render (some frame) none config alerts 30
      calls 5 quiet [] (record m { last_report = some quiet }) refl

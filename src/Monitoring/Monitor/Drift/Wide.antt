-- ===== src/Monitoring/Monitor/Drift/Wide.antt =====
-- `drift_report` of the class Monitor after calls of `log` that its window can hold.
use ml_monitor.Prelude.{
  ℕ, ◌+◌, ◌≤◌, ◌≡◌, ap, ◌∙◌, String, some, List, map, length, length-map, take_last,
  take_last_of_length-le, arith, string_eq, Floats,
}
use ml_monitor.Monitoring.DataDrift.{Numerics, ok}
use ml_monitor.Monitoring.Window as Window
use ml_monitor.Monitoring.Window.{WindowManager}
use ml_monitor.Monitoring.Window.Laws.{add_all, add_all-init}
use ml_monitor.Monitoring.Report.{DriftReport}
use ml_monitor.Monitoring.Store.{Json}
use ml_monitor.Monitoring.Monitor.{Message, Effect}
use ml_monitor.Monitoring.Monitor.Drift.{Pandas, Monitor, drift_report}
use ml_monitor.Monitoring.Monitor.Drift.Laws.{Call, log_all, log_all_lem, record_of}
use ml_monitor.Monitoring.Monitor.Drift.Report.{drift_report_lem}

module _ (fl : Floats) {V : Type 0} (np : Numerics fl.Float V) (pd : Pandas fl.Float V)
    (json : Json V) (render : Message fl.Float → String) where
  -- Calls on a monitor with an empty window that is wide enough, and a report.
  pub drift_report-wide :
      (m m' : Monitor fl np pd json render) (calls : List (Call V)) (now n : ℕ)
      (report : DriftReport fl np) (effects : List (Effect fl.Float))
      → m.window ≡ Window.init n
      → length calls ≤ n
      → drift_report fl np pd json render (log_all fl np pd json render calls m) now
        ≡ ok (report, effects, m')
      → (report.n_samples ≡ length calls)
        × (m'.last_report ≡ some report)
        × (length m'.store.predictions ≡ length m.store.predictions + length calls)
  unfolding Window.size
  drift_report-wide m m' calls now n report effects fresh wide h =
      let (window, stored, no_alerts, dedup, last, same) =
        log_all_lem fl np pd json render calls m in
      let (samples, window', log', kept) =
        drift_report_lem fl np pd json render (log_all fl np pd json render calls m) m' now report
          effects h in
      let records = map (record_of fl np pd json render m.reference_data) calls in
      let all_of_them : take_last n records ≡ records =
        take_last_of_length-le n records
          (omega (arith, length-map (record_of fl np pd json render m.reference_data) calls)) in
      (
        samples
            ∙ ap (λ (w : WindowManager V). length w.records) window
            ∙ ap (λ w. length (add_all records w).records) fresh
            ∙ ap length ((add_all-init n records).0 ∙ all_of_them)
            ∙ length-map (record_of fl np pd json render m.reference_data) calls,
        kept,
        ap length log' ∙ stored,
      )

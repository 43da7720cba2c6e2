-- ===== src/Monitoring/Monitor/Drift/Report.antt =====
-- `drift_report` of the class Monitor, after any sequence of calls of `log`.
use ml_monitor.Prelude.{
  ℕ, min, ◌≡◌, refl, ap, ◌∙◌, ◌⊎◌, ◌-◌, String, Option, some, List, map, length, length-map,
  length-drop, take_last, leb, arith, Bool-cases, inl, inr, Floats,
}
use ml_monitor.Monitoring.Window as Window
use ml_monitor.Monitoring.Window.{WindowManager}
use ml_monitor.Monitoring.Store.{Json, count}
use ml_monitor.Monitoring.DataDrift.{Numerics, Frame, Checked, DriftError, ok, raise}
use ml_monitor.Monitoring.Report.{DriftReport}
use ml_monitor.Monitoring.Monitor.{DriftConfig, AlertConfig, Message, Effect}
use ml_monitor.Monitoring.Monitor.Laws.{fire_alerts-IsBalanced}
use ml_monitor.Monitoring.Monitor.Drift.{Pandas, Monitor, init, drift_report, compute_report}
use ml_monitor.Monitoring.Monitor.Drift.Laws.{Call, log_all, record_of, log_all-init}

pub Checked-cases :
    {A : Type 0} (t : Checked A) → ((e : DriftError) × (t ≡ raise e)) ⊎ ((a : A) × (t ≡ ok a))
Checked-cases (ok a) = inr (a, refl)
Checked-cases (raise e) = inl (e, refl)

module _ (fl : Floats) {V : Type 0} (np : Numerics fl.Float V) (pd : Pandas fl.Float V)
    (json : Json V) (render : Message fl.Float → String) where
  open fl use {Float}

  compute_report-n_samples :
      (m : Monitor fl np pd json render) (now : ℕ) (report : DriftReport fl np)
      → compute_report fl np pd json render m now ≡ ok report
      → report.n_samples ≡ Window.size m.window
  unfolding compute_report
  compute_report-n_samples m now report h = ground (arith, h)

  pub drift_report_lem :
      (m m' : Monitor fl np pd json render) (now : ℕ) (report : DriftReport fl np)
      (effects : List (Effect Float))
      → drift_report fl np pd json render m now ≡ ok (report, effects, m')
      → (report.n_samples ≡ Window.size m.window)
        × (m'.window ≡ m.window)
        × (m'.store.predictions ≡ m.store.predictions)
        × (m'.last_report ≡ some report)
  unfolding drift_report
  drift_report_lem m m' now report effects h = elim (Bool-cases (leb (Window.size m.window) 0)) [
    | inl empty ↦ ground (arith, empty, h)
    | inr some_rows ↦ elim (Checked-cases (compute_report fl np pd json render m now)) [
      | inl (e, failed) ↦ absurd (ground (arith, some_rows, failed, h))
      | inr (r, made) ↦
          let kept =
            fire_alerts-IsBalanced fl np render m.alert_config now r m.deduplicator m.store in
          ground (arith, some_rows, made, h, compute_report-n_samples m now r made, kept.2)
    ]
  ]

  -- A report that is returned after any calls of `log` on a new monitor counts as many samples as were
  -- logged, but no more than the window size; it is kept as the last report; and to compute it changes
  -- neither the window nor the prediction log, which still has one row for each call.
  pub drift_report-log_all :
      (reference : Option (Frame V)) (predictions : Option (List V)) (config : DriftConfig Float)
      (alerts : AlertConfig) (days : ℕ) (calls : List (Call V)) (now : ℕ)
      (report : DriftReport fl np) (effects : List (Effect Float))
      (m' : Monitor fl np pd json render)
      → drift_report fl np pd json render
          (log_all fl np pd json render calls
            (init fl np pd json render reference predictions config alerts days))
          now
        ≡ ok (report, effects, m')
      → (report.n_samples ≡ min config.window_size (length calls))
        × (m'.last_report ≡ some report)
        × (m'.window.records
            ≡ take_last config.window_size (map (record_of fl np pd json render reference) calls))
        × (count m'.store ≡ length calls)
  unfolding count Window.size
  drift_report-log_all reference predictions config alerts days calls now report effects m' done =
      let start : Monitor fl np pd json render =
        init fl np pd json render reference predictions config alerts days in
      let m : Monitor fl np pd json render = log_all fl np pd json render calls start in
      let (window, stored, no_alerts, no_report, dedup) =
        log_all-init fl np pd json render reference predictions config alerts days calls in
      let (samples, same_window, same_log, last) = drift_report_lem m m' now report effects done in
      let all : List (Window.LogRecord V) = map (record_of fl np pd json render reference) calls in
      let size : length (take_last config.window_size all) ≡ min config.window_size (length calls) =
        length-drop (length all - config.window_size) all
        ∙ omega (arith, length-map (record_of fl np pd json render reference) calls) in
      (
        samples ∙ ap length window ∙ size,
        last,
        ap (λ (w : WindowManager V). w.records) same_window ∙ window,
        ap length same_log ∙ stored,
      )

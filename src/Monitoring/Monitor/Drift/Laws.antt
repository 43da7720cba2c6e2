-- ===== src/Monitoring/Monitor/Drift/Laws.antt =====
-- The hot path of the class Monitor: what a sequence of calls of `log` leaves.
use ml_monitor.Prelude.{
  ℕ, ◌+◌, ◌≡◌, refl, ap, ◌∙◌, String, Option, none, List, [], ◌∷◌, map, length, length-snoc,
  take_last, arith, Floats,
}
use ml_monitor.Monitoring.Window.{LogRecord, WindowManager}
use ml_monitor.Monitoring.Window.Laws.{add_all, add_all-init}
use ml_monitor.Monitoring.Store as Store
use ml_monitor.Monitoring.Store.{Json, SqliteStore}
use ml_monitor.Monitoring.DataDrift.{Numerics, Frame}
use ml_monitor.Monitoring.Monitor.{DriftConfig, AlertConfig, Message}
use ml_monitor.Monitoring.Monitor.Drift.{Features, Pandas, Monitor, init, to_features, log}

-- The arguments of one call of `log`, and its time.
pub record Call (V : Type 0) : Type 0 where
  pub features : Features V
  pub prediction : V
  pub label : Option V
  pub now : ℕ

module _ (fl : Floats) {V : Type 0} (np : Numerics fl.Float V) (pd : Pandas fl.Float V)
    (json : Json V) (render : Message fl.Float → String) where
  open fl use {Float}

  unfoldable pub log_all :
      List (Call V) → Monitor fl np pd json render → Monitor fl np pd json render
  log_all [] m = m
  log_all (c ∷ calls) m =
      log_all calls (log fl np pd json render c.features c.prediction c.label c.now m)

  -- The record that a call adds to the window.
  abbrev pub record_of : Option (Frame V) → Call V → LogRecord V
  record_of reference c = record {
    timestamp = c.now;
    features = to_features fl np pd json render reference c.features;
    prediction = c.prediction;
    label = c.label;
  }

  pub log_all_lem :
      (calls : List (Call V)) (m : Monitor fl np pd json render)
      → ((log_all calls m).window ≡ add_all (map (record_of m.reference_data) calls) m.window)
        × (length (log_all calls m).store.predictions ≡ length m.store.predictions + length calls)
        × ((log_all calls m).store.alerts ≡ m.store.alerts)
        × ((log_all calls m).deduplicator ≡ m.deduplicator)
        × ((log_all calls m).last_report ≡ m.last_report)
        × ((log_all calls m).reference_data ≡ m.reference_data)
  unfolding log_all log add_all Store.log_prediction
  log_all_lem [] m = (refl, omega arith, refl, refl, refl, refl)
  log_all_lem (c ∷ calls) m =
      let m' : Monitor fl np pd json render =
        log fl np pd json render c.features c.prediction c.label c.now m in
      let (window, stored, alerts, dedup, report, reference) = log_all_lem calls m' in
      (
        window,
        stored ∙ omega (arith, length-snoc m.store.predictions _),
        alerts,
        dedup,
        report,
        reference,
      )

  -- After any calls of `log` on a new monitor, whether they pass mappings or rows, the window holds the
  -- records of the last `window_size` calls, or of all of them, oldest first; the prediction log has one
  -- row for each call; and no alert was stored, no report computed and no cooldown started.
  pub log_all-init :
      (reference : Option (Frame V)) (predictions : Option (List V)) (config : DriftConfig Float)
      (alerts : AlertConfig) (days : ℕ) (calls : List (Call V))
      → let start = init fl np pd json render reference predictions config alerts days in
        let m = log_all calls start in
        (m.window.records ≡ take_last config.window_size (map (record_of reference) calls))
        × (Store.count m.store ≡ length calls)
        × (m.store.alerts ≡ [])
        × (m.last_report ≡ none)
        × (m.deduplicator ≡ start.deduplicator)
  unfolding init Store.init Store.count
  log_all-init reference predictions config alerts days calls =
      let start : Monitor fl np pd json render =
        init fl np pd json render reference predictions config alerts days in
      let (window, stored, no_alerts, dedup, report, same) = log_all_lem calls start in
      (
        ap (λ (w : WindowManager V). w.records) window
            ∙ (add_all-init config.window_size (map (record_of reference) calls)).0,
        stored ∙ omega arith,
        no_alerts,
        report,
        dedup,
      )

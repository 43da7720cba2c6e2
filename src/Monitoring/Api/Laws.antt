-- ===== src/Monitoring/Api/Laws.antt =====
-- What any requests leave of the monitor behind the REST API.
use ml_monitor.Prelude.{
  ℕ, ◌+◌, ◌≤◌, ◌≡◌, refl, ap, ◌∙◌, String, Option, none, some, List, [], ◌∷◌, length, length-snoc,
  min, arith, inl, inr, Floats,
}
use ml_monitor.Monitoring.Window as Window
use ml_monitor.Monitoring.Window.{WindowManager, append_max, tail}
use ml_monitor.Monitoring.DataDrift.{Frame, Numerics}
use ml_monitor.Monitoring.Store as Store
use ml_monitor.Monitoring.Store.{Json, PredictionRow, AlertRow}
use ml_monitor.Monitoring.Monitor.{DriftConfig, AlertConfig, Message}
use ml_monitor.Monitoring.Monitor.Drift.{
  Features, Pandas, Monitor, init, log, drift_report, update_reference,
}
use ml_monitor.Monitoring.Monitor.Drift.Report.{Checked-cases, drift_report_lem}
use ml_monitor.Monitoring.Api.{
  Request, log_request, drift_latest, drift_report_json, drift_history, alerts_history,
  predictions_stats, health, reference_update, stats, serve_report, handle, serve_all,
}

abbrev pub is_log : {V : Type 0} → Request V → ℕ
is_log (log_request features prediction label) = 1
is_log drift_latest = 0
is_log drift_report_json = 0
is_log (drift_history hours) = 0
is_log (alerts_history hours) = 0
is_log predictions_stats = 0
is_log health = 0
is_log (reference_update rows predictions) = 0

-- The number of POST /log among the requests.
abbrev pub logs : {V : Type 0} → List (ℕ × Request V) → ℕ
logs [] = 0
logs ((now, request) ∷ requests) = is_log request + logs requests

length-append_max :
    {A : Type 0} (n : ℕ) (xs : List A) (x : A)
    → length xs ≤ n
    → length (append_max n xs x) ≡ min n (length xs + 1)
unfolding append_max
length-append_max n [] x h = ground arith
length-append_max n (y ∷ ys) x h = ground (arith, length-snoc ys x)

module _ (fl : Floats) {V : Type 0} (np : Numerics fl.Float V) (pd : Pandas fl.Float V)
    (json : Json V) (render : Message fl.Float → String) (numbers_of : V → List fl.Float)
    (predictions_desc : List PredictionRow → List PredictionRow)
    (alerts_desc : List AlertRow → List AlertRow) where
  -- How far `m'` is from `m` after `k` calls of `log`.
  pub record IsAfter (k : ℕ) (m m' : Monitor fl np pd json render) : Type 0 where
    pub stored : length m'.store.predictions ≡ length m.store.predictions + k
    pub same_size : m'.window.window_size ≡ m.window.window_size
    pub windowed : length m'.window.records ≡ min m.window.window_size (length m.window.records + k)

  log-IsAfter :
      (features : Features V) (prediction : V) (label : Option V) (now : ℕ)
      (m : Monitor fl np pd json render)
      → length m.window.records ≤ m.window.window_size
      → IsAfter 1 m (log fl np pd json render features prediction label now m)
  unfolding log Window.add Store.log_prediction
  log-IsAfter features prediction label now m bounded = record {
    stored = length-snoc m.store.predictions _ ∙ omega arith;
    same_size = refl;
    windowed = length-append_max m.window.window_size m.window.records _ bounded;
  }

  unchanged :
      (m m' : Monitor fl np pd json render)
      → length m.window.records ≤ m.window.window_size
      → m'.window ≡ m.window
      → m'.store.predictions ≡ m.store.predictions
      → IsAfter 0 m m'
  unchanged m m' bounded window log' = record {
    stored = ap length log' ∙ omega arith;
    same_size = ap (λ (w : WindowManager V). w.window_size) window;
    windowed = ap (λ (w : WindowManager V). length w.records) window ∙ ground arith;
  }

  serve_report-IsAfter :
      (now : ℕ) (m : Monitor fl np pd json render)
      → length m.window.records ≤ m.window.window_size
      → IsAfter 0 m
          (serve_report fl np pd json render numbers_of predictions_desc alerts_desc now m).2
  unfolding serve_report
  serve_report-IsAfter now m bounded =
      elim (Checked-cases (drift_report fl np pd json render m now)) [
        | inl (e, broken) ↦
            let same : (serve_report fl np pd json render numbers_of predictions_desc alerts_desc
                  now m).2
                ≡ m =
              ground (arith, broken) in
            rw same (unchanged m m bounded refl refl)
        | inr ((r, effects, m'), made) ↦
            let (samples, window, log', last) =
              drift_report_lem fl np pd json render m m' now r effects made in
            let same : (serve_report fl np pd json render numbers_of predictions_desc alerts_desc
                  now m).2
                ≡ m' =
              ground (arith, made) in
            rw same (unchanged m m' bounded window log')
      ]

  handle-IsAfter :
      (now : ℕ) (request : Request V) (m : Monitor fl np pd json render)
      → length m.window.records ≤ m.window.window_size
      → IsAfter
          (is_log request)
          m
          (handle fl np pd json render numbers_of predictions_desc alerts_desc now request m).2
  unfolding handle update_reference
  handle-IsAfter now (log_request features prediction label) m b =
      log-IsAfter _ prediction label now m b
  handle-IsAfter now drift_latest m b = serve_report-IsAfter now m b
  handle-IsAfter now drift_report_json m b = serve_report-IsAfter now m b
  handle-IsAfter now (drift_history hours) m b = unchanged m m b refl refl
  handle-IsAfter now (alerts_history hours) m b = unchanged m m b refl refl
  handle-IsAfter now predictions_stats m b = unchanged m m b refl refl
  handle-IsAfter now health m b = unchanged m m b refl refl
  handle-IsAfter now (reference_update rows none) m b = unchanged m _ b refl refl
  handle-IsAfter now (reference_update rows (some p)) m b = unchanged m _ b refl refl

  serve_all-IsAfter :
      (requests : List (ℕ × Request V)) (m : Monitor fl np pd json render)
      → length m.window.records ≤ m.window.window_size
      → IsAfter
          (logs requests)
          m
          (serve_all fl np pd json render numbers_of predictions_desc alerts_desc requests m)
  unfolding serve_all
  serve_all-IsAfter [] m b = unchanged m m b refl refl
  serve_all-IsAfter ((now, request) ∷ requests) m b =
      let m1 =
        (handle fl np pd json render numbers_of predictions_desc alerts_desc now request m).2 in
      let first = handle-IsAfter now request m b in
      let rest = serve_all-IsAfter requests m1 (ground (arith, first.windowed, first.same_size)) in
      record {
        stored = omega (arith, rest.stored, first.stored);
        same_size = rest.same_size ∙ first.same_size;
        windowed = ground (arith, rest.windowed, first.windowed, first.same_size);
      }

  -- Whatever requests were served on a new monitor, in whatever order: GET /predictions/stats answers
  -- with the number of POST /log requests as the total, and with that number, but no more than the
  -- window size, as the size of the window.
  pub predictions_stats-serve_all :
      (reference : Option (Frame V)) (predictions : Option (List V)) (config : DriftConfig fl.Float)
      (alerts : AlertConfig) (days : ℕ) (requests : List (ℕ × Request V)) (now : ℕ)
      → let m =
          serve_all fl np pd json render numbers_of predictions_desc alerts_desc requests
            (init fl np pd json render reference predictions config alerts days) in
        (handle fl np pd json render numbers_of predictions_desc alerts_desc now predictions_stats
          m).0
        ≡ stats (min config.window_size (logs requests)) (logs requests)
  unfolding handle init Window.init Window.size Store.count Store.init
  predictions_stats-serve_all reference predictions config alerts days requests now =
      let start = init fl np pd json render reference predictions config alerts days in
      let after = serve_all-IsAfter requests start (ground arith) in
      ground (arith, after.windowed, after.stored)

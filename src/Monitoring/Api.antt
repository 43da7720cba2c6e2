-- ===== src/Monitoring/Api.antt =====
-- src/ml_platform/monitoring/api.py: the REST API around one Monitor. A request is a route with what its
-- handler reads of it, and the time at which it is served; an exception in a handler is a 500.
pub mod Laws
mod Tests
use ml_monitor.Prelude.{ℕ, ◌*◌, ◌-◌, String, Option, none, some, List, [], ◌∷◌, ◌++◌, Floats}
use ml_monitor.Prelude.Dict.{Dict}
use ml_monitor.Monitoring.Window as Window
use ml_monitor.Monitoring.DataDrift as DataDrift
use ml_monitor.Monitoring.DataDrift.{Frame, Numerics, DriftError}
use ml_monitor.Monitoring.Report.{ReportDict, to_dict}
use ml_monitor.Monitoring.Store as Store
use ml_monitor.Monitoring.Store.{Json, PredictionRow, AlertRow, recent_alerts}
use ml_monitor.Monitoring.Aggregator.{Aggregate, aggregate}
use ml_monitor.Monitoring.Monitor.{Message, Effect}
use ml_monitor.Monitoring.Monitor.Drift.{
  Pandas, Monitor, mapping, log, drift_report, update_reference,
}

pub data Request (V : Type 0) : Type 0 where
  -- POST /log
  log_request : Dict String V → V → Option V → Request V
  -- GET /drift/latest and GET /drift/report
  drift_latest drift_report_json : Request V
  -- GET /drift/history and GET /alerts/history, by hours
  drift_history alerts_history : ℕ → Request V
  -- GET /predictions/stats, GET /health
  predictions_stats health : Request V
  -- POST /reference/update: the rows of `reference_data`, [] if there are none, and the predictions
  reference_update : List (Dict String V) → Option (List V) → Request V

module _ (fl : Floats) {V : Type 0} (np : Numerics fl.Float V) (pd : Pandas fl.Float V)
    (json : Json V) (render : Message fl.Float → String) (numbers_of : V → List fl.Float)
    (predictions_desc : List PredictionRow → List PredictionRow)
    (alerts_desc : List AlertRow → List AlertRow) where
  pub data Response : Type 0 where
    status_ok : Response
    report : ReportDict fl np → Response
    history : List (Aggregate fl numbers_of) → Response
    alerts : List AlertRow → Response
    stats : ℕ → ℕ → Response
    alive : ℕ → Response
    server_error : Response

  -- The response, the effects of alerts and the monitor after the request.
  abbrev pub Served : Type 0
  Served = Response × List (Effect fl.Float) × Monitor fl np pd json render

  unfoldable pub serve_report : ℕ → Monitor fl np pd json render → Served
  serve_report now m = elim (drift_report fl np pd json render m now) [
    | DataDrift.raise e ↦ (server_error, [], m)
    | DataDrift.ok (r, effects, m') ↦ (report (to_dict fl np r), effects, m')
  ]

  unfoldable pub handle : ℕ → Request V → Monitor fl np pd json render → Served
  unfolding serve_report
  handle now (log_request features prediction label) m =
      (status_ok, [], log fl np pd json render (mapping features) prediction label now m)
  handle now drift_latest m = serve_report now m
  handle now drift_report_json m = serve_report now m
  handle now (drift_history hours) m =
      let rows = aggregate fl numbers_of json predictions_desc now m.store "hourly" hours in
      (elim rows [ none ↦ server_error | some buckets ↦ history buckets ], [], m)
  handle now (alerts_history hours) m =
      (alerts (recent_alerts alerts_desc 200 (some (now - hours * 3_600)) m.store), [], m)
  handle now predictions_stats m = (stats (Window.size m.window) (Store.count m.store), [], m)
  handle now health m = (alive now, [], m)
  handle now (reference_update rows predictions) m =
      (status_ok, [], update_reference fl np pd json render (pd.frame rows) predictions m)

  -- Requests one after another, each at its time: the monitor that they leave.
  unfoldable pub serve_all :
      List (ℕ × Request V) → Monitor fl np pd json render → Monitor fl np pd json render
  unfolding handle
  serve_all [] m = m
  serve_all ((now, request) ∷ requests) m = serve_all requests (handle now request m).2

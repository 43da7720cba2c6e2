-- ===== src/Fraud/Reports.antt =====
-- The reports that the monitor process writes and the API serves: the loop of
-- src/ml_platform/fraud/monitor/main.py with its `_atomic_write`, and the endpoints that only read in
-- src/ml_platform/fraud/api/main.py. A file is what it holds; what an endpoint asks of the rest of the
-- process is an argument.
pub mod Laws
mod Tests
use ml_monitor.Prelude.{
  ℕ, ◌-◌, String, Bool, true, false, ◌&&◌, Option, none, some, List, [], ◌∷◌, ◌==◌, string_eq,
  if◌then◌else◌, Floats,
}
use ml_monitor.Fraud.Keys.{Access, granted, unauthorized, too_many_requests, type_error}
use ml_monitor.Fraud.Db.{ScoredRow, Stats, stats_last}
use ml_monitor.Fraud.Trigger.{Trigger}
use ml_monitor.Fraud.Watch.{
  Backends, Effect, latest_html, latest_json, ml_monitor_json, slack_alert, slack_recovery, Summary,
  run_once,
}

-- The files of REPORTS_DIR.
pub record Reports (Float Report : Type 0) : Type 0 where
  pub html_file : Option Report
  pub json_file : Option (Summary Float)
  pub ml_monitor_file : Option Report

abbrev pub no_reports : {Float Report : Type 0} → Reports Float Report
no_reports = record { html_file = none; json_file = none; ml_monitor_file = none }

-- `_atomic_write` of each file; a message to Slack writes none.
unfoldable pub atomic_write :
    {Float Report : Type 0} → Effect Float Report → Reports Float Report → Reports Float Report
atomic_write (latest_html report) r = record r { html_file = some report }
atomic_write (latest_json summary) r = record r { json_file = some summary }
atomic_write (ml_monitor_json report) r = record r { ml_monitor_file = some report }
atomic_write (slack_alert summary decision threshold) r = r
atomic_write (slack_recovery summary) r = r

unfoldable pub write_all :
    {Float Report : Type 0}
    → List (Effect Float Report)
    → Reports Float Report
    → Reports Float Report
unfolding atomic_write
write_all [] r = r
write_all (effect ∷ effects) r = write_all effects (atomic_write effect r)

-- `HealthResponse`, and whether the service is healthy.
pub record Health : Type 0 where
  pub status : String
  pub model_version : String
  pub kafka_connected : Bool
  pub redis_connected : Bool
  pub db_connected : Bool

-- `_health_payload`: the scorer's version and whether its Redis answers, whether the consumer thread
-- lives, and whether the database answers.
unfoldable pub health_payload : String → Option (String × Bool) → Option Bool → Bool → Health × Bool
health_payload default_version scorer thread db_up =
    let redis_up : Bool = elim scorer [ none ↦ false | some (version, up) ↦ up ] in
    let healthy = redis_up && db_up in
    (
      record {
        status = if healthy then "ok" else "degraded";
        model_version = elim scorer [ none ↦ default_version | some (version, up) ↦ version ];
        kafka_connected = elim thread [ none ↦ false | some alive ↦ alive ];
        redis_connected = redis_up;
        db_connected = db_up;
      },
      healthy,
    )

-- The status code with the payload.
unfoldable pub health : String → Option (String × Bool) → Option Bool → Bool → ℕ × Health
unfolding health_payload
health default_version scorer thread db_up =
    let (payload, healthy) = health_payload default_version scorer thread db_up in
    (if healthy then 200 else 503, payload)

-- The gauge that `prometheus_metrics` sets, when a consumer was started.
unfoldable pub stream_lag : ℕ → Option Bool → Option ℕ → Option ℕ
stream_lag now none last_message_at = none
stream_lag now (some alive) none = some 0
stream_lag now (some alive) (some t) = some (now - t)

module _ (fl : Floats) {Row Report : Type 0} (b : Backends fl.Float Row Report) where
  open fl use {Float}

  pub data Reply : Type 0 where
    html : Report → Reply
    json : Summary Float → Reply
    ml_report : Report → Reply
    statistics : Stats Float → Reply
    not_found : Reply
    refused : Access → Reply

  -- `Depends(require_api_key)`
  unfoldable pub guarded : Access → Reply → Reply
  guarded (granted key_id) reply = reply
  guarded unauthorized reply = refused unauthorized
  guarded (too_many_requests reset_in) reply = refused (too_many_requests reset_in)
  guarded type_error reply = refused type_error

  unfoldable pub stats : (List Float → Float) → Access → ℕ → List (ScoredRow Float) → Reply
  unfolding guarded
  stats avg access now table = guarded access (statistics (stats_last fl avg now 60 table))

  unfoldable pub monitoring : String → Access → Reports Float Report → Reply
  unfolding guarded
  monitoring format access r = guarded access (
      if format == "html"
      then elim r.html_file [ none ↦ not_found | some report ↦ html report ]
      else elim r.json_file [ none ↦ not_found | some summary ↦ json summary ])

  unfoldable pub monitoring_ml_monitor : Access → Reports Float Report → Reply
  unfolding guarded
  monitoring_ml_monitor access r =
      guarded access (elim r.ml_monitor_file [ none ↦ not_found | some report ↦ ml_report report ])

  -- The loop of `main`: a pass is the time and the recent rows that it reads, or `none` if that raises.
  -- What a pass has written and counted before an exception stays.
  unfoldable pub watch :
      List (ℕ × Option (List Row))
      → Option (Trigger fl) × Reports Float Report
      → Option (Trigger fl) × Reports Float Report
  unfolding write_all
  watch [] s = s
  watch ((now, none) ∷ passes) s = watch passes s
  watch ((now, some recent) ∷ passes) (trigger, r) =
      let (trigger', outcome, effects) = run_once fl b now recent trigger in
      watch passes (trigger', write_all effects r)

-- ===== src/Monitoring/Api/Tests.antt =====
-- The theorem on the REST API of the monitor, applied to concrete values.
use ml_monitor.Prelude.{ℕ, ◌≡◌, none, some, List, [], ◌∷◌, min}
use ml_monitor.Samples.Fixed.{Fixed, fixed}
use ml_monitor.Samples.Numbers.{numerics}
use ml_monitor.Samples.Platform.{pandas, text_json, render}
use ml_monitor.Monitoring.Monitor.Drift.{init}
use ml_monitor.Monitoring.Monitor.Drift.Open.{drift_config, default_alert_config}
use ml_monitor.Monitoring.Api.{
  Request, log_request, drift_latest, predictions_stats, stats, handle, serve_all,
}
use ml_monitor.Monitoring.Api.Laws.{logs, predictions_stats-serve_all}

abbrev numbers_of : ℕ → List Fixed
numbers_of v = []

abbrev requests : List (ℕ × Request ℕ)
requests =
    (1, log_request (("amount", 3) ∷ []) 1 none)
    ∷ (2, log_request (("amount", 4) ∷ []) 0 (some 1))
    ∷ (3, drift_latest)
    ∷ []

predictions_stats-serve_all_example :
    let m =
      serve_all fixed numerics pandas text_json render numbers_of
        (λ rows. rows)
        (λ rows. rows)
        requests
        (init fixed numerics pandas text_json render none none
          (drift_config fixed 1)
          default_alert_config
          30) in
    (handle fixed numerics pandas text_json render numbers_of
      (λ rows. rows)
      (λ rows. rows)
      9
      predictions_stats
      m).0
    ≡ stats (min 1 (logs requests)) (logs requests)
predictions_stats-serve_all_example =
    predictions_stats-serve_all fixed numerics pandas text_json render numbers_of (λ rows. rows)
      (λ rows. rows) none none (drift_config fixed 1) default_alert_config 30 requests 9

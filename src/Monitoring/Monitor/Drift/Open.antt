-- ===== src/Monitoring/Monitor/Drift/Open.antt =====
-- The constructor of Monitor in src/ml_platform/monitoring/core/monitor.py with its default settings, over
-- a database that may hold rows already.
use ml_monitor.Prelude.{ℕ, String, Option, none, some, List, Floats}
use ml_monitor.Monitoring.Store.{Json, SqliteStore}
use ml_monitor.Monitoring.DataDrift.{Numerics, Frame}
use ml_monitor.Monitoring.Monitor.{DriftConfig, AlertConfig, Message}
use ml_monitor.Monitoring.Monitor.Drift.{Pandas, Monitor, init}

abbrev pub default_alert_config : AlertConfig
default_alert_config = record {
  email = none;
  webhook_url = none;
  slack_webhook_url = none;
  severity_threshold = "WARNING";
  dedup_cooldown_seconds = 3_600;
}

module _ (fl : Floats) where
  open fl use {Float, ratio}

  -- `DriftConfig(window_size=window_size)`
  abbrev pub drift_config : ℕ → DriftConfig Float
  drift_config window_size = record {
    numerical_method = "ks";
    categorical_method = "chi2";
    drift_threshold = ratio 5 100;
    window_size = window_size;
    concept_drift_method = "ddm";
    correlation_change_threshold = ratio 3 10;
  }

  abbrev pub config_or_default : Option (DriftConfig Float) → DriftConfig Float
  config_or_default none = drift_config 500
  config_or_default (some config) = config

  abbrev pub alerts_or_default : Option AlertConfig → AlertConfig
  alerts_or_default none = default_alert_config
  alerts_or_default (some alerts) = alerts

  module _ {V : Type 0} (np : Numerics Float V) (pd : Pandas Float V) (json : Json V)
      (render : Message Float → String) where
    -- `Monitor(...)` with `db` as what the file at `db_path` holds.
    unfoldable pub open_monitor :
        Option (Frame V)
        → Option (List V)
        → Option (DriftConfig Float)
        → Option AlertConfig
        → SqliteStore
        → Monitor fl np pd json render
    open_monitor reference_data reference_predictions config alerts db =
        record (init fl np pd json render reference_data reference_predictions
          (config_or_default config) (alerts_or_default alerts) 30) {
            store = record db { retention_days = 30 };
          }

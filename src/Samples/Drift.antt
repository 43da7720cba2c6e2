-- ===== src/Samples/Drift.antt =====
-- A frame, a report and the settings of a monitor, for the theorems on src/ml_platform/monitoring.
use ml_monitor.Prelude.{ℕ, true, none, some, String, [], ◌∷◌, string_eq, nat_eq, pair_eq}
use ml_monitor.Samples.Fixed.{Fixed, fixed, fixed_ratio}
use ml_monitor.Samples.Numbers.{numerics, column_of}
use ml_monitor.Monitoring.DataDrift.{info, warning, FeatureDrift, Frame}
use ml_monitor.Monitoring.Report.{DriftReport, empty_report}
use ml_monitor.Monitoring.Monitor.{AlertConfig, Message}

abbrev pub distance : FeatureDrift Fixed
distance = record {
  statistic = fixed_ratio 1 4;
  p_value = none;
  drift_score =
      fixed.div (fixed_ratio 1 4) (fixed.add (fixed_ratio 1 1) (fixed_ratio 1 1_000_000_000));
  is_drifted = true;
  severity = some warning;
  method = "wasserstein";
}

abbrev pub frame : Frame ℕ
frame = ("a", column_of (1 ∷ 2 ∷ [])) ∷ ("b", column_of (3 ∷ [])) ∷ []

abbrev pub report : DriftReport fixed numerics
report = record (empty_report fixed numerics 9 2) {
  data_drift = ("a", distance) ∷ ("b", record distance { severity = some info }) ∷ [];
}

abbrev pub alerts : AlertConfig
alerts = record {
  email = none;
  webhook_url = some "http://hook";
  slack_webhook_url = none;
  severity_threshold = "WARNING";
  dedup_cooldown_seconds = 3600;
}

abbrev pub render : Message Fixed → String
render m = "drift"

-- ===== src/Fraud/Reports/Tests.antt =====
-- The theorem on the served reports, applied to concrete values.
use ml_monitor.Prelude.{ℕ, true, none, some, List, [], ◌∷◌, ◌++◌, length, ◌≡◌}
use ml_monitor.Samples.Fixed.{Fixed, fixed, fixed_ratio}
use ml_monitor.Fraud.Keys.{granted}
use ml_monitor.Fraud.Watch.{Backends, bad_url}
use ml_monitor.Fraud.Reports.{no_reports, html, monitoring, monitoring_ml_monitor, watch}
use ml_monitor.Fraud.Reports.Laws.{
  Passes, json_or_404, ml_or_404, last_summary, last_ml, monitoring-watch,
}

abbrev backends : Backends Fixed ℕ ℕ
backends = record {
  evidently = λ rows. some (length rows);
  dataset_drift = λ r. some true;
  drift_share = λ r. none;
  fraud_rate = λ rows. fixed_ratio 1 10;
  avg_score = λ rows. fixed_ratio 1 5;
  ml_monitor = λ rows. some 7;
  slack = λ now. bad_url;
}

abbrev ten : List ℕ
ten = 1 ∷ 2 ∷ 3 ∷ 4 ∷ 5 ∷ 6 ∷ 7 ∷ 8 ∷ 9 ∷ 10 ∷ []

abbrev passes : Passes fixed backends
passes = (60, some (ten ++ ten ++ ten)) ∷ (120, none) ∷ (180, some ten) ∷ []

monitoring-watch_example :
    let r = (watch fixed backends passes (none, no_reports)).1 in
    (monitoring fixed backends "json" (granted "k") r
      ≡ json_or_404 fixed backends (last_summary fixed backends passes none))
    × (monitoring fixed backends "html" (granted "k") r ≡ html 30)
    × (monitoring_ml_monitor fixed backends (granted "k") r
        ≡ ml_or_404 fixed backends (last_ml fixed backends passes none))
monitoring-watch_example = monitoring-watch fixed backends passes none "k"

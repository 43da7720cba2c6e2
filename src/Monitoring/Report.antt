-- ===== src/Monitoring/Report.antt =====
-- src/ml_platform/monitoring/core/report.py: the report and its views.
pub mod Laws
use ml_monitor.Prelude.{
  ℕ, String, Bool, true, false, Option, none, some, List, [], ◌∷◌, map, length, select, take,
  if◌then◌else◌, Floats,
}
use ml_monitor.Prelude.Dict.{Dict}
use ml_monitor.Prelude.Sorting.{sort_by}
use ml_monitor.Monitoring.DataDrift.{FeatureDrift, PredictionDrift, Numerics}
use ml_monitor.Monitoring.Concept.Detect.{ConceptDrift}
use ml_monitor.Monitoring.Correlation.{CorrelationDrift, FlaggedPair}

module _ (fl : Floats) {V : Type 0} (np : Numerics fl.Float V) where
  open fl use {Float, lt}

  pub record DriftReport : Type 0 where
    pub generated_at : ℕ
    pub data_drift : Dict String (FeatureDrift Float)
    pub prediction_drift : Option (PredictionDrift fl np)
    pub concept_drift : Option (ConceptDrift Float)
    pub correlation_drift : Option (CorrelationDrift Float)
    pub n_samples : ℕ

  abbrev pub empty_report : ℕ → ℕ → DriftReport
  empty_report now n_samples = record {
    generated_at = now;
    data_drift = [];
    prediction_drift = none;
    concept_drift = none;
    correlation_drift = none;
    n_samples = n_samples;
  }

  abbrev pub drifted : String × FeatureDrift Float → Bool
  drifted (f, r) = r.is_drifted

  unfoldable pub drifted_features : DriftReport → List String
  drifted_features report = map (λ x. x.0) (select drifted report.data_drift)

  -- `sort(key=drift_score, reverse=True)`: the higher score comes first, ties keep their order.
  abbrev pub higher : String × FeatureDrift Float → String × FeatureDrift Float → Bool
  higher (f, r) (g, s) = lt s.drift_score r.drift_score

  unfoldable pub top_drifted : DriftReport → ℕ → List (String × FeatureDrift Float)
  top_drifted report n = take n (sort_by higher report.data_drift)

  -- The dict of `to_dict`, with its keys as fields.
  pub record ReportDict : Type 0 where
    pub generated_at : ℕ
    pub n_samples : ℕ
    pub data_drift : Dict String (FeatureDrift Float)
    pub prediction_drift : Option (PredictionDrift fl np)
    pub concept_drift : Option (ConceptDrift Float)
    pub n_drifted_features : ℕ
    pub correlation_drift : Option (List (FlaggedPair Float) × List String)

  unfoldable pub to_dict : DriftReport → ReportDict
  unfolding drifted_features
  to_dict report = record {
    generated_at = report.generated_at;
    n_samples = report.n_samples;
    data_drift = report.data_drift;
    prediction_drift = report.prediction_drift;
    concept_drift = report.concept_drift;
    n_drifted_features = length (drifted_features report);
    correlation_drift = elim report.correlation_drift [
      | none ↦ none
      | some c ↦ some (c.flagged_pairs, c.flagged_features)
    ];
  }

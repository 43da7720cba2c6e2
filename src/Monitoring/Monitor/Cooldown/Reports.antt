-- ===== src/Monitoring/Monitor/Cooldown/Reports.antt =====
-- The parts of `_fire_alerts` one by one, and a report that comes twice.
use ml_monitor.Prelude.{
  ℕ, ◌+◌, ◌<◌, ◌≡◌, ap, String, not, Option, none, some, [], ◌∷◌, ◌++◌, leb, ltb, string_eq,
  pair_eq, if◌then◌else◌, Floats,
}
use ml_monitor.Prelude.Dict.{Dict}
use ml_monitor.Monitoring.Dedup as Dedup
use ml_monitor.Monitoring.Dedup.{Key, key_of, Deduplicator, should_alert}
use ml_monitor.Monitoring.Store.{SqliteStore}
use ml_monitor.Monitoring.DataDrift.{
  Severity, warning, critical, FeatureDrift, PredictionDrift, Numerics,
}
use ml_monitor.Monitoring.Concept.Detect.{ConceptDrift}
use ml_monitor.Monitoring.Report.{DriftReport}
use ml_monitor.Monitoring.Monitor.{
  rank, threshold_rank, AlertConfig, Message, Firing, data_drift_message, prediction_drift_message,
  concept_drift_message, alert_once, fire_feature, fire_features, fire_prediction, fire_concept,
  deliver, fire_alerts,
}
use ml_monitor.Monitoring.Monitor.Cooldown.{
  new_IsFresh, Part, Settles, nothing-Settles, then-Settles, if-Settles, alert_once-Settles,
}

module _ (fl : Floats) {V : Type 0} (np : Numerics fl.Float V) (render : Message fl.Float → String)
    (now cooldown : ℕ) (pos : 0 < cooldown) where
  open fl use {Float}

  abbrev pub Quiets : Part fl np render now cooldown → Type 0
  Quiets = Settles fl np render now cooldown

  fire_feature-Settles :
      (minimum : ℕ) (x : String × FeatureDrift Float)
      → Quiets (λ t. fire_feature fl np render minimum t x)
  unfolding fire_feature
  fire_feature-Settles minimum (feature, result) =
      elim result.severity
        as (λ s. Quiets (λ t f. elim s as (λ _. Firing fl np) [
          | none ↦ f
          | some severity ↦
              if not result.is_drifted
              then f
              else if ltb (rank severity) minimum
              then f
              else alert_once fl np render severity
                  (data_drift_message feature result.drift_score severity) "data_drift"
                  (some feature)
                  (record {
                    feature = feature;
                    severity = severity;
                    drift_score = result.drift_score;
                  })
                  t f
        ])) [
          | none ↦ (nothing-Settles fl np render now cooldown)
          | some severity ↦
              if-Settles fl np render now cooldown (not result.is_drifted) (λ t f. f) _
                (nothing-Settles fl np render now cooldown)
                (if-Settles fl np render now cooldown (ltb (rank severity) minimum) (λ t f. f) _
                  (nothing-Settles fl np render now cooldown)
                  (alert_once-Settles fl np render now cooldown pos severity
                    (data_drift_message feature result.drift_score severity) "data_drift"
                    (some feature)
                    (record {
                      feature = feature;
                      severity = severity;
                      drift_score = result.drift_score;
                    })))
        ]

  fire_features-Settles :
      (minimum : ℕ) (xs : Dict String (FeatureDrift Float))
      → Quiets (λ t. fire_features fl np render minimum t xs)
  unfolding fire_features
  fire_features-Settles minimum [] = (nothing-Settles fl np render now cooldown)
  fire_features-Settles minimum (x ∷ xs) =
      then-Settles fl np render now cooldown (λ t. fire_feature fl np render minimum t x)
        (λ t. fire_features fl np render minimum t xs) (fire_feature-Settles minimum x)
        (fire_features-Settles minimum xs)

  fire_prediction-Settles :
      (minimum : ℕ) (drift : Option (PredictionDrift fl np))
      → Quiets (λ t. fire_prediction fl np render minimum t drift)
  unfolding fire_prediction
  fire_prediction-Settles minimum none = (nothing-Settles fl np render now cooldown)
  fire_prediction-Settles minimum (some drift) =
      let severity : Severity = elim drift.severity as (λ _. Severity) [
        | none ↦ warning
        | some s ↦ s
      ] in
      if-Settles fl np render now cooldown drift.is_drifted _ (λ t f. f)
        (if-Settles fl np render now cooldown (leb minimum (rank severity)) _ (λ t f. f)
          (alert_once-Settles fl np render now cooldown pos severity
            (prediction_drift_message drift.drift_score) "prediction_drift" none
            (record {
              feature = "__prediction__";
              severity = severity;
              drift_score = drift.drift_score;
            }))
          (nothing-Settles fl np render now cooldown))
        (nothing-Settles fl np render now cooldown)

  fire_concept-Settles :
      (drift : Option (ConceptDrift Float)) → Quiets (λ t. fire_concept fl np render t drift)
  unfolding fire_concept
  fire_concept-Settles none = (nothing-Settles fl np render now cooldown)
  fire_concept-Settles (some drift) =
      if-Settles fl np render now cooldown drift.drift_detected _ (λ t f. f)
        (alert_once-Settles fl np render now cooldown pos critical
          (concept_drift_message drift.method drift.baseline_error_rate drift.current_error_rate)
          "concept_drift" none
          (record { feature = "__concept__"; severity = critical; drift_score = fl.ratio 1 1 }))
        (nothing-Settles fl np render now cooldown)

  -- With a positive cooldown: if a new deduplicator raises the alerts of a report, and the same
  -- report comes again at any time before the cooldown has passed since then, over any store, then
  -- nothing is due, no log line and no post is made, and the store and the deduplicator stay as they
  -- were.
  pub fire_alerts-fire_alerts :
      (config : AlertConfig) (later : ℕ) (report : DriftReport fl np) (store store' : SqliteStore)
      → later < now + cooldown
      → let f = fire_alerts fl np render config now report (Dedup.init cooldown) store in
        fire_alerts fl np render config later report f.deduplicator store'
        ≡ record { deduplicator = f.deduplicator; store = store'; due = []; effects = [] }
  unfolding fire_alerts deliver
  fire_alerts-fire_alerts config later report store store' early =
      let minimum : ℕ = threshold_rank config.severity_threshold in
      let part : Part fl np render now cooldown = λ t f.
        fire_concept fl np render t report.concept_drift (
          fire_prediction fl np render minimum t report.prediction_drift
            (fire_features fl np render minimum t report.data_drift f)) in
      let settles : Quiets part =
        then-Settles fl np render now cooldown _
          (λ t. fire_concept fl np render t report.concept_drift)
          (then-Settles fl np render now cooldown _
            (λ t. fire_prediction fl np render minimum t report.prediction_drift)
            (fire_features-Settles minimum report.data_drift)
            (fire_prediction-Settles minimum report.prediction_drift))
          (fire_concept-Settles report.concept_drift) in
      let f0 : Firing fl np = record {
        deduplicator = Dedup.init cooldown;
        store = store;
        due = [];
        effects = [];
      } in
      let (fresh, keeps, silent) = settles f0 (new_IsFresh now cooldown) in
      let again : Firing fl np = record {
        deduplicator = (part now f0).deduplicator;
        store = store';
        due = [];
        effects = [];
      } in
      let quiet : part later again ≡ again =
        silent later again early fresh.same_cooldown (λ k h. h) in
      ap
        (λ (f : Firing fl np). record f {
          effects = f.effects ++ deliver fl np render config f.due;
        })
        quiet

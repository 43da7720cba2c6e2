-- ===== src/Monitoring/Monitor/Laws.antt =====
-- The alerts of `_fire_alerts` in src/ml_platform/monitoring/core/monitor.py: what is stored, logged and
-- sent agree, and none is below the configured severity.
use ml_monitor.Prelude.{
  ℕ, ◌+◌, ◌≤◌, ◌≡◌, refl, ◌∙◌, String, not, Option, none, some, List, [], ◌∷◌, ◌++◌, length,
  length-snoc, leb, ltb, All, All-append, arith, if◌then◌else◌, Floats, Bool-cases, Option-cases,
  ap, inl, inr, string_eq, leb→le,
}
use ml_monitor.Prelude.Dict.{Dict}
use ml_monitor.Monitoring.Dedup.{Deduplicator, should_alert}
use ml_monitor.Monitoring.Store as Store
use ml_monitor.Monitoring.Store.{SqliteStore}
use ml_monitor.Monitoring.DataDrift.{
  Severity, warning, critical, FeatureDrift, PredictionDrift, Numerics,
}
use ml_monitor.Monitoring.Concept.Detect.{ConceptDrift}
use ml_monitor.Monitoring.Report.{DriftReport}
use ml_monitor.Monitoring.Monitor.{
  rank, threshold_rank, AlertConfig, Message, Due, Effect, Firing, alert_once, fire_feature,
  fire_features, fire_prediction, fire_concept, deliver, fire_alerts, truthy, send_webhook,
  send_slack_alert, log_alert, data_drift_message, concept_drift_message,
}

threshold_rank-le : (name : String) → threshold_rank name ≤ 3
unfolding threshold_rank
threshold_rank-le name = ground arith

module _ (fl : Floats) {V : Type 0} (np : Numerics fl.Float V)
    (render : Message fl.Float → String) where
  open fl use {Float}

  -- The log line of an entry: its severity, and its feature if the alert is about one.
  abbrev pub IsLogOf : Due Float → Effect Float → Type 0
  IsLogOf d (log_alert severity message drift_type none) = severity ≡ d.severity
  IsLogOf d (log_alert severity message drift_type (some feature)) =
      (severity ≡ d.severity) × (feature ≡ d.feature)
  IsLogOf d (send_webhook url due) = ⊥
  IsLogOf d (send_slack_alert url due) = ⊥

  -- One log line for each entry, in the same order.
  abbrev pub IsLogged : List (Due Float) → List (Effect Float) → Type 0
  IsLogged [] [] = Unit
  IsLogged [] (e ∷ effects) = ⊥
  IsLogged (d ∷ due) [] = ⊥
  IsLogged (d ∷ due) (e ∷ effects) = IsLogOf d e × IsLogged due effects

  append-IsLogged :
      (due : List (Due Float)) (effects : List (Effect Float)) (d : Due Float) (e : Effect Float)
      → IsLogged due effects
      → IsLogOf d e
      → IsLogged (due ++ d ∷ []) (effects ++ e ∷ [])
  append-IsLogged [] [] d e h k = (k, tt)
  append-IsLogged [] (x ∷ effects) d e h k = absurd h
  append-IsLogged (x ∷ due) [] d e h k = absurd h
  append-IsLogged (x ∷ due) (y ∷ effects) d e h k = (h.0, append-IsLogged due effects d e h.1 k)

  -- Against a store and a minimum rank: as many alerts were stored as are due, each has its log line,
  -- the predictions are untouched and no entry is below the minimum.
  abbrev pub IsBalanced : ℕ → SqliteStore → Firing fl np → Type 0
  IsBalanced minimum store f =
      (length f.store.alerts ≡ length store.alerts + length f.due)
      × IsLogged f.due f.effects
      × (f.store.predictions ≡ store.predictions)
      × All (λ (d : Due Float). minimum ≤ rank d.severity) f.due

  alert_once-IsBalanced :
      (minimum : ℕ) (store : SqliteStore) (severity : Severity) (message : Message Float)
      (drift_type : String) (feature : Option String) (entry : Due Float) (now : ℕ)
      (f : Firing fl np)
      → minimum ≤ rank entry.severity
      → IsLogOf entry (log_alert severity message drift_type feature)
      → IsBalanced minimum store f
      → IsBalanced minimum store
          (alert_once fl np render severity message drift_type feature entry now f)
  unfolding alert_once Store.log_alert
  alert_once-IsBalanced minimum store severity message drift_type feature entry now f le line h =
      elim (Bool-cases (should_alert drift_type feature now f.deduplicator).0) [
        | inr held ↦ rw held h
        | inl fires ↦ rw fires (
          length-snoc f.store.alerts _ ∙ omega (arith, h.0, length-snoc f.due entry),
          append-IsLogged f.due f.effects entry _ h.1 line,
          h.2,
          All-append _ f.due (entry ∷ []) h.3 (le, tt),
        )
      ]

  fire_feature-IsBalanced :
      (minimum now : ℕ) (store : SqliteStore) (x : String × FeatureDrift Float) (f : Firing fl np)
      → IsBalanced minimum store f
      → IsBalanced minimum store (fire_feature fl np render minimum now x f)
  unfolding fire_feature
  fire_feature-IsBalanced minimum now store (feature, result) f h =
      elim result.severity
        as (λ s. IsBalanced minimum store (elim s as (λ _. Firing fl np) [
          | none ↦ f
          | some severity ↦
              if not result.is_drifted
              then f
              else if ltb (rank severity) minimum
              then f
              else alert_once fl np render severity
                  (data_drift_message feature result.drift_score severity) "data_drift"
                  (some feature)
                  (record {
                    feature = feature;
                    severity = severity;
                    drift_score = result.drift_score;
                  })
                  now f
        ])) [
          | none ↦ h
          | some severity ↦ elim (Bool-cases (not result.is_drifted)) [
            | inl calm ↦ rw calm h
            | inr drifted ↦ rw drifted (elim (Bool-cases (ltb (rank severity) minimum)) [
              | inl low ↦ rw low h
              | inr high ↦ rw high (
                  alert_once-IsBalanced minimum store severity
                    (data_drift_message feature result.drift_score severity) "data_drift"
                    (some feature)
                    (record {
                      feature = feature;
                      severity = severity;
                      drift_score = result.drift_score;
                    })
                    now f (ground (arith, high)) (refl, refl) h)
            ])
          ]
        ]

  fire_features-IsBalanced :
      (minimum now : ℕ) (store : SqliteStore) (xs : Dict String (FeatureDrift Float))
      (f : Firing fl np)
      → IsBalanced minimum store f
      → IsBalanced minimum store (fire_features fl np render minimum now xs f)
  unfolding fire_features
  fire_features-IsBalanced minimum now store [] f h = h
  fire_features-IsBalanced minimum now store (x ∷ xs) f h =
      fire_features-IsBalanced minimum now store xs (fire_feature fl np render minimum now x f)
        (fire_feature-IsBalanced minimum now store x f h)

  fire_prediction-IsBalanced :
      (minimum now : ℕ) (store : SqliteStore) (drift : Option (PredictionDrift fl np))
      (f : Firing fl np)
      → IsBalanced minimum store f
      → IsBalanced minimum store (fire_prediction fl np render minimum now drift f)
  unfolding fire_prediction
  fire_prediction-IsBalanced minimum now store none f h = h
  fire_prediction-IsBalanced minimum now store (some drift) f h =
      elim (Bool-cases drift.is_drifted) [
        | inr calm ↦ rw calm h
        | inl drifted ↦
            rw drifted
              (elim (Bool-cases (
                leb minimum (
                  rank (elim drift.severity as (λ _. Severity) [ none ↦ warning | some s ↦ s ])))) [
                    | inr low ↦ rw low h
                    | inl high ↦ rw high (
                        alert_once-IsBalanced minimum store _ _ _ _ _ now f (leb→le minimum _ high)
                          refl h)
                  ])
      ]

  fire_concept-IsBalanced :
      (minimum now : ℕ) (store : SqliteStore) (drift : Option (ConceptDrift Float))
      (f : Firing fl np)
      → minimum ≤ 3
      → IsBalanced minimum store f
      → IsBalanced minimum store (fire_concept fl np render now drift f)
  unfolding fire_concept
  fire_concept-IsBalanced minimum now store none f le h = h
  fire_concept-IsBalanced minimum now store (some drift) f le h =
      elim (Bool-cases drift.drift_detected) [
        | inr calm ↦ rw calm h
        | inl drifted ↦ rw drifted (
            alert_once-IsBalanced minimum store critical
              (concept_drift_message drift.method drift.baseline_error_rate
                drift.current_error_rate)
              "concept_drift" none
              (record { feature = "__concept__"; severity = critical; drift_score = fl.ratio 1 1 })
              now f le refl h)
      ]

  -- The posts at the end: to the webhook and then to Slack, each if its URL is set, and none when
  -- nothing is due.
  abbrev pub posts : AlertConfig → List (Due Float) → List (Effect Float)
  posts config [] = []
  posts config (d ∷ due) = elim (truthy config.webhook_url) [
    | none ↦ elim (truthy config.slack_webhook_url) [
      | none ↦ []
      | some slack ↦ send_slack_alert slack (d ∷ due) ∷ []
    ]
    | some web ↦ elim (truthy config.slack_webhook_url) [
      | none ↦ send_webhook web (d ∷ due) ∷ []
      | some slack ↦ send_webhook web (d ∷ due) ∷ send_slack_alert slack (d ∷ due) ∷ []
    ]
  ]

  deliver-posts :
      (config : AlertConfig) (due : List (Due Float))
      → deliver fl np render config due ≡ posts config due
  unfolding deliver
  deliver-posts config [] = refl
  deliver-posts config (d ∷ due) = elim (Option-cases (truthy config.webhook_url)) [
    | inl no_web ↦ ground (arith, no_web)
    | inr (web, web_set) ↦ elim (Option-cases (truthy config.slack_webhook_url)) [
      | inl no_slack ↦ ground (arith, web_set, no_slack)
      | inr (slack, slack_set) ↦ ground (arith, web_set, slack_set)
    ]
  ]

  pub fire_alerts-IsBalanced :
      (config : AlertConfig) (now : ℕ) (report : DriftReport fl np) (deduplicator : Deduplicator)
      (store : SqliteStore)
      → let f = fire_alerts fl np render config now report deduplicator store in
        (length f.store.alerts ≡ length store.alerts + length f.due)
        × ((logs : List (Effect Float)) × IsLogged f.due logs
            × (f.effects ≡ logs ++ posts config f.due))
        × (f.store.predictions ≡ store.predictions)
        × All (λ (d : Due Float). threshold_rank config.severity_threshold ≤ rank d.severity) f.due
  unfolding fire_alerts
  fire_alerts-IsBalanced config now report deduplicator store =
      let minimum : ℕ = threshold_rank config.severity_threshold in
      let f0 : Firing fl np = record {
        deduplicator = deduplicator;
        store = store;
        due = [];
        effects = [];
      } in
      let f1 : Firing fl np = fire_features fl np render minimum now report.data_drift f0 in
      let f2 : Firing fl np = fire_prediction fl np render minimum now report.prediction_drift f1 in
      let f3 : Firing fl np = fire_concept fl np render now report.concept_drift f2 in
      let h : IsBalanced minimum store f3 =
        fire_concept-IsBalanced minimum now store report.concept_drift f2
          (threshold_rank-le config.severity_threshold)
          (fire_prediction-IsBalanced minimum now store report.prediction_drift f1 (
            fire_features-IsBalanced minimum now store report.data_drift f0
              (omega arith, tt, refl, tt))) in
      (h.0, (f3.effects, h.1, ap (λ es. f3.effects ++ es) (deliver-posts config f3.due)), h.2, h.3)

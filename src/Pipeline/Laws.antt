-- ===== src/Pipeline/Laws.antt =====
-- A run of the pipeline, from the registration to the report.
use ml_monitor.Prelude.{
  ℕ, suc, ◌+◌, ◌≡◌, refl, ap, ◌∙◌, String, true, false, Option, some, List, [], ◌∷◌, map, length,
  ltb, All, arith, ◌==◌, string_eq, Option-cases, ◌⊎◌, inl, inr, Floats,
}
use ml_monitor.Prelude.Dict.{Dict}
use ml_monitor.Features.Frame.{Frame, is_in}
use ml_monitor.Features.Registry.{
  Feature, Registered, done, integrity_error, register_entity, register_feature_group,
}
use ml_monitor.Features.Store.{FeatureGroup, FeatureStore, Libraries, register, ingest}
use ml_monitor.Features.Store.Laws.{ingest_lem}
use ml_monitor.Fraud.Features as Fraud
use ml_monitor.Monitoring.DataDrift.{Column, Numerics}
use ml_monitor.Monitoring.Report.{drifted_features}
use ml_monitor.Monitoring.Store.{Json, SqliteStore}
use ml_monitor.Monitoring.Monitor.{Message}
use ml_monitor.Monitoring.Monitor.Drift.{Pandas}
use ml_monitor.Features.Store.Groups.{Outcome-cases, ingest-group_of, group_of-register}
use ml_monitor.Pipeline.{
  Casts, returned, Finished, run_reference_pipeline, fraud_feature, fraud_group, project,
}
use ml_monitor.Pipeline.Monitored.{is_in_self, monitor_live_lem}

module _ (fl : Floats) {S V : Type 0} (lib : Libraries S V) (column_of : List (Option V) → Column V)
    (np : Numerics fl.Float V) (pd : Pandas fl.Float V) (json : Json V)
    (render : Message fl.Float → String) (casts : Casts V) where
  Registered-cases : (r : Registered) → (r ≡ done) ⊎ (r ≡ integrity_error)
  Registered-cases done = inl refl
  Registered-cases integrity_error = inr refl

  register-ingestion_log :
      (g : FeatureGroup) (now : ℕ) (fs : FeatureStore fl lib)
      → (register fl lib g now fs).1.registry.ingestion_log ≡ fs.registry.ingestion_log
  unfolding register register_entity register_feature_group
  register-ingestion_log g now fs = refl

  All-map :
      {A B : Type 0} (P : B → Type 0) (f : A → B) (xs : List A)
      → All (λ x. P (f x)) xs
      → All P (map f xs)
  All-map P f [] h = tt
  All-map P f (x ∷ xs) h = (h.0, All-map P f xs h.1)

  fraud_names :
      (feature_group : String)
      → ((P : Feature → Type 0) (fs : List Feature) → All P fs → All P (lib.scan_features fs))
      → All
          (λ x. is_in Fraud.feature_names x ≡ true)
          (map (λ (f : Feature). f.name) (lib.scan_features (fraud_group feature_group).features))
  unfolding fraud_group
  fraud_names feature_group scan =
      let P : String → Type 0 = λ x. is_in Fraud.feature_names x ≡ true in
      All-map P (λ (f : Feature). f.name) (lib.scan_features (fraud_group feature_group).features)
        (scan (λ f. P f.name) (fraud_group feature_group).features
          (All-map (λ (f : Feature). P f.name) fraud_feature Fraud.feature_names
            (is_in_self fl lib column_of np pd json render casts Fraud.feature_names)))

  -- A run that returns, when SQLite gives the features of a group each as they were stored and the text
  -- of the group's tags can be read back and is not empty: the report counts one sample for each live
  -- row, and none is lost to the window; the result has the numbers of history and live rows, and
  -- reports drift exactly if the report names a drifted feature; only features of FEATURE_NAMES are
  -- named; the monitor keeps the report as its last one, and its database has one row more for each live
  -- row; and the registry has one entry more in its ingestion log.
  pub run_reference_pipeline_lem :
      (history : Frame V) (live : List (ℕ × Dict String V)) (feature_group : String)
      (db : SqliteStore) (now : ℕ) (fs : FeatureStore fl lib)
      (f : Finished fl lib column_of np pd json render casts)
      → ((P : Feature → Type 0) (fs : List Feature) → All P fs → All P (lib.scan_features fs))
      → lib.tag_text.loads (lib.tag_text.dumps ("fraud" ∷ "streaming" ∷ []))
        ≡ "fraud" ∷ "streaming" ∷ []
      → (lib.tag_text.dumps ("fraud" ∷ "streaming" ∷ []) == "") ≡ false
      → run_reference_pipeline fl lib column_of np pd json render casts history live feature_group
          db now fs
        ≡ returned f
      → (f.result.report.n_samples ≡ length live)
        × (f.result.live_rows ≡ length live)
        × (f.result.reference_rows ≡ length history.rows)
        × (f.result.drift_detected ≡ ltb 0 (length (drifted_features fl np f.result.report)))
        × All (λ x. is_in Fraud.feature_names x ≡ true) (drifted_features fl np f.result.report)
        × (f.monitor.last_report ≡ some f.result.report)
        × (length f.monitor.store.predictions ≡ length db.predictions + length live)
        × (length f.features.registry.ingestion_log ≡ suc (length fs.registry.ingestion_log))
  unfolding run_reference_pipeline fraud_group
  run_reference_pipeline_lem history live feature_group db now fs f scan back filled h =
      let group = fraud_group feature_group in
      let registered = register fl lib group now fs in
      elim (Registered-cases registered.0) [
        | inr bad ↦ absurd (ground (arith, bad, h))
        | inl fine ↦ elim (Option-cases (project history)) [
          | inl cut ↦ absurd (ground (arith, fine, cut, h))
          | inr (df, cut) ↦ elim (Outcome-cases (ingest fl lib feature_group df now registered.1)) [
            | inl (e, refused) ↦ absurd (ground (arith, fine, cut, refused, h))
            | inr (((n, stats), ingested), taken) ↦
                let here = group_of-register fl lib group now fs back filled fine in
                let there =
                  ingest-group_of fl lib feature_group df now registered.1 (n, stats) ingested
                    taken in
                let (valid, clean, counted, logged, offline, online) =
                  ingest_lem fl lib feature_group df now n stats registered.1 ingested _ here
                    taken in
                let (samples, live_rows, rows, detected, names, last, stored, features, within) =
                  monitor_live_lem fl lib column_of np pd json render casts feature_group
                    (length history.rows) live db now ingested _ f (there ∙ here)
                    (ground (arith, fine, cut, taken, h)) in
                (
                  samples,
                  live_rows,
                  rows,
                  detected,
                  rw (← names) (
                      within (λ x. is_in Fraud.feature_names x ≡ true)
                        (fraud_names feature_group scan)),
                  last,
                  stored,
                  ap (λ (x : FeatureStore fl lib). length x.registry.ingestion_log) features
                      ∙ logged
                      ∙ ap (λ xs. suc (length xs)) (register-ingestion_log group now fs),
                )
          ]
        ]
      ]

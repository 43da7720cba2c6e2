-- ===== src/Pipeline/Monitored.antt =====
-- The part of the pipeline after the ingest: the monitor that is built and what it reports.
use ml_monitor.Prelude.{
  ℕ, ◌+◌, ◌≡◌, refl, ap, ◌∙◌, String, true, Option, none, some, List, [], ◌∷◌, map, length, ltb,
  All, arith, string_eq, eq_iff, ◌⊎◌, inl, inr, Floats,
}
use ml_monitor.Prelude.Dict.{Dict}
use ml_monitor.Features.Frame.{Row, is_in}
use ml_monitor.Features.Registry.{Group}
use ml_monitor.Features.Store.{FeatureStore, Libraries, group_of, feature_names, offline_read}
use ml_monitor.Monitoring.DataDrift.{Column, Numerics}
use ml_monitor.Monitoring.Window as Window
use ml_monitor.Monitoring.Window.{WindowManager}
use ml_monitor.Monitoring.Report.{drifted_features}
use ml_monitor.Monitoring.Store.{Json, SqliteStore}
use ml_monitor.Monitoring.Monitor.{Message}
use ml_monitor.Monitoring.Monitor.Drift.{Pandas, Monitor, init}
use ml_monitor.Monitoring.Monitor.Drift.Open.{drift_config, open_monitor}
use ml_monitor.Pipeline.Reference.{
  Reference, found, not_registered, no_offline_data, monitor_from_feature_store, select_columns,
}
use ml_monitor.Pipeline.{Casts, returned, Finished, score_live, monitor_live, window_for}
use ml_monitor.Pipeline.Live.{Run-cases, score_live_lem}

module _ (fl : Floats) {S V : Type 0} (lib : Libraries S V) (column_of : List (Option V) → Column V)
    (np : Numerics fl.Float V) (pd : Pandas fl.Float V) (json : Json V)
    (render : Message fl.Float → String) (casts : Casts V) where
  names-select_columns :
      (cols : List String) (rows : List (Row V))
      → map (λ x. x.0) (select_columns fl lib column_of cols rows) ≡ cols
  unfolding select_columns
  names-select_columns [] rows = refl
  names-select_columns (c ∷ cols) rows = ap (◌∷◌ c) (names-select_columns cols rows)

  Reference-cases :
      {A : Type 0} (r : Reference A)
      → ((a : A) × (r ≡ found a))
        ⊎ ((r ≡ not_registered) ⊎ ((names : List String) × (r ≡ no_offline_data names)))
  Reference-cases (found a) = inl (a, refl)
  Reference-cases not_registered = inr (inl refl)
  Reference-cases (no_offline_data names) = inr (inr (names, refl))

  monitor_from_feature_store_lem :
      (feature_group : String) (n : ℕ) (db : SqliteStore) (fs : FeatureStore fl lib) (g : Group)
      (m : Monitor fl np pd json render)
      → group_of fl lib feature_group fs ≡ some g
      → monitor_from_feature_store fl lib column_of np pd json render feature_group none
          (some (drift_config fl n))
          none
          db
          fs
        ≡ found m
      → (m.reference_data
          ≡ some (
              select_columns fl lib column_of
                (feature_names g)
                (offline_read fl lib feature_group fs)))
        × (m.window ≡ Window.init n)
        × (m.store.predictions ≡ db.predictions)
  unfolding monitor_from_feature_store open_monitor init
  monitor_from_feature_store_lem feature_group n db fs g m known h = ground (arith, known, h)

  pub is_in_self : (xs : List String) → All (λ x. is_in xs x ≡ true) xs
  is_in_self xs = go xs xs (λ x h. h)
    where
      go :
          (all xs : List String)
          → ((x : String) → is_in xs x ≡ true → is_in all x ≡ true)
          → All (λ x. is_in all x ≡ true) xs
      go all [] h = tt
      go all (x ∷ xs) h =
          (h x (ground (arith, eq_iff x x)), go all xs (λ y k. h y (ground (arith, k))))

  pub monitor_live_lem :
      (feature_group : String) (rows : ℕ) (live : List (ℕ × Dict String V)) (db : SqliteStore)
      (now : ℕ) (fs : FeatureStore fl lib) (g : Group)
      (f : Finished fl lib column_of np pd json render casts)
      → group_of fl lib feature_group fs ≡ some g
      → monitor_live fl lib column_of np pd json render casts feature_group rows live db now fs
        ≡ returned f
      → (f.result.report.n_samples ≡ length live)
        × (f.result.live_rows ≡ length live)
        × (f.result.reference_rows ≡ rows)
        × (f.result.drift_detected ≡ ltb 0 (length (drifted_features fl np f.result.report)))
        × (f.result.drifted_features ≡ drifted_features fl np f.result.report)
        × (f.monitor.last_report ≡ some f.result.report)
        × (length f.monitor.store.predictions ≡ length db.predictions + length live)
        × (f.features ≡ fs)
        × ((P : String → Type 0) → All P (feature_names g) → All P f.result.drifted_features)
  unfolding monitor_live
  monitor_live_lem feature_group rows live db now fs g f known h =
      elim (Reference-cases (
        monitor_from_feature_store fl lib column_of np pd json render feature_group none
          (some (drift_config fl (window_for fl lib column_of np pd json render casts live))) none
          db fs)) [
            | inr (inl unknown) ↦ absurd (ground (arith, unknown, h))
            | inr (inr (names, absent)) ↦ absurd (ground (arith, absent, h))
            | inl (m, built) ↦
                elim (Run-cases (score_live fl lib column_of np pd json render casts live now m)) [
                  | inl (e, broken) ↦ absurd (ground (arith, built, broken, h))
                  | inr ((report, effects, m'), scored) ↦
                      let (reference, fresh, db') =
                        monitor_from_feature_store_lem feature_group _ db fs g m known built in
                      let cols = feature_names g in
                      let stored_rows = offline_read fl lib feature_group fs in
                      let (samples, last, stored, within) =
                        score_live_lem fl lib column_of np pd json render casts live now _ m m'
                          report effects fresh (ground arith) scored in
                      let drifted = drifted_features fl np report in
                      let finished : Finished fl lib column_of np pd json render casts = record {
                        result = record {
                          feature_group = feature_group;
                          reference_rows = rows;
                          live_rows = length live;
                          drifted_features = drifted;
                          drift_detected = ltb 0 (length drifted);
                          report = report;
                        };
                        effects = effects;
                        features = fs;
                        monitor = m';
                      } in
                      let e : finished ≡ f = ground (arith, built, scored, h) in
                      rw (← e) (
                        samples,
                        refl,
                        refl,
                        refl,
                        refl,
                        last,
                        stored ∙ ap (λ rows. length rows + length live) db',
                        refl,
                        λ P all.
                            within P (select_columns fl lib column_of cols stored_rows) reference
                              (rw (names-select_columns cols stored_rows) all),
                      )
                ]
          ]

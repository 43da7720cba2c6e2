-- ===== src/Fraud/Registry/Laws.antt =====
-- A registration of a model is inert, and its promotion is what deploys it.
use ml_monitor.Prelude.{
  String, ◌<>◌, Bool, ◌==◌, ◌||◌, true, false, List, [], ◌∷◌, ◌≡◌, refl, arith, string_eq, inl, inr,
  List-cases,
}
use mathlib.Core.List.{Memᴰ}
use ml_monitor.Prelude.Dict.{Dict}
use ml_monitor.Fraud.Registry.{
  Saved, ReferenceRow, Artifact, bundle_file, reference_file, Mlflow, Config, loaded,
  registry_enabled, ends_with, joblib_load, load_artifacts, load_bundle, promote,
}

-- The stages of MLflow that models are served from. A registered version starts in none of them.
abbrev pub is_active : String → Bool
is_active stage = (stage == "Staging") || (stage == "Production")

-- What MLflow documents of its calls: a registered version is new, is at no active stage and has the
-- artifacts of its run, and the other artifacts stay; a transition to an active stage that archives
-- leaves the version alone there, and artifacts as they are.
pub record MlflowLaws {Float : Type 0} (ml : Mlflow Float) : Type 0 where
  pub register_unstaged :
      (files : List (String × Artifact Float)) (stage : String) (s : ml.State)
      → is_active stage ≡ true
      → ml.get_latest_versions stage (ml.register_model files s).1 ≡ ml.get_latest_versions stage s
  pub register_keeps :
      (files : List (String × Artifact Float)) (stage : String) (s : ml.State)
      (v : ml.Version × ml.Source) (older : List (ml.Version × ml.Source))
      → ml.get_latest_versions stage s ≡ v ∷ older
      → ml.download_artifacts v.1 (ml.register_model files s).1 ≡ ml.download_artifacts v.1 s
  pub register_stores :
      (files : List (String × Artifact Float)) (s : ml.State)
      → ml.download_artifacts (ml.register_model files s).0.1 (ml.register_model files s).1 ≡ files
  pub register_listed :
      (files : List (String × Artifact Float)) (s : ml.State)
      → Memᴰ (ml.register_model files s).0 (ml.search_model_versions (ml.register_model files s).1)
  pub transition_moves :
      (v : ml.Version × ml.Source) (stage : String) (s : ml.State)
      → is_active stage ≡ true
      → Memᴰ v (ml.search_model_versions s)
      → ml.get_latest_versions stage (ml.transition_model_version_stage v.0 stage true s) ≡ v ∷ []
  pub transition_keeps :
      (v : ml.Version) (source : ml.Source) (stage : String) (s : ml.State)
      → is_active stage ≡ true
      → ml.download_artifacts source (ml.transition_model_version_stage v stage true s)
        ≡ ml.download_artifacts source s

module _ {Float : Type 0} (ml : Mlflow Float) (laws : MlflowLaws ml) where
  -- The artifacts that a training run logs.
  abbrev pub run_files :
      String → Saved Float → List (ReferenceRow Float) → List (String × Artifact Float)
  run_files name saved reference =
      (name, bundle_file saved) ∷ ("reference.csv", reference_file reference) ∷ []

  csv-ends_with : ends_with ".joblib" "reference.csv" ≡ false
  unfolding ends_with
  csv-ends_with = refl

  load_artifacts-run_files :
      (cfg : Config Float) (version : ml.Version) (name : String) (saved : Saved Float)
      (reference : List (ReferenceRow Float))
      → ends_with ".joblib" name ≡ true
      → load_artifacts ml cfg version (run_files name saved reference)
        ≡ loaded (
          saved,
          ml.text version,
          "registry:" <> (cfg.model_registry_stage <> (":" <> ml.text version)),
        )
  unfolding load_artifacts joblib_load
  load_artifacts-run_files cfg version name saved reference h = ground (arith, h, csv-ends_with)

  pub load_bundle-register :
      (cfg : Config Float) (disk : Dict String (Saved Float))
      (files : List (String × Artifact Float)) (s : ml.State)
      → is_active cfg.model_registry_stage ≡ true
      → load_bundle ml cfg disk (ml.register_model files s).1 ≡ load_bundle ml cfg disk s
  unfolding load_bundle
  load_bundle-register cfg disk files s active =
      let same = laws.register_unstaged files cfg.model_registry_stage s active in
      elim (List-cases (ml.get_latest_versions cfg.model_registry_stage s)) [
        | inl nothing ↦ ground (arith, same, nothing)
        | inr (v, older, found) ↦
            ground (
              arith,
              same,
              found,
              laws.register_keeps files cfg.model_registry_stage s v older found,
            )
      ]

  pub load_bundle-promote :
      (cfg : Config Float) (disk : Dict String (Saved Float)) (name : String) (saved : Saved Float)
      (reference : List (ReferenceRow Float)) (s : ml.State)
      → is_active cfg.model_registry_stage ≡ true
      → registry_enabled cfg ≡ true
      → ends_with ".joblib" name ≡ true
      → let registered = ml.register_model (run_files name saved reference) s in
        let v = ml.text registered.0.0 in
        load_bundle ml cfg disk
          (promote ml registered.0.0 cfg.model_registry_stage true registered.1)
        ≡ loaded (saved, v, "registry:" <> (cfg.model_registry_stage <> (":" <> v)))
  unfolding load_bundle promote
  load_bundle-promote cfg disk name saved reference s active on suffix =
      let files = run_files name saved reference in
      let registered = ml.register_model files s in
      let listed =
        laws.transition_moves registered.0 cfg.model_registry_stage registered.1 active
          (laws.register_listed files s) in
      let kept =
        laws.transition_keeps registered.0.0 registered.0.1 cfg.model_registry_stage registered.1
          active in
      ground (
        arith,
        on,
        listed,
        kept,
        laws.register_stores files s,
        load_artifacts-run_files cfg registered.0.0 name saved reference suffix,
      )

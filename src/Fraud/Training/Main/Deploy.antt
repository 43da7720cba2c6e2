-- ===== src/Fraud/Training/Main/Deploy.antt =====
-- How a registered training becomes the model that the scorers load.
use ml_monitor.Prelude.{String, ◌<>◌, Bool, true, List, ◌≡◌, Floats, string_eq}
use ml_monitor.Prelude.Dict.{Dict}
use ml_monitor.Fraud.Registry.{
  Saved, ReferenceRow, Mlflow, Config, loaded, registry_enabled, ends_with, load_bundle, promote,
}
use ml_monitor.Fraud.Registry.Laws.{
  MlflowLaws, is_active, run_files, load_bundle-register, load_bundle-promote,
}
use ml_monitor.Fraud.Training.Main.{Args, Learning, log_to_mlflow}

module _ (fl : Floats) where
  open fl use {Float}

  -- With MLflow as it documents itself, a registry in use whose stage is Staging or Production, and an
  -- output name that ends in .joblib: the
  -- registration of a training changes nothing of what a scorer loads, and after the promotion of the
  -- registered version to the stage of the scorers, with the older ones archived, they load exactly its
  -- bundle, under its version.
  pub load_bundle-log_to_mlflow :
      (ml : Mlflow Float)
      → MlflowLaws ml
      → (ln : Learning Float) (lt_text : String → String → Bool) (cfg : Config Float)
        (disk : Dict String (Saved Float)) (args : Args Float) (saved : Saved Float)
        (reference : List (ReferenceRow Float)) (s : ml.State)
      → is_active cfg.model_registry_stage ≡ true
      → registry_enabled cfg ≡ true
      → ends_with ".joblib" args.out_name ≡ true
      → let (registered, after) = log_to_mlflow fl ml ln lt_text args saved reference s in
        let v = ml.text registered.0 in
        (load_bundle ml cfg disk after ≡ load_bundle ml cfg disk s)
        × (load_bundle ml cfg disk (promote ml registered.0 cfg.model_registry_stage true after)
            ≡ loaded (saved, v, "registry:" <> (cfg.model_registry_stage <> (":" <> v))))
  unfolding log_to_mlflow
  load_bundle-log_to_mlflow ml laws ln lt_text cfg disk args saved reference s active on suffix = (
    load_bundle-register ml laws cfg disk (run_files ml laws args.out_name saved reference) s
        active,
    load_bundle-promote ml laws cfg disk args.out_name saved reference s active on suffix,
  )

-- ===== src/Fraud/Training/Main/Laws.antt =====
-- The drift reference that training writes is what the scorer that loads its bundle computes.
use ml_monitor.Prelude.{
  ℕ, String, ◌<>◌, Bool, false, Option, none, some, List, map, ◌≡◌, refl, ap, ◌∙◌, arith, string_eq,
  eq_iff, if◌then◌else◌, Option-cases, inl, inr, Floats, ltb,
}
use ml_monitor.Prelude.Dict.{Dict, get, put, get-put}
use ml_monitor.Prelude.Sorting.{sort_by}
use ml_monitor.Fraud.Scorer.{assess}
use ml_monitor.Fraud.Registry.{
  Saved, ReferenceRow, Mlflow, Config, loaded, registry_enabled, load_bundle, load_file,
  open_scorer,
}
use ml_monitor.Fraud.Training.{build_feature_matrix}
use ml_monitor.Fraud.Training.Main.{
  Args, DataRow, Split, Learning, Exit, finished, key_error, value_error, needs_tracking_uri,
  amount_of, ensemble_of, reference_rows, count_of, main, out_path, bundle_of, write_out, train,
  Files,
}
use ml_monitor.Fraud.Training.Main.Reference.{
  reference_rows-IsReference, assess-open_scorer, ensemble_of-bundle_of, blend,
}

module _ (fl : Floats) where
  open fl use {Float, round, ratio, neg, mul}

  -- The files that a run leaves, SystemExit included.
  abbrev pub files_of : {A : Type 0} → Exit A → Option A
  files_of (finished a) = some a
  files_of (needs_tracking_uri a) = some a
  files_of key_error = none
  files_of value_error = none

  module _ (ml : Mlflow Float) (ln : Learning Float) (lt_text : String → String → Bool) where
    write_out_lem :
        (cfg : Config Float) (args : Args Float) (bundle : Saved Float)
        (reference : List (ReferenceRow Float)) (d d' : Files fl ml ln lt_text)
        → files_of (write_out fl ml ln lt_text cfg args bundle reference d) ≡ some d'
        → (d'.bundles ≡ put (out_path fl ml ln lt_text args) bundle d.bundles)
          × (d'.references ≡ put (args.out_dir <> "/reference.csv") reference d.references)
    unfolding write_out
    write_out_lem cfg args bundle reference d d' h = (ground (arith, h), ground (arith, h))

    -- A scorer's environment that reads the file that the training wrote, and not MLflow.
    abbrev pub Reads : Config Float → Args Float → Type 0
    Reads cfg args =
        (registry_enabled cfg ≡ false) × (cfg.model_path ≡ out_path fl ml ln lt_text args)

    load_bundle-put :
        (cfg : Config Float) (args : Args Float) (saved : Saved Float) (version : String)
        (disk : Dict String (Saved Float)) (s : ml.State)
        → Reads cfg args
        → saved.version ≡ some version
        → load_bundle ml cfg (put (out_path fl ml ln lt_text args) saved disk) s
          ≡ loaded (saved, version, "file:" <> cfg.model_path)
    unfolding load_bundle load_file
    load_bundle-put cfg args saved version disk s (off, same) known = ground (
      arith,
      off,
      same,
      known,
      get-put (out_path fl ml ln lt_text args) cfg.model_path saved disk,
      eq_iff (out_path fl ml ln lt_text args) cfg.model_path,
    )

    version-bundle_of :
        (cfg : Config Float) (args : Args Float) (xgb iso : List Float → Float)
        (scaler : Float → Float)
        → (bundle_of fl ml ln lt_text cfg args xgb iso scaler).version ≡ some cfg.model_version
    unfolding bundle_of
    version-bundle_of cfg args xgb iso scaler = refl

    get-put_same :
        {A : Type 0} (k : String) (a : A) (dict : Dict String A) → get k (put k a dict) ≡ some a
    get-put_same k a dict = ground (arith, get-put k k a dict, eq_iff k k)

    -- What a training leaves and what a scorer makes of it, for the split of its data.
    abbrev pub Consistent :
        ((List Float → Float) → List Float → List Float)
        → Config Float
        → Config Float
        → Args Float
        → Split Float
        → ml.State
        → Files fl ml ln lt_text
        → Type 0
    Consistent explain cfg cfg' args split s d =
        (saved : Saved Float) × (reference : List (ReferenceRow Float)) × (load_bundle ml cfg'
            d.bundles s
          ≡ loaded (saved, cfg.model_version, "file:" <> cfg'.model_path))
        × (get (args.out_dir <> "/reference.csv") d.references ≡ some reference)
        × (map (λ (r : ReferenceRow Float). r.fraud_score) reference
            ≡ map (blend fl ln.mul32 args.xgb_weight saved) split.x_test)
        × ((x : List Float)
            → (assess fl (open_scorer explain cfg' saved) x).fraud_score
              ≡ round (blend fl mul args.xgb_weight saved x) 4)
        × (map (λ (r : ReferenceRow Float). r.is_fraud) reference ≡ split.y_test)
        × (map (λ (r : ReferenceRow Float). some r.amount) reference ≡ map amount_of split.x_test)

    train-Consistent :
        (explain : (List Float → Float) → List Float → List Float) (cfg cfg' : Config Float)
        (args : Args Float) (split : Split Float) (s : ml.State) (d d' : Files fl ml ln lt_text)
        → Reads cfg' args
        → files_of (train fl ml ln lt_text cfg args split d) ≡ some d'
        → Consistent explain cfg cfg' args split s d'
    unfolding train
    train-Consistent explain cfg cfg' args split s d d' reads h =
        let frauds = count_of 1 split.y_train in
        let weight = ratio (count_of 0 split.y_train) (if ltb frauds 1 then 1 else frauds) in
        elim (Option-cases (ln.fit_xgb args weight split.x_train split.y_train)) [
          | inl refused ↦ absurd (ground (arith, refused, h))
          | inr (xgb, fitted) ↦
              let iso = ln.fit_iso args split.x_train in
              let scaler = ln.fit_scaler (map (λ row. neg (iso row)) split.x_train) in
              let ensemble = ensemble_of fl ln args.xgb_weight xgb iso scaler in
              let saved = bundle_of fl ml ln lt_text cfg args xgb iso scaler in
              elim (Option-cases
                (reference_rows fl split.x_test (map ensemble split.x_test) split.y_test)) [
                  | inl bad ↦ absurd (ground (arith, fitted, bad, h))
                  | inr (reference, good) ↦
                      let written : files_of (write_out fl ml ln lt_text cfg args saved reference d)
                          ≡ some d' =
                        ground (arith, fitted, good, h) in
                      let (bundles, references) =
                        write_out_lem cfg args saved reference d d' written in
                      let (scores, labels, amounts) =
                        reference_rows-IsReference fl split.x_test (map ensemble split.x_test)
                          split.y_test reference good in
                      (
                        saved,
                        reference,
                        ap (λ disk. load_bundle ml cfg' disk s) bundles
                            ∙ load_bundle-put cfg' args saved cfg.model_version d.bundles s reads
                                (version-bundle_of cfg args xgb iso scaler),
                        ap (get (args.out_dir <> "/reference.csv")) references
                            ∙ get-put_same (args.out_dir <> "/reference.csv") reference
                                d.references,
                        scores
                            ∙ ensemble_of-bundle_of fl cfg args ml ln lt_text xgb iso scaler
                                split.x_test,
                        assess-open_scorer fl cfg args ml ln lt_text xgb iso scaler explain cfg',
                        labels,
                        amounts,
                      )
                ]
        ]

    -- A training that leaves its files, with or without a registration, fixes the model and the reference
    -- together: a scorer that reads the file, whatever the defaults of its environment and of its SHAP
    -- explainer, loads the model with the version of the training; and reference.csv has one row for each
    -- row of the test split, with its amount, its label, and the weighted sum of what the estimators of the bundle
    -- give its features, with the weight of the training and its float32 product. The scorer gives any
    -- features the same weighted sum, rounded to four digits, but with the product of its own floats.
    pub main-Consistent :
        (explain : (List Float → Float) → List Float → List Float) (cfg cfg' : Config Float)
        (args : Args Float) (history : List (DataRow Float)) (s : ml.State)
        (d d' : Files fl ml ln lt_text)
        → Reads cfg' args
        → files_of (main fl ml ln lt_text cfg args history d) ≡ some d'
        → (x : List (List Float)) × (y : List ℕ) × (split : Split Float) × (build_feature_matrix fl
              (map
                (λ (r : DataRow Float). (r.transaction, r.label))
                (sort_by (λ (a b : DataRow Float). lt_text a.timestamp b.timestamp) history))
            ≡ some (x, y))
          × (ln.train_test_split x y ≡ some split)
          × Consistent explain cfg cfg' args split s d'
    unfolding main
    main-Consistent explain cfg cfg' args history s d d' reads h =
        let rows = sort_by (λ (x y : DataRow Float). lt_text x.timestamp y.timestamp) history in
        elim (Option-cases
          (build_feature_matrix fl (map (λ (r : DataRow Float). (r.transaction, r.label)) rows))) [
            | inl bad ↦ absurd (ground (arith, bad, h))
            | inr ((x, y), built) ↦ elim (Option-cases (ln.train_test_split x y)) [
              | inl refused ↦ absurd (ground (arith, built, refused, h))
              | inr (split, parts) ↦ (
                x,
                y,
                split,
                built,
                parts,
                train-Consistent explain cfg cfg' args split s d d' reads
                    (ground (arith, built, parts, h)),
              )
            ]
          ]

-- ===== src/Fraud/Training/Main.antt =====
-- src/ml_platform/fraud/training/train.py: `main` after its arguments are parsed, and `_log_to_mlflow`.
-- The splits and the fits of sklearn and xgboost are an interface; the printed metrics are left out.
pub mod Reference
pub mod Laws
pub mod Deploy
mod Tests
use ml_monitor.Prelude.{
  ℕ, suc, String, ◌<>◌, Bool, true, false, Option, none, some, List, [], ◌∷◌, map, length, ltb,
  ◌==◌, nat_eq, string_eq, if◌then◌else◌, select, get_elem?, Floats,
}
use ml_monitor.Prelude.Dict.{Dict, put}
use ml_monitor.Prelude.Sorting.{sort_by}
use ml_monitor.Fraud.Features.{Transaction, feature_names, index}
use ml_monitor.Fraud.Training.{build_feature_matrix}
use ml_monitor.Fraud.Registry.{
  Saved, ReferenceRow, Artifact, bundle_file, reference_file, Mlflow, Config, registry_enabled,
}

-- The command line.
pub record Args (Float : Type 0) : Type 0 where
  pub out_dir : String
  pub out_name : String
  pub n_estimators : ℕ
  pub max_depth : ℕ
  pub learning_rate : Float
  pub contamination : Float
  pub xgb_weight : Float
  pub threshold : Float
  pub register : Bool

-- A row of the data file: its timestamp, its transaction and its label.
pub record DataRow (Float : Type 0) : Type 0 where
  pub timestamp : String
  pub transaction : Transaction Float
  pub label : ℕ

-- The parts of `train_test_split`.
pub record Split (Float : Type 0) : Type 0 where
  pub x_train : List (List Float)
  pub x_test : List (List Float)
  pub y_train : List ℕ
  pub y_test : List ℕ

-- A fitted estimator answers row by row; `none` is a ValueError.
pub record Learning (Float : Type 0) : Type 0 where
  pub train_test_split : List (List Float) → List ℕ → Option (Split Float)
  pub fit_xgb : Args Float → Float → List (List Float) → List ℕ → Option (List Float → Float)
  pub fit_iso : Args Float → List (List Float) → List Float → Float
  pub fit_scaler : List Float → Float → Float
  -- The weight times a float32 of `predict_proba`, which numpy rounds to a float32.
  pub mul32 : Float → Float → Float

-- What training leaves: the files by their paths, and the state of MLflow.
pub record Disk (Float State : Type 0) : Type 0 where
  pub bundles : Dict String (Saved Float)
  pub references : Dict String (List (ReferenceRow Float))
  pub mlflow : State

pub data Exit (A : Type 0) : Type 0 where
  finished : A → Exit A
  key_error value_error : Exit A
  -- `SystemExit`, after the files are written
  needs_tracking_uri : A → Exit A

unfoldable pub count_of : ℕ → List ℕ → ℕ
count_of k ys = length (select (λ y. y == k) ys)

-- `X_test[:, FEATURE_NAMES.index("amount")]`, of one row.
unfoldable pub amount_of : {Float : Type 0} → List Float → Option Float
unfolding index
amount_of row = elim (index "amount" feature_names) [ none ↦ none | some i ↦ get_elem? row i ]

module _ (fl : Floats) where
  open fl use {Float, ratio, add, sub, mul, neg}

  -- One element of `ensemble`.
  unfoldable pub ensemble_of :
      Learning Float
      → Float
      → (List Float → Float)
      → (List Float → Float)
      → (Float → Float)
      → List Float
      → Float
  ensemble_of ln xgb_weight xgb iso iso_scaler row =
      let xgb_proba = xgb row in
      let iso_score = iso_scaler (neg (iso row)) in
      add (ln.mul32 xgb_weight xgb_proba) (mul (sub (ratio 1 1) xgb_weight) iso_score)

  -- The frame of the reference; `none` is an index or a length that does not fit.
  unfoldable pub reference_rows :
      List (List Float) → List Float → List ℕ → Option (List (ReferenceRow Float))
  unfolding amount_of
  reference_rows [] [] [] = some []
  reference_rows (row ∷ rows) (score ∷ scores) (label ∷ labels) =
      let rest = reference_rows rows scores labels in
      elim (amount_of row) [
        | none ↦ none
        | some amount ↦ elim rest [
          | none ↦ none
          | some more ↦
              some (record { amount = amount; fraud_score = score; is_fraud = label } ∷ more)
        ]
      ]
  reference_rows [] [] (label ∷ labels) = none
  reference_rows [] (score ∷ scores) labels = none
  reference_rows (row ∷ rows) [] labels = none
  reference_rows (row ∷ rows) (score ∷ scores) [] = none

  module _ (ml : Mlflow Float) (ln : Learning Float) (lt_text : String → String → Bool) where
    abbrev pub Files : Type 0
    Files = Disk Float ml.State

    -- A bare name is below the directory ".".
    unfoldable pub out_path : Args Float → String
    out_path args = args.out_dir <> ("/" <> args.out_name)

    -- The run with its two artifacts, registered with no stage.
    unfoldable pub log_to_mlflow :
        Args Float
        → Saved Float
        → List (ReferenceRow Float)
        → ml.State
        → (ml.Version × ml.Source) × ml.State
    log_to_mlflow args bundle reference s =
        ml.register_model
          ((args.out_name, bundle_file bundle) ∷ ("reference.csv", reference_file reference) ∷ []) s

    unfoldable pub bundle_of :
        Config Float
        → Args Float
        → (List Float → Float)
        → (List Float → Float)
        → (Float → Float)
        → Saved Float
    bundle_of cfg args xgb iso iso_scaler = record {
      predict_proba = xgb;
      score_samples = iso;
      transform = iso_scaler;
      version = some cfg.model_version;
      xgb_weight = some args.xgb_weight;
      threshold = some args.threshold;
    }

    -- The writes, and the registration if it is asked for.
    unfoldable pub write_out :
        Config Float → Args Float → Saved Float → List (ReferenceRow Float) → Files → Exit Files
    unfolding out_path log_to_mlflow
    write_out cfg args bundle reference d =
        let d' : Files = record {
          bundles = put (out_path args) bundle d.bundles;
          references = put (args.out_dir <> "/reference.csv") reference d.references;
          mlflow = d.mlflow;
        } in
        if args.register
        then if registry_enabled cfg
          then finished (record d' { mlflow = (log_to_mlflow args bundle reference d.mlflow).1 })
          else needs_tracking_uri d'
        else finished d'

    -- From the matrix on.
    unfoldable pub train : Config Float → Args Float → Split Float → Files → Exit Files
    unfolding bundle_of write_out ensemble_of reference_rows count_of
    train cfg args split d =
        let frauds = count_of 1 split.y_train in
        let scale_pos_weight =
          ratio (count_of 0 split.y_train) (if ltb frauds 1 then 1 else frauds) in
        elim (ln.fit_xgb args scale_pos_weight split.x_train split.y_train) [
          | none ↦ value_error
          | some xgb ↦
              let iso = ln.fit_iso args split.x_train in
              let iso_scaler = ln.fit_scaler (map (λ row. neg (iso row)) split.x_train) in
              let ensemble = map (ensemble_of ln args.xgb_weight xgb iso iso_scaler) split.x_test in
              elim (reference_rows split.x_test ensemble split.y_test) [
                | none ↦ value_error
                | some reference ↦
                    write_out cfg args (bundle_of cfg args xgb iso iso_scaler) reference d
              ]
        ]

    unfoldable pub main : Config Float → Args Float → List (DataRow Float) → Files → Exit Files
    unfolding train build_feature_matrix
    main cfg args history d =
        let rows = sort_by (λ (x y : DataRow Float). lt_text x.timestamp y.timestamp) history in
        elim (build_feature_matrix fl
          (map (λ (r : DataRow Float). (r.transaction, r.label)) rows)) [
            | none ↦ key_error
            | some (x, y) ↦ elim (ln.train_test_split x y) [
              | none ↦ value_error
              | some split ↦ train cfg args split d
            ]
          ]

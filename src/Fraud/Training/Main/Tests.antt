-- ===== src/Fraud/Training/Main/Tests.antt =====
-- The theorems on training and deployment, each applied to concrete values.
use ml_monitor.Prelude.{
  ℕ, true, false, Option, none, some, List, [], ◌∷◌, map, ◌≡◌, refl, string_eq,
}
use ml_monitor.Prelude.Dict.{get}
use ml_monitor.Prelude.Sorting.{sort_by}
use ml_monitor.Samples.Fixed.{Fixed, fixed, fixed_ratio}
use ml_monitor.Samples.Tracking.{mlflow, mlflow_laws}
use ml_monitor.Fraud.Features.{Transaction, compute_features, features_to_vector}
use ml_monitor.Fraud.Registry.{
  Saved, Config, loaded, registry_enabled, ends_with, load_bundle, promote,
}
use ml_monitor.Fraud.Training.{build_feature_matrix}
use ml_monitor.Fraud.Training.Main.{
  Args, DataRow, Split, Learning, Files, main, out_path, log_to_mlflow,
}
use ml_monitor.Fraud.Training.Main.Laws.{Consistent, files_of, main-Consistent}
use ml_monitor.Fraud.Training.Main.Deploy.{load_bundle-log_to_mlflow}

abbrev args : Args Fixed
args = record {
  out_dir = "out";
  out_name = "m.joblib";
  n_estimators = 2;
  max_depth = 2;
  learning_rate = fixed_ratio 1 10;
  contamination = fixed_ratio 1 50;
  xgb_weight = fixed_ratio 1 2;
  threshold = fixed_ratio 1 2;
  register = false;
}

abbrev trained_with : Config Fixed
trained_with = record {
  mlflow_tracking_uri = "";
  model_path = "out/m.joblib";
  model_version = "v1";
  model_registry_stage = "Production";
  xgb_weight_default = fixed_ratio 7 10;
  threshold_default = fixed_ratio 7 10;
}

abbrev served_with : Config Fixed
served_with = record trained_with { model_version = "v2"; xgb_weight_default = fixed_ratio 1 1 }

abbrev learning : Learning Fixed
learning = record {
  train_test_split = λ x y. some (record { x_train = x; x_test = x; y_train = y; y_test = y });
  fit_xgb = λ args weight x y. some (λ row. fixed_ratio 1 2);
  fit_iso = λ args x row. fixed_ratio 1 4;
  fit_scaler = λ raw value. value;
  mul32 = fixed.mul;
}

abbrev tx : ℕ → Transaction Fixed
tx n = record {
  user_id = "u";
  amount = fixed_ratio n 1;
  hour = 3;
  user_age_days = 9;
  merchant_category = "grocery";
  device_id = "d";
}

abbrev history : List (DataRow Fixed)
history =
    record { timestamp = "2"; transaction = tx 5; label = 0 }
    ∷ record { timestamp = "1"; transaction = tx 4; label = 1 }
    ∷ []

abbrev disk : Files fixed mlflow learning (λ a b. false)
disk = record { bundles = []; references = []; mlflow = [] }

abbrev IsSome : {A : Type 0} → Option A → Type 0
IsSome none = ⊥
IsSome (some a) = Unit

abbrev value_of : {A : Type 0} (x : Option A) → IsSome x → A
value_of none h = absurd h
value_of (some a) h = a

value_of_lem : {A : Type 0} (x : Option A) (h : IsSome x) → x ≡ some (value_of x h)
value_of_lem none h = absurd h
value_of_lem (some a) h = refl

abbrev run : Option (Files fixed mlflow learning (λ a b. false))
run = files_of fixed (main fixed mlflow learning (λ a b. false) trained_with args history disk)

run-IsSome : IsSome run
unfolding main sort_by features_to_vector get compute_features
run-IsSome = tt

left : Files fixed mlflow learning (λ a b. false)
left = value_of run run-IsSome

run-left : run ≡ some left
unfolding left
run-left = value_of_lem run run-IsSome

main-Consistent_example :
    (x : List (List Fixed)) × (y : List ℕ) × (split : Split Fixed) × (build_feature_matrix fixed (
        map
          (λ (r : DataRow Fixed). (r.transaction, r.label))
          (sort_by (λ (a b : DataRow Fixed). false) history))
      ≡ some (x, y))
    × (learning.train_test_split x y ≡ some split)
    × Consistent fixed mlflow learning
        (λ a b. false)
        (λ model row. row)
        trained_with
        served_with
        args
        split
        []
        left
unfolding registry_enabled out_path
main-Consistent_example =
    main-Consistent fixed mlflow learning (λ a b. false) (λ model row. row) trained_with served_with
      args history [] disk left (refl, refl) run-left

abbrev tracked : Config Fixed
tracked = record trained_with { mlflow_tracking_uri = "http://mlflow" }

abbrev saved : Saved Fixed
saved = record {
  predict_proba = λ row. fixed_ratio 1 2;
  score_samples = λ row. fixed_ratio 1 4;
  transform = λ value. value;
  version = some "v1";
  xgb_weight = some (fixed_ratio 1 2);
  threshold = some (fixed_ratio 1 2);
}

load_bundle-log_to_mlflow_example :
    let (registered, after) = log_to_mlflow fixed mlflow learning (λ a b. false) args saved [] [] in
    (load_bundle mlflow tracked [] after ≡ load_bundle mlflow tracked [] [])
    × (load_bundle mlflow tracked [] (promote mlflow registered.0 "Production" true after)
        ≡ loaded (saved, "1", "registry:Production:1"))
unfolding ends_with registry_enabled
load_bundle-log_to_mlflow_example =
    load_bundle-log_to_mlflow fixed mlflow mlflow_laws learning (λ a b. false) tracked [] args saved
      [] [] refl refl refl

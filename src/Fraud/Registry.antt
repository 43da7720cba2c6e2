-- ===== src/Fraud/Registry.antt =====
-- src/ml_platform/fraud/common/registry.py, and the constructor of FraudScorer in scorer/model.py: which
-- model a scorer loads. MLflow is an interface; what joblib writes is the value that it was given.
pub mod Laws
use Prim.Native.String as Text
use ml_monitor.Prelude.{
  ℕ, String, ◌<>◌, Bool, true, false, Option, none, some, List, [], ◌∷◌, ◌==◌, string_eq,
  if◌then◌else◌, select,
}
use ml_monitor.Prelude.Dict.{Dict, get}
use ml_monitor.Fraud.Scorer.{Bundle}

-- The dict that training saves. An old one may lack the last three keys.
pub record Saved (Float : Type 0) : Type 0 where
  pub predict_proba : List Float → Float
  pub score_samples : List Float → Float
  pub transform : Float → Float
  pub version : Option String
  pub xgb_weight : Option Float
  pub threshold : Option Float

-- A row of reference.csv.
pub record ReferenceRow (Float : Type 0) : Type 0 where
  pub amount : Float
  pub fraud_score : Float
  pub is_fraud : ℕ

pub data Artifact (Float : Type 0) : Type 0 where
  bundle_file : Saved Float → Artifact Float
  reference_file : List (ReferenceRow Float) → Artifact Float

-- The calls of MLflow for one model name. `register_model` stands for a run with its artifacts.
pub record Mlflow (Float : Type 0) : Type 1 where
  pub State : Type 0
  pub Version : Type 0
  pub Source : Type 0
  pub text : Version → String
  pub register_model : List (String × Artifact Float) → State → (Version × Source) × State
  pub search_model_versions : State → List (Version × Source)
  pub get_latest_versions : String → State → List (Version × Source)
  pub download_artifacts : Source → State → List (String × Artifact Float)
  pub transition_model_version_stage : Version → String → Bool → State → State

-- The environment: MODEL_VERSION and the rest of common/config.py.
pub record Config (Float : Type 0) : Type 0 where
  pub mlflow_tracking_uri : String
  pub model_path : String
  pub model_version : String
  pub model_registry_stage : String
  pub xgb_weight_default : Float
  pub threshold_default : Float

pub data Load (A : Type 0) : Type 0 where
  loaded : A → Load A
  file_not_found no_model several_artifacts not_a_bundle : Load A

-- A test of the suffix, as the pattern `*.joblib` makes it.
unfoldable pub ends_with : String → String → Bool
ends_with suffix Text.[] = suffix == Text.[]
ends_with suffix (Text.◌∷◌ c rest) =
    let further = ends_with suffix rest in if suffix == Text.◌∷◌ c rest then true else further

unfoldable pub registry_enabled : {Float : Type 0} → Config Float → Bool
registry_enabled cfg = if cfg.mlflow_tracking_uri == "" then false else true

unfoldable pub joblib_load : {Float : Type 0} → Artifact Float → Load (Saved Float)
joblib_load (bundle_file saved) = loaded saved
joblib_load (reference_file rows) = not_a_bundle

module _ {Float : Type 0} (ml : Mlflow Float) where
  -- The bundle, the version and the source.
  abbrev pub Model : Type 0
  Model = Saved Float × String × String

  unfoldable pub load_file : Config Float → Dict String (Saved Float) → Load Model
  load_file cfg disk = elim (get cfg.model_path disk) [
    | none ↦ file_not_found
    | some saved ↦
        let version : String = elim saved.version [ none ↦ cfg.model_version | some v ↦ v ] in
        loaded (saved, version, "file:" <> cfg.model_path)
  ]

  unfoldable pub load_artifacts :
      Config Float → ml.Version → List (String × Artifact Float) → Load Model
  unfolding ends_with joblib_load
  load_artifacts cfg version files =
      elim (select (λ f. ends_with ".joblib" f.0) files) as (λ _. Load Model) [
        | [] ↦ several_artifacts
        | (name, artifact) ∷ [] ↦ elim (joblib_load artifact) as (λ _. Load Model) [
          | loaded saved ↦
              let v = ml.text version in
              loaded (saved, v, "registry:" <> (cfg.model_registry_stage <> (":" <> v)))
          | file_not_found ↦ file_not_found
          | no_model ↦ no_model
          | several_artifacts ↦ several_artifacts
          | not_a_bundle ↦ not_a_bundle
        ]
        | first ∷ second ∷ more ↦ several_artifacts
      ]

  unfoldable pub load_bundle : Config Float → Dict String (Saved Float) → ml.State → Load Model
  unfolding load_file load_artifacts registry_enabled
  load_bundle cfg disk s =
      if registry_enabled cfg
      then elim (ml.get_latest_versions cfg.model_registry_stage s) [
        | [] ↦ no_model
        | (version, source) ∷ older ↦ load_artifacts cfg version (ml.download_artifacts source s)
      ]
      else load_file cfg disk

  unfoldable pub promote : ml.Version → String → Bool → ml.State → ml.State
  promote version stage archive_existing s =
      ml.transition_model_version_stage version stage archive_existing s

-- `FraudScorer.__init__` over a loaded bundle; `tree_explainer` is that of shap.
unfoldable pub open_scorer :
    {Float : Type 0}
    → ((List Float → Float) → List Float → List Float)
    → Config Float
    → Saved Float
    → Bundle Float
open_scorer tree_explainer cfg saved = record {
  predict_proba = saved.predict_proba;
  score_samples = saved.score_samples;
  transform = saved.transform;
  shap_values = tree_explainer saved.predict_proba;
  xgb_weight = elim saved.xgb_weight [ none ↦ cfg.xgb_weight_default | some w ↦ w ];
  threshold = elim saved.threshold [ none ↦ cfg.threshold_default | some t ↦ t ];
}

-- ===== src/Fraud/Scorer.antt =====
-- src/ml_platform/fraud/scorer/model.py: one transaction is scored with the history that the store
-- holds, and only then recorded in it. The fitted models are arguments.
use mathlib.Core.List.{zip}
use ml_monitor.Prelude.{ℕ, String, Bool, Option, none, some, List, map, take, Floats}
use ml_monitor.Prelude.Sorting.{sort_by}
use ml_monitor.Fraud.Features.{Transaction, compute_features, features_to_vector, feature_names}
use ml_monitor.Fraud.Redis.{RedisClient, get_history, update}

abbrev pub top_k_shap : ℕ
top_k_shap = 5

-- The loaded bundle: the fitted estimators, and the weight and threshold they were trained with.
pub record Bundle (Float : Type 0) : Type 0 where
  pub predict_proba : List Float → Float
  pub score_samples : List Float → Float
  pub transform : Float → Float
  pub shap_values : List Float → List Float
  pub xgb_weight : Float
  pub threshold : Float

pub record ScoreResult (Float : Type 0) : Type 0 where
  pub fraud_score : Float
  pub is_fraud : Bool
  pub shap_explanation : List (String × Float)

module _ (fl : Floats) (m : Bundle fl.Float) where
  open fl use {Float, ratio, add, sub, mul, lt, le, neg, fabs, round}

  -- What `score` computes from the feature vector.
  unfoldable pub assess : List Float → ScoreResult Float
  assess vector =
      let xgb_proba = m.predict_proba vector in
      let iso_raw = neg (m.score_samples vector) in
      let iso_score = m.transform iso_raw in
      let fraud_score =
        add (mul m.xgb_weight xgb_proba) (mul (sub (ratio 1 1) m.xgb_weight) iso_score) in
      let ranked =
        sort_by (λ (x y : String × Float). lt (fabs y.1) (fabs x.1))
          (zip feature_names (m.shap_values vector)) in
      record {
        fraud_score = round fraud_score 4;
        is_fraud = le m.threshold fraud_score;
        shap_explanation =
            map (λ (e : String × Float). (e.0, round e.1 4)) (take top_k_shap ranked);
      }

  module _ (r : RedisClient fl.Float) (ttl_sec : ℕ) where
    -- `none` is an exception; the store is then as it was.
    unfoldable pub score : ℕ → Transaction Float → r.State → Option (ScoreResult Float × r.State)
    score now tx s =
        let prior = get_history fl r ttl_sec now tx.user_id s in
        elim (features_to_vector fl (compute_features fl tx prior)) [
          | none ↦ none
          | some vector ↦
              some (assess vector, update fl r ttl_sec now tx.user_id tx.amount tx.device_id s)
        ]

-- ===== src/Fraud/Training/Main/Reference.antt =====
-- The rows of the drift reference, and the score that the scorer gives to the features of each.
use ml_monitor.Prelude.{
  ℕ, String, Bool, some, List, [], ◌∷◌, map, ◌≡◌, refl, ap, arith, string_eq, Option-cases, inl,
  inr, Floats,
}
use ml_monitor.Fraud.Scorer.{assess}
use ml_monitor.Fraud.Registry.{Saved, ReferenceRow, Mlflow, Config, open_scorer}
use ml_monitor.Fraud.Training.Main.{
  Args, Learning, amount_of, ensemble_of, reference_rows, bundle_of,
}

module _ (fl : Floats) where
  open fl use {Float, round, ratio, add, sub, mul, neg}

  -- A reference with the columns of a test set: its amounts, its labels and its scores.
  abbrev pub IsReference :
      List (List Float) → List Float → List ℕ → List (ReferenceRow Float) → Type 0
  IsReference rows scores labels reference =
      (map (λ (r : ReferenceRow Float). r.fraud_score) reference ≡ scores)
      × (map (λ (r : ReferenceRow Float). r.is_fraud) reference ≡ labels)
      × (map (λ (r : ReferenceRow Float). some r.amount) reference ≡ map amount_of rows)

  pub reference_rows-IsReference :
      (rows : List (List Float)) (scores : List Float) (labels : List ℕ)
      (reference : List (ReferenceRow Float))
      → reference_rows fl rows scores labels ≡ some reference
      → IsReference rows scores labels reference
  unfolding reference_rows
  reference_rows-IsReference [] [] [] reference h = ground (arith, h)
  reference_rows-IsReference (row ∷ rows) (score ∷ scores) (label ∷ labels) reference h =
      elim (Option-cases (amount_of row)) [
        | inl absent ↦ absurd (ground (arith, absent, h))
        | inr (amount, here) ↦ elim (Option-cases (reference_rows fl rows scores labels)) [
          | inl bad ↦ absurd (ground (arith, here, bad, h))
          | inr (more, good) ↦
              let (s, l, a) = reference_rows-IsReference rows scores labels more good in
              let e : record { amount = amount; fraud_score = score; is_fraud = label } ∷ more
                  ≡ reference =
                ground (arith, here, good, h) in
              rw (← e) (
                ap (λ t. score ∷ t) s,
                ap (λ t. label ∷ t) l,
                rw here (ap (λ t. some amount ∷ t) a),
              )
        ]
      ]
  reference_rows-IsReference [] [] (label ∷ labels) reference h = absurd (cc h)
  reference_rows-IsReference [] (score ∷ scores) labels reference h = absurd (cc h)
  reference_rows-IsReference (row ∷ rows) [] labels reference h = absurd (cc h)
  reference_rows-IsReference (row ∷ rows) (score ∷ scores) [] reference h = absurd (cc h)

  -- The score of a row by the estimators of a bundle, with a product for the weight and the
  -- probability.
  abbrev pub blend : (Float → Float → Float) → Float → Saved Float → List Float → Float
  blend times xgb_weight saved row =
      add (times xgb_weight (saved.predict_proba row))
        (mul (sub (ratio 1 1) xgb_weight) (saved.transform (neg (saved.score_samples row))))

  module _ (cfg : Config Float) (args : Args Float) (ml : Mlflow Float) (ln : Learning Float)
      (lt_text : String → String → Bool) (xgb iso : List Float → Float)
      (scaler : Float → Float) where
    -- The scorer over a saved bundle gives the rounded sum, with the product of its own floats.
    pub assess-open_scorer :
        (explain : (List Float → Float) → List Float → List Float) (cfg' : Config Float)
        (row : List Float)
        → let saved = bundle_of fl ml ln lt_text cfg args xgb iso scaler in
          (assess fl (open_scorer explain cfg' saved) row).fraud_score
          ≡ round (blend mul args.xgb_weight saved row) 4
    unfolding assess open_scorer bundle_of
    assess-open_scorer explain cfg' row = refl

    -- The training gives the sum with the float32 product.
    pub ensemble_of-bundle_of :
        (rows : List (List Float))
        → map (ensemble_of fl ln args.xgb_weight xgb iso scaler) rows
          ≡ map
              (blend ln.mul32 args.xgb_weight (bundle_of fl ml ln lt_text cfg args xgb iso scaler))
              rows
    unfolding ensemble_of bundle_of
    ensemble_of-bundle_of rows = refl

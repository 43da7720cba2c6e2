-- ===== src/Fraud/Vector.antt =====
-- The vector that `features_to_vector` takes from what `compute_features` returns.
use ml_monitor.Prelude.{min, ◌≡◌, refl, some, List, [], ◌∷◌, if◌then◌else◌, length, Floats}
use ml_monitor.Prelude.Dict.{get}
use ml_monitor.Fraud.Features.{
  Transaction, History, window_stats, merchant_code, compute_features, features_to_vector,
}

module _ (fl : Floats) where
  open fl use {Float, ratio, add, div, feq}

  unfoldable pub vector : Transaction Float → History fl → List Float
  vector tx (amounts, devices) =
      tx.amount
      ∷ ratio tx.hour 1
      ∷ ratio tx.user_age_days 1
      ∷ (window_stats fl amounts 5).0
      ∷ (window_stats fl amounts 10).0
      ∷ (window_stats fl amounts 30).0
      ∷ (window_stats fl amounts 10).1
      ∷ (if feq (window_stats fl amounts 10).0 (ratio 0 1)
          then ratio 1 1
          else div tx.amount (add (window_stats fl amounts 10).0 (ratio 1 1_000_000)))
      ∷ ratio (min (length amounts) 30) 1
      ∷ (if devices tx.device_id then ratio 0 1 else ratio 1 1)
      ∷ ratio (merchant_code tx.merchant_category) 1
      ∷ []

  -- Every name of FEATURE_NAMES is a key of the computed features, so the vector is built without a
  -- KeyError, and its eleven entries stand in the order of FEATURE_NAMES.
  pub features_to_vector-compute_features :
      (tx : Transaction Float) (h : History fl)
      → features_to_vector fl (compute_features fl tx h) ≡ some (vector tx h)
  unfolding vector features_to_vector compute_features get
  features_to_vector-compute_features tx h = refl

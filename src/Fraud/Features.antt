-- ===== src/Fraud/Features.antt =====
-- src/ml_platform/fraud/common/features.py: the features of one transaction, computed from it and
-- from the user's history. Both the trainer and the scorer call `compute_features`.
use ml_monitor.Prelude.{
  ℕ, suc, min, String, Bool, true, false, Option, none, some, List, [], ◌∷◌, ◌==◌, string_eq,
  if◌then◌else◌, length, take_last, leb, Floats,
}
use ml_monitor.Prelude.Dict.{Dict, get}

abbrev pub merchant_categories : List String
merchant_categories =
    "groceries" ∷ "electronics" ∷ "fuel" ∷ "utilities" ∷ "dining" ∷ "travel" ∷ "entertainment"
    ∷ "pharmacy" ∷ "clothing" ∷ "online_services" ∷ []

abbrev pub merchant_other_code : ℕ
merchant_other_code = length merchant_categories

abbrev pub feature_names : List String
feature_names =
    "amount" ∷ "hour" ∷ "user_age_days" ∷ "avg5" ∷ "avg10" ∷ "avg30" ∷ "std10"
    ∷ "amount_ratio_avg10" ∷ "tx_count_seen" ∷ "is_new_device" ∷ "merchant_cat_code" ∷ []

-- `xs.index(x)`; `none` is the ValueError.
unfoldable pub index : String → List String → Option ℕ
index x [] = none
index x (y ∷ ys) =
    if y == x then some 0 else elim (index x ys) [ none ↦ none | some i ↦ some (suc i) ]

unfoldable pub merchant_code : String → ℕ
unfolding index
merchant_code category = elim (index category merchant_categories) [
  | some i ↦ i
  | none ↦ merchant_other_code
]

-- The user's known devices, a `set[str]`: what the program asks of it is membership.
abbrev pub Devices : Type 0
Devices = String → Bool

abbrev pub no_devices : Devices
no_devices _ = false

-- `devices.add(d)`
abbrev pub add_device : String → Devices → Devices
add_device d known j = if d == j then true else known j

-- One transaction of the stream, as far as the features and the history use it.
pub record Transaction (Float : Type 0) : Type 0 where
  pub user_id : String
  pub amount : Float
  pub hour : ℕ
  pub user_age_days : ℕ
  pub merchant_category : String
  pub device_id : String

module _ (fl : Floats) where
  open fl use {Float, ratio, add, div, feq, fmean, pstdev}

  -- A user's history before a transaction: the amounts, oldest first, and the devices.
  abbrev pub History : Type 0
  History = List Float × Devices

  unfoldable pub window_stats : List Float → ℕ → Float × Float
  window_stats amounts n =
      let window = take_last n amounts in
      if leb (length window) 0
      then (ratio 0 1, ratio 0 1)
      else (fmean window, if leb 2 (length window) then pstdev window else ratio 0 1)

  unfoldable pub compute_features : Transaction Float → History → Dict String Float
  unfolding window_stats merchant_code
  compute_features tx (prior_amounts, prior_devices) =
      let (avg5, _) = window_stats prior_amounts 5 in
      let (avg10, std10) = window_stats prior_amounts 10 in
      let (avg30, _) = window_stats prior_amounts 30 in
      ("amount", tx.amount)
      ∷ ("hour", ratio tx.hour 1)
      ∷ ("user_age_days", ratio tx.user_age_days 1)
      ∷ ("avg5", avg5)
      ∷ ("avg10", avg10)
      ∷ ("avg30", avg30)
      ∷ ("std10", std10)
      ∷ (
        "amount_ratio_avg10",
        if feq avg10 (ratio 0 1) then ratio 1 1 else div tx.amount (add avg10 (ratio 1 1_000_000)),
      )
      ∷ ("tx_count_seen", ratio (min (length prior_amounts) 30) 1)
      ∷ ("is_new_device", if prior_devices tx.device_id then ratio 0 1 else ratio 1 1)
      ∷ ("merchant_cat_code", ratio (merchant_code tx.merchant_category) 1)
      ∷ []

  -- `[features[name] for name in names]`; `none` is the KeyError.
  unfoldable pub collect : Dict String Float → List String → Option (List Float)
  collect features [] = some []
  collect features (name ∷ names) = elim (get name features) [
    | none ↦ none
    | some v ↦ elim (collect features names) [ none ↦ none | some vs ↦ some (v ∷ vs) ]
  ]

  unfoldable pub features_to_vector : Dict String Float → Option (List Float)
  unfolding collect
  features_to_vector features = collect features feature_names

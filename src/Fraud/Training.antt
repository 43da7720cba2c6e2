-- ===== src/Fraud/Training.antt =====
-- src/ml_platform/fraud/training/train.py: `build_feature_matrix`, the replay of the transactions
-- in chronological order that builds the training matrix.
pub mod Main
use ml_monitor.Prelude.{
  ℕ, String, Option, none, some, List, [], ◌∷◌, ◌++◌, ◌==◌, string_eq, if◌then◌else◌, take_last,
  Floats,
}
use ml_monitor.Fraud.Features.{
  Transaction, Devices, no_devices, add_device, History, compute_features, features_to_vector,
}

-- `m[k] = v` on a `defaultdict`
abbrev pub assign {ℓ} : {V : Type ℓ} → (String → V) → String → V → String → V
assign m k v j = if k == j then v else m j

module _ (fl : Floats) where
  open fl use {Float}

  -- `history_amounts` and `history_devices`
  pub record Replay : Type 0 where
    pub amounts : String → List Float
    pub devices : String → Devices

  abbrev pub no_history : Replay
  no_history = record { amounts = λ _. []; devices = λ _. no_devices }

  -- The last three statements of the loop.
  unfoldable pub remember : Transaction Float → Replay → Replay
  remember tx h = record {
    amounts = assign h.amounts tx.user_id (take_last 30 (h.amounts tx.user_id ++ tx.amount ∷ []));
    devices = assign h.devices tx.user_id (add_device tx.device_id (h.devices tx.user_id));
  }

  -- The loop over the rows, each with its label; `none` is a KeyError.
  unfoldable pub replay :
      List (Transaction Float × ℕ) → Replay → Option (List (List Float) × List ℕ)
  unfolding remember
  replay [] h = some ([], [])
  replay ((tx, is_fraud) ∷ rows) h =
      let prior : History fl = (h.amounts tx.user_id, h.devices tx.user_id) in
      let rest = replay rows (remember tx h) in
      elim (features_to_vector fl (compute_features fl tx prior)) [
        | none ↦ none
        | some x ↦ elim rest [ none ↦ none | some (xs, ys) ↦ some (x ∷ xs, is_fraud ∷ ys) ]
      ]

  unfoldable pub build_feature_matrix :
      List (Transaction Float × ℕ) → Option (List (List Float) × List ℕ)
  unfolding replay
  build_feature_matrix rows = replay rows no_history

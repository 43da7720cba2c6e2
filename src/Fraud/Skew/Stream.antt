-- ===== src/Fraud/Skew/Stream.antt =====
-- The scorer of scorer/model.py over a whole stream, against `build_feature_matrix` of
-- training/train.py over the same rows.
use ml_monitor.Prelude.{
  ℕ, String, ◌≡◌, refl, ap, ◌∙◌, Option, none, some, List, [], ◌∷◌, ◌++◌, map, ◌==◌,
  ne_of_beq-false, string_eq, eq_iff, take_last, Bool-cases, inl, inr, Floats,
}
use mathlib.Core.Path.{subst}
use ml_monitor.Fraud.Features.{Transaction, no_devices, add_device, History}
use ml_monitor.Fraud.Redis.{RedisClient, RedisLaws, get_history, update}
use ml_monitor.Fraud.Scorer.{Bundle, ScoreResult, assess, score}
use ml_monitor.Fraud.Training.{Replay, no_history, remember, replay, build_feature_matrix}
use ml_monitor.Fraud.Vector.{vector, features_to_vector-compute_features}
use ml_monitor.Fraud.Skew.{
  Within, seen_at, IsTimely, get_history-update_ne, get_history-update_self,
}

-- A transaction with its label and the time at which it is scored.
abbrev pub Event : Type 0 → Type 0
Event Float = Transaction Float × ℕ × ℕ

abbrev pub labelled : {Float : Type 0} → Event Float → Transaction Float × ℕ
labelled (tx, label, t) = (tx, label)

module _ (fl : Floats) (m : Bundle fl.Float) (r : RedisClient fl.Float) (ttl : ℕ) where
  open fl use {Float}
  open r use {State}

  -- The results of `score` over the stream, in order; `none` is an exception.
  unfoldable pub serve : List (Event Float) → State → Option (List (ScoreResult Float))
  serve [] s = some []
  serve ((tx, label, t) ∷ stream) s = elim (score fl m r ttl t tx s) [
    | none ↦ none
    | some (result, s') ↦ elim (serve stream s') [
      | none ↦ none
      | some results ↦ some (result ∷ results)
    ]
  ]

  -- Redis holds what the replay holds, for every user that is within the TTL.
  abbrev pub Agrees : (String → Option ℕ) → Replay fl → State → Type 0
  Agrees seen h s =
      (u : String) (t : ℕ)
      → Within ttl (seen u) t
      → get_history fl r ttl t u s ≡ (h.amounts u, h.devices u)

  module _ (laws : RedisLaws r) where
    Agrees-update :
        (tx : Transaction Float) (t : ℕ) (seen : String → Option ℕ) (h : Replay fl) (s : State)
        → Agrees seen h s
        → Within ttl (seen tx.user_id) t
        → Agrees
            (seen_at seen tx.user_id t)
            (remember fl tx h)
            (update fl r ttl t tx.user_id tx.amount tx.device_id s)
    unfolding remember
    Agrees-update tx t seen h s agrees now u t' later = elim (Bool-cases (tx.user_id == u)) [
      | inl same ↦
          let (after, before) = rw same at later in
          rw same (
            subst
              (λ x.
                get_history fl r ttl t' x (update fl r ttl t tx.user_id tx.amount tx.device_id s)
                ≡ (
                  take_last 30 (h.amounts tx.user_id ++ tx.amount ∷ []),
                  add_device tx.device_id (h.devices tx.user_id),
                ))
              ((eq_iff tx.user_id u).0 same)
              (get_history-update_self fl r laws ttl t tx.user_id tx.amount tx.device_id s t' after
                  before
                ∙ ap
                    (λ (p : History fl).
                      (take_last 30 (p.0 ++ tx.amount ∷ []), add_device tx.device_id p.1))
                    (agrees tx.user_id t now)))
      | inr other ↦ rw other (
          get_history-update_ne fl r laws ttl t t' tx.user_id u tx.amount tx.device_id s
            (ne_of_beq-false other)
          ∙ agrees u t' (rw other at later))
    ]

    replay-serve :
        (stream : List (Event Float)) (seen : String → Option ℕ) (h : Replay fl) (s : State)
        → Agrees seen h s
        → IsTimely ttl seen stream
        → (xs : List (List Float)) × (ys : List ℕ) × (replay fl (map labelled stream) h
            ≡ some (xs, ys))
          × (serve stream s ≡ some (map (assess fl m) xs))
    unfolding replay serve score
    replay-serve [] seen h s agrees timely = ([], [], refl, refl)
    replay-serve ((tx, label, t) ∷ stream) seen h s agrees (now, timely) =
        let prior : History fl = (h.amounts tx.user_id, h.devices tx.user_id) in
        let (xs, ys, offline, online) =
          replay-serve stream (seen_at seen tx.user_id t) (remember fl tx h)
            (update fl r ttl t tx.user_id tx.amount tx.device_id s)
            (Agrees-update tx t seen h s agrees now) timely in
        (
          vector fl tx prior ∷ xs,
          label ∷ ys,
          rw (features_to_vector-compute_features fl tx prior, offline, replay),
          rw (
            agrees tx.user_id t now,
            features_to_vector-compute_features fl tx prior,
            online,
            serve,
            score,
          ),
        )

    -- No train/serve skew. From a Redis with no history, and a stream in which every transaction
    -- comes within the TTL of the one before it of the same user, scoring the stream raises nothing,
    -- and its results are those of the model at the rows of the matrix that `build_feature_matrix`
    -- makes of the same transactions, which raises nothing either.
    pub serve-build_feature_matrix :
        (stream : List (Event Float)) (s : State)
        → ((u : String) (t : ℕ) → get_history fl r ttl t u s ≡ ([], no_devices))
        → IsTimely ttl (λ _. none) stream
        → (xs : List (List Float)) × (ys : List ℕ) × (build_feature_matrix fl (map labelled stream)
            ≡ some (xs, ys))
          × (serve stream s ≡ some (map (assess fl m) xs))
    unfolding build_feature_matrix
    serve-build_feature_matrix stream s empty timely =
        replay-serve stream (λ _. none) (no_history fl) s (λ u t _. empty u t) timely

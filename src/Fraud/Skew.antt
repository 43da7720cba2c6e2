-- ===== src/Fraud/Skew.antt =====
-- No train/serve skew: the online scorer, over Redis, and the offline replay of train.py see the
-- same history before every transaction, as long as no user is silent for longer than the TTL.
pub mod Stream
use mathlib.Core.List.{reverse, reverse-append}
use ml_monitor.Prelude.{
  ℕ, zero, suc, ◌+◌, ◌-◌, ◌≤◌, ◌<◌, String, ◌≡◌, refl, sym, ap, ◌∙◌, ◌≢◌, fun_ext, Bool, true,
  false, Option, none, some, List, [], ◌∷◌, ◌++◌, map, arith, ◌==◌, ==_refl, string_eq, eq_iff,
  if◌then◌else◌, take, take_last, take-take, take-cons-take, reverse-take, Bool-cases, inl, inr,
  Floats,
}
use ml_monitor.Fraud.Features.{
  Transaction, Devices, no_devices, add_device, History, compute_features, features_to_vector,
}
use ml_monitor.Fraud.Redis.{
  Key, amounts_key, devices_key, RedisClient, RedisLaws, get_history, update, history_len,
}
use ml_monitor.Fraud.Scorer.{Bundle, ScoreResult, assess, score}
use ml_monitor.Fraud.Training.{Replay, no_history, remember, replay, build_feature_matrix}
use ml_monitor.Fraud.Vector.{vector, features_to_vector-compute_features}

-- The time is within the TTL of the user's last transaction.
abbrev pub Within : ℕ → Option ℕ → ℕ → Type 0
Within ttl none t = Unit
Within ttl (some t0) t = (t0 ≤ t) × (t < t0 + ttl)

abbrev pub seen_at : (String → Option ℕ) → String → ℕ → String → Option ℕ
seen_at seen user t j = if user == j then some t else seen j

-- Every transaction comes within the TTL of the one before it of the same user.
abbrev pub IsTimely :
    {Float : Type 0} → ℕ → (String → Option ℕ) → List (Transaction Float × ℕ × ℕ) → Type 0
IsTimely ttl seen [] = Unit
IsTimely ttl seen ((tx, label, t) ∷ stream) =
    Within ttl (seen tx.user_id) t × IsTimely ttl (seen_at seen tx.user_id t) stream

keys-ne : {u v : String} → u ≢ v → amounts_key u ≢ amounts_key v
keys-ne h e = h (cc)

device_keys-ne : {u v : String} → u ≢ v → devices_key u ≢ devices_key v
device_keys-ne h e = h (cc)

kinds-ne : (u v : String) → amounts_key u ≢ devices_key v
kinds-ne u v e = cc

kinds-ne' : (u v : String) → devices_key u ≢ amounts_key v
kinds-ne' u v e = cc

cons-ne-nil : {A : Type 0} {x : A} {xs : List A} (ys : List A) → ys ≡ x ∷ xs → ys ≢ []
cons-ne-nil ys p q = cc

module _ (fl : Floats) (r : RedisClient fl.Float) (laws : RedisLaws r) (ttl : ℕ) where
  open fl use {Float}
  open r use {State, smembers}
  open laws use {items}

  history_parts :
      (t : ℕ) (u : String) (s : State)
      → get_history fl r ttl t u s
        ≡ (reverse (take 30 (items t (amounts_key u) s)), smembers t (devices_key u) s)
  unfolding get_history
  history_parts t u s = rw (laws.lrange_items t (amounts_key u) (history_len - 1) s)

  -- A transaction of one user leaves every other user's history as it was.
  pub get_history-update_ne :
      (now t : ℕ) (v u : String) (a : Float) (d : String) (s : State)
      → v ≢ u
      → get_history fl r ttl t u (update fl r ttl now v a d s) ≡ get_history fl r ttl t u s
  unfolding update
  get_history-update_ne now t v u a d s h = simp (
    history_parts,
    laws.items_expire now t (devices_key v) (amounts_key u) ttl _ (kinds-ne' v u),
    laws.items_expire now t (amounts_key v) (amounts_key u) ttl _ (keys-ne h),
    laws.items_sadd now t (devices_key v) (amounts_key u) d _ (kinds-ne' v u),
    laws.items_ltrim now t (amounts_key v) (amounts_key u) 29 _ (keys-ne h),
    laws.items_lpush now t (amounts_key v) (amounts_key u) a _ (keys-ne h),
    laws.smembers_expire now t (devices_key v) (devices_key u) ttl _ (device_keys-ne h),
    laws.smembers_expire now t (amounts_key v) (devices_key u) ttl _ (kinds-ne v u),
    laws.smembers_sadd now t (devices_key v) (devices_key u) d _ (device_keys-ne h),
    laws.smembers_ltrim now t (amounts_key v) (devices_key u) 29 _ (kinds-ne v u),
    laws.smembers_lpush now t (amounts_key v) (devices_key u) a _ (kinds-ne v u),
  )

  module _ (now : ℕ) (v : String) (a : Float) (d : String) (s : State) where
    abbrev pushed : State
    pushed = r.ltrim now (amounts_key v) 29 (r.lpush now (amounts_key v) a s)

    abbrev marked : State
    marked = r.sadd now (devices_key v) d pushed

    abbrev kept : State
    kept = r.expire now (amounts_key v) ttl marked

    items-marked : items now (amounts_key v) marked ≡ take 30 (a ∷ items now (amounts_key v) s)
    items-marked =
        laws.items_sadd now now (devices_key v) (amounts_key v) d pushed (kinds-ne' v v)
        ∙ laws.items_ltrim_self now (amounts_key v) 29 _
        ∙ ap (take 30) (laws.items_lpush_self now (amounts_key v) a s)

    smembers-kept :
        smembers now (devices_key v) kept ≡ add_device d (smembers now (devices_key v) s)
    smembers-kept =
        laws.smembers_expire now now (amounts_key v) (devices_key v) ttl marked (kinds-ne v v)
        ∙ laws.smembers_sadd_self now (devices_key v) d pushed
        ∙ ap (add_device d) (
            laws.smembers_ltrim now now (amounts_key v) (devices_key v) 29 _ (kinds-ne v v)
            ∙ laws.smembers_lpush now now (amounts_key v) (devices_key v) a s (kinds-ne v v))

    module _ (t : ℕ) (after : now ≤ t) (before : t < now + ttl) where
      items-update :
          items t (amounts_key v) (update fl r ttl now v a d s)
          ≡ take 30 (a ∷ items now (amounts_key v) s)
      unfolding update
      items-update =
          laws.items_expire now t (devices_key v) (amounts_key v) ttl kept (kinds-ne' v v)
          ∙ laws.items_expire_self now t (amounts_key v) ttl marked (cons-ne-nil _ items-marked)
              after before
          ∙ items-marked

      smembers-update :
          smembers t (devices_key v) (update fl r ttl now v a d s)
          ≡ add_device d (smembers now (devices_key v) s)
      unfolding update
      smembers-update =
          laws.smembers_expire_self now t (devices_key v) ttl kept d
            (rw smembers-kept (rw (==_refl d))) after before
          ∙ smembers-kept

      -- A transaction is appended to its user's history, which keeps the last thirty amounts.
      pub get_history-update_self : get_history fl r ttl t v (update fl r ttl now v a d s) ≡ (
        take_last 30 ((get_history fl r ttl now v s).0 ++ a ∷ []),
        add_device d (get_history fl r ttl now v s).1,
      )
      get_history-update_self =
          let xs : List Float = items now (amounts_key v) s in
          let newest : reverse (take 30 (items t (amounts_key v) (update fl r ttl now v a d s)))
              ≡ take_last 30 (reverse (take 30 xs) ++ a ∷ []) =
            ap (λ ys. reverse (take 30 ys)) items-update
            ∙ ap reverse (take-take 30 (a ∷ xs) ∙ sym (take-cons-take 30 a xs))
            ∙ reverse-take 30 (a ∷ take 30 xs)
            ∙ ap (take_last 30) (reverse-append (a ∷ []) (take 30 xs)) in
          rw (history_parts t v (update fl r ttl now v a d s), history_parts now v s)
            (λ i. (newest i, smembers-update i))

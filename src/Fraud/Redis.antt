-- ===== src/Fraud/Redis.antt =====
-- src/ml_platform/fraud/scorer/redis_store.py: the per-user rolling history that the online scorer
-- reads and writes. The Redis server is an interface with the documented behaviour of the commands
-- that the store sends; times are whole seconds.
use ml_monitor.Prelude.{
  ℕ, suc, ◌+◌, ◌-◌, ◌≤◌, ◌<◌, String, ◌≡◌, ◌≢◌, true, Option, none, some, List, [], ◌∷◌, take,
  Floats,
}
use mathlib.Core.List.{reverse}
use ml_monitor.Fraud.Features.{Devices, add_device, History}

-- The keys f"user:{user_id}:amounts" and f"user:{user_id}:devices": the two families never meet,
-- and different users have different keys.
pub data Key : Type 0 where
  amounts_key : String → Key
  devices_key : String → Key

abbrev pub history_len : ℕ
history_len = 30

-- A key whose deadline has passed is gone; a key with no deadline never goes.
abbrev pub IsAlive : Option ℕ → ℕ → Type 0
IsAlive none t = Unit
IsAlive (some d) t = t < d

pub record RedisClient (Float : Type 0) : Type 1 where
  pub State : Type 0
  -- LRANGE key 0 n, SMEMBERS key and the time at which the key expires
  pub lrange : ℕ → Key → ℕ → State → List Float
  pub smembers : ℕ → Key → State → Devices
  pub deadline : Key → State → Option ℕ
  -- LPUSH, LTRIM key 0 n, SADD, EXPIRE; the first argument is the time of the command
  pub lpush : ℕ → Key → Float → State → State
  pub ltrim : ℕ → Key → ℕ → State → State
  pub sadd : ℕ → Key → String → State → State
  pub expire : ℕ → Key → ℕ → State → State

-- What Redis documents of those commands. `items` is the whole list at a key.
pub record RedisLaws {Float : Type 0} (r : RedisClient Float) : Type 0 where
  pub items : ℕ → Key → r.State → List Float
  pub lrange_items :
      (t : ℕ) (k : Key) (n : ℕ) (s : r.State) → r.lrange t k n s ≡ take (suc n) (items t k s)
  -- A command changes only its own key.
  pub items_lpush :
      (t u : ℕ) (k j : Key) (x : Float) (s : r.State)
      → k ≢ j
      → items u j (r.lpush t k x s) ≡ items u j s
  pub items_ltrim :
      (t u : ℕ) (k j : Key) (n : ℕ) (s : r.State)
      → k ≢ j
      → items u j (r.ltrim t k n s) ≡ items u j s
  pub items_sadd :
      (t u : ℕ) (k j : Key) (d : String) (s : r.State)
      → k ≢ j
      → items u j (r.sadd t k d s) ≡ items u j s
  pub items_expire :
      (t u : ℕ) (k j : Key) (ttl : ℕ) (s : r.State)
      → k ≢ j
      → items u j (r.expire t k ttl s) ≡ items u j s
  pub smembers_lpush :
      (t u : ℕ) (k j : Key) (x : Float) (s : r.State)
      → k ≢ j
      → r.smembers u j (r.lpush t k x s) ≡ r.smembers u j s
  pub smembers_ltrim :
      (t u : ℕ) (k j : Key) (n : ℕ) (s : r.State)
      → k ≢ j
      → r.smembers u j (r.ltrim t k n s) ≡ r.smembers u j s
  pub smembers_sadd :
      (t u : ℕ) (k j : Key) (d : String) (s : r.State)
      → k ≢ j
      → r.smembers u j (r.sadd t k d s) ≡ r.smembers u j s
  pub smembers_expire :
      (t u : ℕ) (k j : Key) (ttl : ℕ) (s : r.State)
      → k ≢ j
      → r.smembers u j (r.expire t k ttl s) ≡ r.smembers u j s
  -- What the commands do to their own key, at the time of the command.
  pub items_lpush_self :
      (t : ℕ) (k : Key) (x : Float) (s : r.State) → items t k (r.lpush t k x s) ≡ x ∷ items t k s
  pub items_ltrim_self :
      (t : ℕ) (k : Key) (n : ℕ) (s : r.State)
      → items t k (r.ltrim t k n s) ≡ take (suc n) (items t k s)
  pub smembers_sadd_self :
      (t : ℕ) (k : Key) (d : String) (s : r.State)
      → r.smembers t k (r.sadd t k d s) ≡ add_device d (r.smembers t k s)
  -- EXPIRE on a key that exists: the value stays until the deadline.
  pub items_expire_self :
      (t u : ℕ) (k : Key) (ttl : ℕ) (s : r.State)
      → items t k s ≢ []
      → t ≤ u
      → u < t + ttl
      → items u k (r.expire t k ttl s) ≡ items t k s
  pub smembers_expire_self :
      (t u : ℕ) (k : Key) (ttl : ℕ) (s : r.State) (d : String)
      → r.smembers t k s d ≡ true
      → t ≤ u
      → u < t + ttl
      → r.smembers u k (r.expire t k ttl s) ≡ r.smembers t k s

-- `RedisFeatureStore`: the client's state and the TTL.
module _ (fl : Floats) (r : RedisClient fl.Float) (ttl_sec : ℕ) where
  open fl use {Float}
  open r use {State, lrange, smembers, lpush, ltrim, sadd, expire}

  unfoldable pub get_history : ℕ → String → State → History fl
  get_history now user_id s =
      let raw = lrange now (amounts_key user_id) (history_len - 1) s in
      (reverse raw, smembers now (devices_key user_id) s)

  unfoldable pub update : ℕ → String → Float → String → State → State
  update now user_id amount device_id s =
      let s1 = lpush now (amounts_key user_id) amount s in
      let s2 = ltrim now (amounts_key user_id) (history_len - 1) s1 in
      let s3 = sadd now (devices_key user_id) device_id s2 in
      let s4 = expire now (amounts_key user_id) ttl_sec s3 in
      expire now (devices_key user_id) ttl_sec s4

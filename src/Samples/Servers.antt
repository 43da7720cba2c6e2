-- ===== src/Samples/Servers.antt =====
-- A Redis that holds everything in memory and forgets nothing, and its counters.
use ml_monitor.Prelude.{
  ℕ, suc, ◌≡◌, refl, ap, ◌≢◌, ◌↔◌, Bool, true, false, none, some, String, List, [], ◌∷◌, take, ◌==◌,
  Eq, string_eq, nat_eq, pair_eq, if◌then◌else◌, Bool-cases, inl, inr,
}
use ml_monitor.Fraud.Features.{Devices, no_devices, add_device}
use ml_monitor.Fraud.Redis.{Key, amounts_key, devices_key, RedisClient, RedisLaws}
use ml_monitor.Fraud.RateLimiter.{Bucket, Counter}
use ml_monitor.Fraud.RateLimiter.Laws.{IsUp}
use ml_monitor.Samples.Fixed.{Fixed}

abbrev pub key_beq : Key → Key → Bool
key_beq (amounts_key u) (amounts_key v) = u == v
key_beq (devices_key u) (devices_key v) = u == v
key_beq _ _ = false

abbrev key_name : Key → String
key_name (amounts_key u) = u
key_name (devices_key u) = u

pub key_beq_iff : (k j : Key) → (key_beq k j ≡ true) ↔ (k ≡ j)
key_beq_iff (amounts_key u) (amounts_key v) = (
  λ h. ap amounts_key ((string_eq.iff_path u v).0 h),
  λ e. (string_eq.iff_path u v).1 (ap key_name e),
)
key_beq_iff (devices_key u) (devices_key v) = (
  λ h. ap devices_key ((string_eq.iff_path u v).0 h),
  λ e. (string_eq.iff_path u v).1 (ap key_name e),
)
key_beq_iff (amounts_key u) (devices_key v) = (λ h. absurd (cc h), λ e. absurd (cc e))
key_beq_iff (devices_key u) (amounts_key v) = (λ h. absurd (cc h), λ e. absurd (cc e))

instance abbrev pub key_eq : Eq Key
key_eq = record { beq = key_beq; iff_path = key_beq_iff }

pub record Memory : Type 0 where
  pub lists : Key → List Fixed
  pub sets : Key → Devices

abbrev pub assign {ℓ} : {K V : Type ℓ} → Eq K → (K → V) → K → V → K → V
assign e m k v j = if e.beq k j then v else m j

pub assign_self {ℓ} : {K V : Type ℓ} (e : Eq K) (m : K → V) (k : K) (v : V) → assign e m k v k ≡ v
assign_self e m k v = rw ((e.iff_path k k).1 refl) refl

pub assign_ne {ℓ} :
    {K V : Type ℓ} (e : Eq K) (m : K → V) (k j : K) (v : V) → k ≢ j → assign e m k v j ≡ m j
assign_ne e m k j v h = elim (Bool-cases (e.beq k j)) [
  | inl same ↦ absurd (h ((e.iff_path k j).0 same))
  | inr other ↦ rw other refl
]

abbrev pub redis : RedisClient Fixed
redis = record {
  State = Memory;
  lrange = λ t k n s. take (suc n) (s.lists k);
  smembers = λ t k s. s.sets k;
  deadline = λ k s. none;
  lpush = λ t k x s. record s { lists = assign key_eq s.lists k (x ∷ s.lists k) };
  ltrim = λ t k n s. record s { lists = assign key_eq s.lists k (take (suc n) (s.lists k)) };
  sadd = λ t k d s. record s { sets = assign key_eq s.sets k (add_device d (s.sets k)) };
  expire = λ t k ttl s. s;
}

abbrev pub empty_memory : Memory
empty_memory = record { lists = λ k. []; sets = λ k. no_devices }

abbrev pub redis_laws : RedisLaws redis
redis_laws = record {
  items = λ t k s. s.lists k;
  lrange_items = λ t k n s. refl;
  items_lpush = λ t u k j x s h. assign_ne key_eq s.lists k j (x ∷ s.lists k) h;
  items_ltrim = λ t u k j n s h. assign_ne key_eq s.lists k j (take (suc n) (s.lists k)) h;
  items_sadd = λ t u k j d s h. refl;
  items_expire = λ t u k j ttl s h. refl;
  smembers_lpush = λ t u k j x s h. refl;
  smembers_ltrim = λ t u k j n s h. refl;
  smembers_sadd = λ t u k j d s h. assign_ne key_eq s.sets k j (add_device d (s.sets k)) h;
  smembers_expire = λ t u k j ttl s h. refl;
  items_lpush_self = λ t k x s. assign_self key_eq s.lists k (x ∷ s.lists k);
  items_ltrim_self = λ t k n s. assign_self key_eq s.lists k (take (suc n) (s.lists k));
  smembers_sadd_self = λ t k d s. assign_self key_eq s.sets k (add_device d (s.sets k));
  items_expire_self = λ t u k ttl s h p q. refl;
  smembers_expire_self = λ t u k ttl s d h p q. refl;
}

abbrev pub bucket_eq : Eq Bucket
bucket_eq = pair_eq

abbrev pub counter : Counter
counter = record {
  State = Bucket → ℕ;
  incr = λ t b s. some (suc (s b), assign bucket_eq s b (suc (s b)));
}

abbrev pub counter_up : IsUp counter
counter_up = record {
  count = λ t b s. s b;
  next = λ t b s. assign bucket_eq s b (suc (s b));
  incr_next = λ t b s. refl;
  count_next_self = λ t u b s p q. assign_self bucket_eq s b (suc (s b));
  count_next_ne = λ t u b b' s h. assign_ne bucket_eq s b b' (suc (s b)) h;
}

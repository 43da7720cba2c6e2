-- ===== src/Fraud/RateLimiter.antt =====
-- src/ml_platform/fraud/api/security.py: `RateLimiter`, a fixed-window counter in Redis. Times are
-- whole seconds; the Redis commands INCR and EXPIRE are an interface.
pub mod Laws
use ml_monitor.Prelude.{
  ℕ, ◌+◌, ◌-◌, ◌/◌, ◌%◌, ◌≤◌, ◌<◌, ◌≡◌, ◌≢◌, Bool, true, Option, none, some, String, leb,
  if◌then◌else◌,
}

-- f"ratelimit:{key_id}:{window}": a counter for each key and minute.
abbrev pub Bucket : Type 0
Bucket = String × ℕ

pub record Counter : Type 1 where
  pub State : Type 0
  -- INCR and EXPIRE 120 at a time, in one pipeline; `none` is a RedisError.
  pub incr : ℕ → Bucket → State → Option (ℕ × State)

module _ (c : Counter) where
  open c use {State, incr}

  -- `(allowed, seconds_until_reset)`. On a RedisError the state is taken to be as before.
  unfoldable pub check : ℕ → ℕ → String → State → (Bool × ℕ) × State
  check limit now key_id s =
      if leb limit 0
      then ((true, 0), s)
      else (let window = now / 60 in
          elim (incr now (key_id, window) s) [
            | none ↦ ((true, 0), s)
            | some (count, s') ↦ ((leb count limit, 60 - now % 60), s')
          ])

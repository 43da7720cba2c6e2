-- ===== src/Features/RedisOnline.antt =====
-- src/ml_platform/features/stores/online/redis_store.py: the online store over Redis. A pipeline runs its
-- commands in order, at one time; msgpack and the server are interfaces with the documented behaviour of
-- what the store calls. Connecting to the server is not modelled.
pub mod Keys
pub mod Laws
pub mod Agreement
mod Tests
use ml_monitor.Prelude.{
  ℕ, zero, suc, Bool, ◌+◌, ◌*◌, ◌≤◌, ◌≡◌, ◌≢◌, String, ◌<>◌, Option, none, some, List, [], ◌∷◌, map,
  length, ltb, string_eq, if◌then◌else◌,
}
use ml_monitor.Prelude.Dict.{Dict, put}
use ml_monitor.Features.Online.{OnlineRow}

-- SET, EXPIRE and GET; the first argument is the time of the command.
pub record KeyValue (B : Type 0) : Type 1 where
  pub State : Type 0
  pub set : ℕ → String → B → State → State
  pub expire : ℕ → String → ℕ → State → State
  pub get_raw : ℕ → String → State → Option B

-- A TTL in hours, a float that is not negative: `if ttl`, and `int(ttl * 3600)`.
pub record Hours (H : Type 0) : Type 0 where
  pub is_set : H → Bool
  pub whole_seconds : H → ℕ

pub record Msgpack (B V : Type 0) : Type 0 where
  pub packb : Dict String V → B
  pub unpackb : B → Dict String V

-- What Redis documents: SET stores a value and drops an old deadline, EXPIRE sets one, and neither
-- touches another key. And what is packed can be unpacked.
pub record StoreLaws {B V : Type 0} (r : KeyValue B) (m : Msgpack B V) : Type 0 where
  pub get_set :
      (t u : ℕ) (k : String) (b : B) (s : r.State) → t ≤ u → r.get_raw u k (r.set t k b s) ≡ some b
  pub get_expire_set :
      (t u : ℕ) (k : String) (b : B) (ttl : ℕ) (s : r.State)
      → t ≤ u
      → r.get_raw u k (r.expire t k ttl (r.set t k b s))
        ≡ (if ltb u (t + ttl) then some b else none)
  pub get_set_ne :
      (t u : ℕ) (k j : String) (b : B) (s : r.State)
      → k ≢ j
      → r.get_raw u j (r.set t k b s) ≡ r.get_raw u j s
  pub get_expire_ne :
      (t u : ℕ) (k j : String) (ttl : ℕ) (s : r.State)
      → k ≢ j
      → r.get_raw u j (r.expire t k ttl s) ≡ r.get_raw u j s
  pub unpackb_packb : (d : Dict String V) → m.unpackb (m.packb d) ≡ d

-- `_key`
unfoldable pub key : String → String → String
key group_name entity_id = "ml_platform.features:" <> (group_name <> (":" <> entity_id))

module _ {B V H : Type 0} (r : KeyValue B) (m : Msgpack B V) (hours : Hours H) where
  -- `self`: the client's state and the default TTL.
  pub record RedisOnlineStore : Type 0 where
    pub default_ttl_hours : H
    pub client : r.State

  -- `ttl_seconds`
  unfoldable pub seconds_of : H → Option ℕ
  seconds_of ttl = if hours.is_set ttl then some (hours.whole_seconds ttl) else none

  -- The commands for one row; `if ttl_seconds` is false for none and for 0.
  unfoldable pub write_row : String → Option ℕ → ℕ → OnlineRow V → r.State → r.State
  write_row group_name none now (entity, features) s =
      r.set now (key group_name entity) (m.packb features) s
  write_row group_name (some zero) now (entity, features) s =
      r.set now (key group_name entity) (m.packb features) s
  write_row group_name (some (suc ttl_seconds)) now (entity, features) s =
      r.expire now (key group_name entity) (suc ttl_seconds)
        (r.set now (key group_name entity) (m.packb features) s)

  unfoldable pub write_rows : String → Option ℕ → ℕ → List (OnlineRow V) → r.State → r.State
  unfolding write_row
  write_rows group_name ttl_seconds now [] s = s
  write_rows group_name ttl_seconds now (row ∷ rows) s =
      write_rows group_name ttl_seconds now rows (write_row group_name ttl_seconds now row s)

  unfoldable pub write_batch :
      String → List (OnlineRow V) → Option H → ℕ → RedisOnlineStore → ℕ × RedisOnlineStore
  unfolding write_rows seconds_of
  write_batch group_name rows ttl_hours now s =
      let ttl : H = elim ttl_hours [ none ↦ s.default_ttl_hours | some ttl ↦ ttl ] in
      (length rows, record s { client = write_rows group_name (seconds_of ttl) now rows s.client })

  -- The loop over `zip(entity_ids, values)`.
  unfoldable pub collect :
      List (String × Option B) → Dict String (Dict String V) → Dict String (Dict String V)
  collect [] out = out
  collect ((entity_id, none) ∷ rest) out = collect rest out
  collect ((entity_id, some raw) ∷ rest) out = collect rest (put entity_id (m.unpackb raw) out)

  unfoldable pub read_batch :
      String → List String → ℕ → RedisOnlineStore → Dict String (Dict String V)
  unfolding collect
  read_batch group_name entity_ids now s =
      collect (map (λ e. (e, r.get_raw now (key group_name e) s.client)) entity_ids) []

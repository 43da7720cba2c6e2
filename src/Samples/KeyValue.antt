-- ===== src/Samples/KeyValue.antt =====
-- A Redis server that keeps values with their deadlines, and a packing that keeps a dict as it is.
use ml_monitor.Prelude.{
  ℕ, ◌+◌, refl, String, Option, none, some, arith, ltb, ◌==◌, string_eq, eq_iff, if◌then◌else◌,
}
use ml_monitor.Prelude.Dict.{Dict}
use ml_monitor.Features.RedisOnline.{KeyValue, Msgpack, StoreLaws}

abbrev Held : Type 0
Held = Dict String ℕ × Option ℕ

abbrev pub live_value : ℕ → Option Held → Option (Dict String ℕ)
live_value u none = none
live_value u (some (b, none)) = some b
live_value u (some (b, some d)) = if ltb u d then some b else none

abbrev with_deadline : ℕ → Option Held → Option Held
with_deadline d none = none
with_deadline d (some (b, old)) = some (b, some d)

abbrev pub server : KeyValue (Dict String ℕ)
server = record {
  State = String → Option Held;
  set = λ t k b s. λ j. if k == j then some (b, none) else s j;
  expire = λ t k ttl s. λ j. if k == j then with_deadline (t + ttl) (s j) else s j;
  get_raw = λ u k s. live_value u (s k);
}

abbrev pub packing : Msgpack (Dict String ℕ) ℕ
packing = record { packb = λ d. d; unpackb = λ d. d }

pub server-StoreLaws : StoreLaws server packing
server-StoreLaws = record {
  get_set = λ t u k b s h. ground (arith, eq_iff k k);
  get_expire_set = λ t u k b ttl s h. ground (arith, eq_iff k k);
  get_set_ne = λ t u k j b s h. ground (arith, eq_iff k j, h);
  get_expire_ne = λ t u k j ttl s h. ground (arith, eq_iff k j, h);
  unpackb_packb = λ d. refl;
}

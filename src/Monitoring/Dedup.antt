-- ===== src/Monitoring/Dedup.antt =====
-- src/ml_platform/monitoring/alerts/deduplicator.py: one alert for each drift type and feature
-- within the cooldown. Times are ticks of the clock; `now - last < cooldown` is written without the
-- subtraction, which on natural numbers would stop at 0.
pub mod Laws
use ml_monitor.Prelude.{
  ℕ, ◌+◌, String, Bool, true, false, Option, none, some, List, [], ◌∷◌, ltb, ◌==◌, string_eq,
  pair_eq, if◌then◌else◌,
}
use ml_monitor.Prelude.Dict.{Dict, get, put}

-- `(drift_type, feature or "")`
abbrev pub Key : Type 0
Key = String × String

abbrev pub key_of : String → Option String → Key
key_of drift_type none = (drift_type, "")
key_of drift_type (some feature) = (drift_type, feature)

pub record Deduplicator : Type 0 where
  pub cooldown : ℕ
  pub last_fired : Dict Key ℕ

abbrev pub init : ℕ → Deduplicator
init cooldown = record { cooldown = cooldown; last_fired = [] }

unfoldable pub should_alert : String → Option String → ℕ → Deduplicator → Bool × Deduplicator
should_alert drift_type feature now d =
    let key = key_of drift_type feature in
    let fire : Bool × Deduplicator = (true, record d { last_fired = put key now d.last_fired }) in
    elim (get key d.last_fired) [
      | none ↦ fire
      | some last ↦ if ltb now (last + d.cooldown) then (false, d) else fire
    ]

unfoldable pub reset : Deduplicator → Deduplicator
reset d = record d { last_fired = [] }

-- ===== src/Features/Online.antt =====
-- src/ml_platform/features/stores/online/sqlite_store.py: the online store, keyed by group, entity and
-- feature. Times are seconds, and values stand for their JSON texts.
pub mod Read
pub mod Laws
use ml_monitor.Prelude.{
  ℕ, zero, suc, ◌+◌, ◌*◌, String, Bool, false, Option, none, some, List, [], ◌∷◌, ltb, ◌==◌,
  string_eq, pair_eq, Eq, if◌then◌else◌,
}
use ml_monitor.Prelude.Dict.{Dict, get, put}
use ml_monitor.Features.Frame.{is_in}

-- (feature_group, (entity_id, feature_name))
abbrev pub Key : Type 0
Key = String × (String × String)

instance abbrev pub key_eq : Eq Key
key_eq = pair_eq ⦃f = pair_eq⦄

pub record Stored (V : Type 0) : Type 0 where
  pub value : V
  pub expires_at : Option ℕ

pub record OnlineStore (V : Type 0) : Type 0 where
  pub default_ttl_hours : ℕ
  pub table : Dict Key (Stored V)

abbrev pub OnlineRow : Type 0 → Type 0
OnlineRow V = String × Dict String V

-- `time.time() + ttl * 3600 if ttl else None`
abbrev pub expiry : ℕ → ℕ → Option ℕ
expiry now zero = none
expiry now (suc h) = some (now + suc h * 3600)

abbrev pub ttl_or : Option ℕ → ℕ → ℕ
ttl_or none h = h
ttl_or (some ttl) h = ttl

abbrev pub is_expired : ℕ → Option ℕ → Bool
is_expired now none = false
is_expired now (some t) = ltb t now

module _ {V : Type 0} where
  -- The inner loop of `write_batch`: the features of one row.
  unfoldable pub write_features :
      String → String → Option ℕ → Dict String V → Dict Key (Stored V) → Dict Key (Stored V)
  write_features group entity expires_at [] table = table
  write_features group entity expires_at ((name, value) ∷ features) table =
      write_features group entity expires_at features
        (put (group, (entity, name)) (record { value = value; expires_at = expires_at }) table)

  unfoldable pub write_rows :
      String → Option ℕ → List (OnlineRow V) → Dict Key (Stored V) → Dict Key (Stored V)
  unfolding write_features
  write_rows group expires_at [] table = table
  write_rows group expires_at ((entity, features) ∷ rows) table =
      write_rows group expires_at rows (write_features group entity expires_at features table)

  -- `n`: the number of values that were written.
  abbrev pub count_values : List (OnlineRow V) → ℕ
  count_values [] = 0
  count_values ((entity, features) ∷ rows) = size features + count_values rows
    where
      size : Dict String V → ℕ
      size [] = 0
      size (x ∷ xs) = suc (size xs)

  unfoldable pub write_batch :
      String → List (OnlineRow V) → Option ℕ → ℕ → OnlineStore V → ℕ × OnlineStore V
  unfolding write_rows
  write_batch group rows ttl_hours now s =
      let expires_at = expiry now (ttl_or ttl_hours s.default_ttl_hours) in
      (count_values rows, record s { table = write_rows group expires_at rows s.table })

  -- `out.setdefault(entity_id, {})[feature_name] = value`
  abbrev pub add_value :
      String → String → V → Dict String (Dict String V) → Dict String (Dict String V)
  add_value entity name v out = elim (get entity out) [
    | none ↦ put entity ((name, v) ∷ []) out
    | some features ↦ put entity (put name v features) out
  ]

  -- The loop over the rows that the SELECT gives, in some order.
  unfoldable pub collect :
      ℕ → List (Key × Stored V) → Dict String (Dict String V) → Dict String (Dict String V)
  collect now [] out = out
  collect now (((group, (entity, name)), stored) ∷ rows) out =
      collect now rows
        (if is_expired now stored.expires_at then out else add_value entity name stored.value out)

  -- The WHERE clause.
  unfoldable pub matching : String → List String → Dict Key (Stored V) → List (Key × Stored V)
  matching group ids [] = []
  matching group ids (((g, (entity, name)), stored) ∷ table) =
      let rest = matching group ids table in
      if g == group
      then if is_in ids entity then ((g, (entity, name)), stored) ∷ rest else rest
      else rest

  -- `scan` is the order in which SQLite gives the rows.
  unfoldable pub read_batch :
      (List (Key × Stored V) → List (Key × Stored V))
      → String
      → List String
      → ℕ
      → OnlineStore V
      → Dict String (Dict String V)
  unfolding collect matching
  read_batch scan group entity_ids now s = collect now (scan (matching group entity_ids s.table)) []

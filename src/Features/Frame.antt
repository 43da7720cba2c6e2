-- ===== src/Features/Frame.antt =====
-- The data frames that the feature store moves about: rows with an entity, a time and the values of
-- the feature columns. Values are of an abstract type.
use ml_monitor.Prelude.{ℕ, String, Bool, List, any, ◌==◌, string_eq}
use ml_monitor.Prelude.Dict.{Dict}

pub record Row (V : Type 0) : Type 0 where
  pub entity_id : String
  pub event_timestamp : ℕ
  pub features : Dict String V

-- `columns` are all columns, "entity_id" and "event_timestamp" among them if they are there.
pub record Frame (V : Type 0) : Type 0 where
  pub columns : List String
  pub rows : List (Row V)

abbrev pub is_in : List String → String → Bool
is_in xs x = any (λ y. y == x) xs

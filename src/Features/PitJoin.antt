-- ===== src/Features/PitJoin.antt =====
-- src/ml_platform/features/core/pit_join.py: the point-in-time join. `merge_asof` of pandas is an
-- argument: for an entity and a time it gives the features of the row that it matches, if any.
pub mod Columns
pub mod Laws
use ml_monitor.Prelude.{
  ℕ, String, Bool, true, false, not, ◌&&◌, Option, none, some, List, [], ◌∷◌, ◌++◌, map, any,
  select, length, leb, ◌==◌, string_eq, if◌then◌else◌,
}
use ml_monitor.Prelude.Dict.{Dict}
use ml_monitor.Features.Frame.{Row, is_in}

-- A row of the training frame: the label's entity and time, and the cells so far by column.
pub record TrainingRow (V : Type 0) : Type 0 where
  pub entity_id : String
  pub event_timestamp : ℕ
  pub cells : List (String × Option V)

-- A feature group's table and its feature columns.
pub record GroupFrame (V : Type 0) : Type 0 where
  pub feature_cols : List String
  pub rows : List (Row V)

pub record Pandas (V : Type 0) : Type 0 where
  pub sort_labels : List (TrainingRow V) → List (TrainingRow V)
  pub sort_features : List (Row V) → List (Row V)
  -- The match of one row in `merge_asof(..., by=entity, direction="backward")`.
  pub asof : List (Row V) → String → ℕ → Option (Row V)
  -- The cell of a row, `none` if it is NaN.
  pub cell : String → Row V → Option V
  -- f"{group_name}__{c}"
  pub column_name : String → String → String
  pub zero : V
  -- `sorted(xs.unique().tolist())`
  pub sorted_unique : List String → List String

pub record PitJoinResult (V : Type 0) : Type 0 where
  pub training_df : List (TrainingRow V)
  pub uncovered_entity_ids : List (String × List String)

module _ {V : Type 0} (pd : Pandas V) where
  -- The cells that one group adds to a row.
  unfoldable pub new_cells :
      String → GroupFrame V → List (Row V) → TrainingRow V → List (String × Option V)
  new_cells group_name frame sorted row =
      let found = pd.asof sorted row.entity_id row.event_timestamp in
      map
        (λ c. (
          pd.column_name group_name c,
          elim found as (λ _. Option V) [ none ↦ none | some r ↦ pd.cell c r ],
        ))
        frame.feature_cols

  -- `merged[new_cols].isna().all(axis=1)`
  abbrev pub is_missing : String × Option V → Bool
  is_missing (c, none) = true
  is_missing (c, some v) = false

  unfoldable pub no_match : List (String × Option V) → Bool
  no_match [] = true
  no_match (x ∷ xs) = if is_missing x then no_match xs else false

  abbrev pub fill_zero : Bool → String × Option V → String × Option V
  fill_zero zero_fill (c, some v) = (c, some v)
  fill_zero zero_fill (c, none) = if zero_fill then (c, some pd.zero) else (c, none)

  -- One pass of the loop: the merged rows and the entities without coverage.
  unfoldable pub join_group :
      Bool → String → GroupFrame V → List (TrainingRow V) → List (TrainingRow V) × List String
  unfolding new_cells no_match
  join_group zero_fill group_name frame result =
      if leb (length frame.rows) 0
      then (result, pd.sorted_unique (map (λ (r : TrainingRow V). r.entity_id) result))
      else (let sorted = pd.sort_features frame.rows in
          let missing =
            select (λ (r : TrainingRow V). no_match (new_cells group_name frame sorted r)) result in
          (
            map
                (λ (r : TrainingRow V). record r {
                  cells =
                      r.cells ++ map (fill_zero zero_fill) (new_cells group_name frame sorted r);
                })
                result,
            pd.sorted_unique (map (λ (r : TrainingRow V). r.entity_id) missing),
          ))

  unfoldable pub join_groups :
      Bool → List (String × GroupFrame V) → List (TrainingRow V) → PitJoinResult V
  unfolding join_group
  join_groups zero_fill [] result = record { training_df = result; uncovered_entity_ids = [] }
  join_groups zero_fill ((name, frame) ∷ frames) result =
      let (merged, uncovered) = join_group zero_fill name frame result in
      let rest = join_groups zero_fill frames merged in
      record rest { uncovered_entity_ids = (name, uncovered) ∷ rest.uncovered_entity_ids }

  -- `none` is the ValueError for missing columns; `columns` are those of `entity_df`.
  unfoldable pub point_in_time_join :
      List String
      → List (TrainingRow V)
      → List (String × GroupFrame V)
      → String
      → Option (PitJoinResult V)
  unfolding join_groups
  point_in_time_join columns entity_rows frames fill_strategy =
      if is_in columns "entity_id" && is_in columns "event_timestamp"
      then some (join_groups (fill_strategy == "zero") frames (pd.sort_labels entity_rows))
      else none

-- ===== src/Features/Duckdb.antt =====
-- src/ml_platform/features/stores/offline/duckdb_store.py: the offline store over tables of DuckDB, and
-- its point-in-time join in SQL. A table is a group frame, which has the two key columns, so the ValueError of
-- `write` for a missing one does not arise; what ORDER BY leaves open is an argument. The import of
-- `REQUIRED_COLS` is a test in `get_historical_features`; the other methods are what their bodies do.
pub mod Laws
mod Tests
use ml_monitor.Prelude.{
  ℕ, String, Bool, true, false, ◌&&◌, Option, none, some, List, [], ◌∷◌, ◌++◌, map, select, length,
  leb, ◌==◌, string_eq, if◌then◌else◌,
}
use ml_monitor.Prelude.Dict.{Dict, get, put, remove}
use ml_monitor.Features.Frame.{Row, is_in}
use ml_monitor.Features.PitJoin.{
  TrainingRow, GroupFrame, Pandas, PitJoinResult, no_match, fill_zero,
}

-- The names that offline/base.py defines or imports.
abbrev pub base_names : List String
base_names =
    "annotations" ∷ "ABC" ∷ "abstractmethod" ∷ "pd" ∷ "PITJoinResult" ∷ "point_in_time_join"
    ∷ "OfflineStore" ∷ []

-- The store: its tables by name.
abbrev pub Tables : Type 0 → Type 0
Tables V = Dict String (GroupFrame V)

-- `none` is an exception of DuckDB for columns that do not fit the table.
unfoldable pub write :
    {V : Type 0}
    → (List String → List String → Bool)
    → String
    → GroupFrame V
    → Tables V
    → Option (ℕ × Tables V)
write fits group_name df tables = elim (get group_name tables) [
  | none ↦ some (length df.rows, put group_name df tables)
  | some table ↦
      if fits table.feature_cols df.feature_cols
      then some
          (length df.rows, put group_name (record table { rows = table.rows ++ df.rows }) tables)
      else none
]

unfoldable pub read : {V : Type 0} → String → Tables V → GroupFrame V
read group_name tables = elim (get group_name tables) [
  | none ↦ record { feature_cols = []; rows = [] }
  | some table ↦ table
]

unfoldable pub delete_group : {V : Type 0} → String → Tables V → Tables V
delete_group group_name tables = remove group_name tables

module _ {V : Type 0} (pd : Pandas V) (order_desc : List (Row V) → List (Row V)) where
  -- The condition of the LEFT JOIN.
  unfoldable pub is_known : String → ℕ → Row V → Bool
  is_known e t f = (f.entity_id == e) && leb f.event_timestamp t

  -- What DISTINCT ON keeps for one entity and time: the first row in the order, or a row of NULLs.
  unfoldable pub distinct_on : List (Row V) → String → ℕ → Option (Row V)
  unfolding is_known
  distinct_on rows e t = elim (order_desc (select (is_known e t) rows)) as (λ _. Option (Row V)) [
    | [] ↦ none
    | r ∷ more ↦ some r
  ]

  -- The columns of one joined row; without features it is the one column NULL.
  unfoldable pub joined_cells : String → GroupFrame V → TrainingRow V → List (String × Option V)
  unfolding distinct_on
  joined_cells group_name table e = elim table.feature_cols [
    | [] ↦ ("NULL", none) ∷ []
    | first ∷ more ↦
        map
          (λ c. (
            pd.column_name group_name c,
            elim (distinct_on table.rows e.entity_id e.event_timestamp) as (λ _. Option V) [
              | none ↦ none
              | some f ↦ pd.cell c f
            ],
          ))
          (first ∷ more)
  ]

  -- One pass of the loop. The join has one row for each entity and time, which the merge finds for
  -- every row of the result.
  unfoldable pub join_table :
      Bool → String → GroupFrame V → List (TrainingRow V) → List (TrainingRow V) × List String
  unfolding joined_cells
  join_table zero_fill group_name table result =
      let missing =
        select (λ (r : TrainingRow V). no_match pd (joined_cells group_name table r)) result in
      (
        map
            (λ (r : TrainingRow V). record r {
              cells = r.cells ++ map (fill_zero pd zero_fill) (joined_cells group_name table r);
            })
            result,
        pd.sorted_unique (map (λ (r : TrainingRow V). r.entity_id) missing),
      )

  -- `none` is the exception of DuckDB for a table that is not there.
  unfoldable pub join_tables :
      Bool → List String → Tables V → List (TrainingRow V) → Option (PitJoinResult V)
  unfolding join_table
  join_tables zero_fill [] tables result =
      some (record { training_df = result; uncovered_entity_ids = [] })
  join_tables zero_fill (name ∷ names) tables result = elim (get name tables) [
    | none ↦ none
    | some table ↦
        let (merged, uncovered) = join_table zero_fill name table result in
        elim (join_tables zero_fill names tables merged) [
          | none ↦ none
          | some rest ↦
              some (record rest {
                uncovered_entity_ids = (name, uncovered) ∷ rest.uncovered_entity_ids;
              })
        ]
  ]

  -- The import of `REQUIRED_COLS` comes first: `none` is its ImportError as well.
  unfoldable pub get_historical_features :
      List String
      → List (TrainingRow V)
      → List String
      → String
      → Tables V
      → Option (PitJoinResult V)
  unfolding join_tables
  get_historical_features defined entity_df feature_groups fill_strategy tables =
      if is_in defined "REQUIRED_COLS"
      then join_tables (fill_strategy == "zero") feature_groups tables (pd.sort_labels entity_df)
      else none

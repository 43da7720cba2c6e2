-- ===== src/Features/Duckdb/Laws.antt =====
-- The join in SQL is the join of pandas.
use mathlib.Core.List.{Memᴰ}
use ml_monitor.Prelude.{
  ℕ, ◌≤◌, ◌≡◌, ◌≢◌, refl, ap, ◌∙◌, String, Bool, true, false, Option, none, some, List, [], ◌∷◌,
  map, select, All, arith, length, leb, ◌==◌, string_eq, List-cases, fun_ext, if◌then◌else◌, inl,
  inr,
}
use ml_monitor.Prelude.Dict.{get}
use ml_monitor.Features.Frame.{Row, is_in}
use ml_monitor.Features.PitJoin.{
  TrainingRow, GroupFrame, Pandas, new_cells, join_group, join_groups, point_in_time_join,
}
use ml_monitor.Features.Duckdb.{
  Tables, is_known, distinct_on, joined_cells, join_table, join_tables, base_names,
  get_historical_features,
}

module _ {V : Type 0} (pd : Pandas V) (order_desc : List (Row V) → List (Row V)) where
  -- The rows of an entity up to a time.
  abbrev pub known : String → ℕ → List (Row V) → List (Row V)
  known e t rows = select (is_known pd order_desc e t) rows

  -- A latest one of some rows, or none of no rows.
  abbrev pub IsLatest : List (Row V) → Option (Row V) → Type 0
  IsLatest rows none = rows ≡ []
  IsLatest rows (some r) =
      Memᴰ r rows × All (λ (x : Row V). x.event_timestamp ≤ r.event_timestamp) rows

  abbrev pub first_of : List (Row V) → Option (Row V)
  first_of [] = none
  first_of (r ∷ rows) = some r

  -- ORDER BY event_timestamp DESC
  abbrev pub IsDescending : Type 0
  IsDescending = (rows : List (Row V)) → IsLatest rows (first_of (order_desc rows))

  -- `merge_asof(..., direction="backward")` after the sort
  abbrev pub IsBackwardJoin : Type 0
  IsBackwardJoin =
      (rows : List (Row V)) (e : String) (t : ℕ)
      → IsLatest (known e t rows) (pd.asof (pd.sort_features rows) e t)

  -- No entity has two rows of one time.
  abbrev pub IsDistinct : List (Row V) → Type 0
  IsDistinct rows =
      (e : String) (t : ℕ) (r s : Row V)
      → Memᴰ r (known e t rows)
      → Memᴰ s (known e t rows)
      → r.event_timestamp ≡ s.event_timestamp
      → r ≡ s

  -- A table that the two joins read alike.
  abbrev pub IsJoinable : Tables V → String × GroupFrame V → Type 0
  IsJoinable tables (name, frame) =
      (get name tables ≡ some frame)
      × (frame.rows ≢ [])
      × (frame.feature_cols ≢ [])
      × IsDistinct frame.rows

  All-Memᴰ : (P : Row V → Type 0) (r : Row V) (rows : List (Row V)) → All P rows → Memᴰ r rows → P r
  All-Memᴰ P r [] h m = elim m [ ]
  All-Memᴰ P r (x ∷ rows) h (Memᴰ.head same) = rw same h.0
  All-Memᴰ P r (x ∷ rows) h (Memᴰ.tail more) = All-Memᴰ P r rows h.1 more

  not_in-nil : (r : Row V) (rows : List (Row V)) → rows ≡ [] → Memᴰ r rows → ⊥
  not_in-nil r [] h m = elim m [ ]
  not_in-nil r (x ∷ rows) h m = absurd (cc h)

  IsLatest-unique :
      (rows : List (Row V)) (a b : Option (Row V))
      → ((r s : Row V) → Memᴰ r rows → Memᴰ s rows → r.event_timestamp ≡ s.event_timestamp → r ≡ s)
      → IsLatest rows a
      → IsLatest rows b
      → a ≡ b
  IsLatest-unique rows none none distinct h k = refl
  IsLatest-unique rows none (some r) distinct h k = absurd (not_in-nil r rows h k.0)
  IsLatest-unique rows (some r) none distinct h k = absurd (not_in-nil r rows k h.0)
  IsLatest-unique rows (some r) (some s) distinct h k =
      let below = All-Memᴰ (λ (x : Row V). x.event_timestamp ≤ r.event_timestamp) s rows h.1 k.0 in
      let above = All-Memᴰ (λ (x : Row V). x.event_timestamp ≤ s.event_timestamp) r rows k.1 h.0 in
      ap some (distinct r s h.0 k.0 (omega (arith, below, above)))

  distinct_on-first :
      (rows : List (Row V)) (e : String) (t : ℕ)
      → distinct_on pd order_desc rows e t ≡ first_of (order_desc (known e t rows))
  unfolding distinct_on
  distinct_on-first rows e t = elim (List-cases (order_desc (known e t rows))) [
    | inl nothing ↦ ground (arith, nothing)
    | inr (r, more, found) ↦ ground (arith, found)
  ]

  distinct_on-asof :
      IsDescending
      → IsBackwardJoin
      → (rows : List (Row V)) (e : String) (t : ℕ) → IsDistinct rows
      → distinct_on pd order_desc rows e t ≡ pd.asof (pd.sort_features rows) e t
  distinct_on-asof descending backward rows e t distinct =
      distinct_on-first rows e t
      ∙ IsLatest-unique (known e t rows) (first_of (order_desc (known e t rows)))
          (pd.asof (pd.sort_features rows) e t) (distinct e t) (descending (known e t rows))
          (backward rows e t)

  joined_cells-new_cells :
      IsDescending
      → IsBackwardJoin
      → (name : String) (frame : GroupFrame V) (row : TrainingRow V) → frame.feature_cols ≢ []
      → IsDistinct frame.rows
      → joined_cells pd order_desc name frame row
        ≡ new_cells pd name frame (pd.sort_features frame.rows) row
  unfolding joined_cells new_cells
  joined_cells-new_cells descending backward name frame row some_cols distinct =
      elim (List-cases frame.feature_cols) [
        | inl none_there ↦ absurd (some_cols none_there)
        | inr (c, cs, cols) ↦ rw cols (
            ap
              (λ (found : Option (Row V)).
                map
                  (λ k. (
                    pd.column_name name k,
                    elim found as (λ _. Option V) [ none ↦ none | some f ↦ pd.cell k f ],
                  ))
                  (c ∷ cs))
              (distinct_on-asof descending backward frame.rows row.entity_id row.event_timestamp
                distinct))
      ]

  join_table-join_group :
      IsDescending
      → IsBackwardJoin
      → (zero_fill : Bool) (name : String) (frame : GroupFrame V) (result : List (TrainingRow V))
      → frame.rows ≢ []
      → frame.feature_cols ≢ []
      → IsDistinct frame.rows
      → join_table pd order_desc zero_fill name frame result
        ≡ join_group pd zero_fill name frame result
  unfolding join_table join_group
  join_table-join_group descending backward zero_fill name frame result some_rows some_cols
        distinct =
      let same : joined_cells pd order_desc name frame
          ≡ new_cells pd name frame (pd.sort_features frame.rows) =
        fun_ext
          (λ row. joined_cells-new_cells descending backward name frame row some_cols distinct) in
      elim (List-cases frame.rows) [
        | inl empty ↦ absurd (some_rows empty)
        | inr (r, rows, stored) ↦
            let full : leb (length frame.rows) 0 ≡ false = ground (arith, stored) in
            rw (full, same) refl
      ]

  join_tables-join_groups :
      IsDescending
      → IsBackwardJoin
      → (zero_fill : Bool) (frames : List (String × GroupFrame V)) (tables : Tables V)
        (result : List (TrainingRow V))
      → All (IsJoinable tables) frames
      → join_tables pd order_desc zero_fill (map (λ x. x.0) frames) tables result
        ≡ some (join_groups pd zero_fill frames result)
  unfolding join_tables join_groups
  join_tables-join_groups descending backward zero_fill [] tables result h = refl
  join_tables-join_groups descending backward zero_fill ((name, frame) ∷ frames) tables result h =
      let (there, some_rows, some_cols, distinct) = h.0 in
      let merged = (join_group pd zero_fill name frame result).0 in
      ground (
        arith,
        there,
        join_table-join_group descending backward zero_fill name frame result some_rows some_cols
            distinct,
        join_tables-join_groups descending backward zero_fill frames tables merged h.1,
      )

  -- As the module stands, every call of the join in SQL ends in an ImportError, since base.py does not
  -- define the name that it imports. With that name defined, an ORDER BY that puts a latest row first, and a merge_asof that matches a latest row up to the
  -- label's time: over tables that have rows and features, and no two rows of one entity and time, the
  -- join in SQL returns exactly what the join of pandas over the same frames returns, the rows, the cells
  -- and the entities without coverage, with any fill strategy.
  pub get_historical_features-point_in_time_join :
      IsDescending
      → IsBackwardJoin
      → (columns defined : List String) (entity_df : List (TrainingRow V))
        (frames : List (String × GroupFrame V)) (fill_strategy : String) (tables : Tables V)
      → is_in columns "entity_id" ≡ true
      → is_in columns "event_timestamp" ≡ true
      → All (IsJoinable tables) frames
      → let groups = map (λ x. x.0) frames in
        (get_historical_features pd order_desc base_names entity_df groups fill_strategy tables
          ≡ none)
        × (get_historical_features pd order_desc defined entity_df groups fill_strategy tables ≡ (
            if is_in defined "REQUIRED_COLS"
            then point_in_time_join pd columns entity_df frames fill_strategy
            else none))
  unfolding get_historical_features point_in_time_join
  get_historical_features-point_in_time_join descending backward columns defined entity_df frames
        fill_strategy tables e t h =
      let joined =
        join_tables-join_groups descending backward (fill_strategy == "zero") frames tables
          (pd.sort_labels entity_df) h
        ∙ rw (e, t) refl in
      (refl, ap (λ x. if is_in defined "REQUIRED_COLS" then x else none) joined)

-- ===== src/Features/PitJoin/Columns.antt =====
-- Which columns the joined rows have: those of the groups, in their order.
use mathlib.Core.List.{append_assoc, append-nil}
use ml_monitor.Prelude.{
  ◌≡◌, refl, ap, ◌∙◌, String, Bool, Option, none, some, List, [], ◌∷◌, ◌++◌, map, map-append,
  length, All, leb, Bool-cases, inl, inr, true, false, if◌then◌else◌,
}
use ml_monitor.Features.PitJoin.{
  TrainingRow, GroupFrame, Pandas, new_cells, fill_zero, join_group, join_groups,
}

module _ {V : Type 0} (pd : Pandas V) where
  abbrev pub names : List (String × Option V) → List String
  names cells = map (λ (c : String × Option V). c.0) cells

  -- The columns that one group adds, and those of all groups. A group without rows adds none.
  abbrev pub group_columns : String → GroupFrame V → List String
  group_columns name frame =
      if leb (length frame.rows) 0 then [] else map (pd.column_name name) frame.feature_cols

  abbrev pub columns_of : List (String × GroupFrame V) → List String
  columns_of [] = []
  columns_of ((name, frame) ∷ frames) = group_columns name frame ++ columns_of frames

  abbrev pub HasColumns : List String → TrainingRow V → Type 0
  HasColumns columns row = names row.cells ≡ columns

  filled-name :
      (zero_fill : Bool) (c : String) (x : Option V) → (fill_zero pd zero_fill (c, x)).0 ≡ c
  filled-name zero_fill c (some v) = refl
  filled-name true c none = refl
  filled-name false c none = refl

  names-filled :
      (zero_fill : Bool) (name : String) (value : String → Option V) (cols : List String)
      → names (map (fill_zero pd zero_fill) (map (λ c. (pd.column_name name c, value c)) cols))
        ≡ map (pd.column_name name) cols
  names-filled zero_fill name value [] = refl
  names-filled zero_fill name value (c ∷ cols) =
      rw (filled-name zero_fill (pd.column_name name c) (value c))
        (ap (λ xs. pd.column_name name c ∷ xs) (names-filled zero_fill name value cols))

  merged-HasColumns :
      (zero_fill : Bool) (name : String) (frame : GroupFrame V) (before : List String)
      (rows : List (TrainingRow V))
      → All (HasColumns before) rows
      → All (HasColumns (before ++ map (pd.column_name name) frame.feature_cols)) (
          map
            (λ (r : TrainingRow V). record r {
              cells =
                  r.cells
                  ++ map
                      (fill_zero pd zero_fill)
                      (new_cells pd name frame (pd.sort_features frame.rows) r);
            })
            rows)
  unfolding new_cells
  merged-HasColumns zero_fill name frame before [] h = tt
  merged-HasColumns zero_fill name frame before (r ∷ rows) h =
      let value : String → Option V = λ c.
        elim (pd.asof (pd.sort_features frame.rows) r.entity_id r.event_timestamp)
          as (λ _. Option V) [ none ↦ none | some x ↦ pd.cell c x ] in
      let added =
        map (fill_zero pd zero_fill)
          (map (λ c. (pd.column_name name c, value c)) frame.feature_cols) in
      (
        map-append (λ (c : String × Option V). c.0) r.cells added
            ∙ ap (λ xs. xs ++ names added) h.0
            ∙ ap (λ xs. before ++ xs) (names-filled zero_fill name value frame.feature_cols),
        merged-HasColumns zero_fill name frame before rows h.1,
      )

  join_group-HasColumns :
      (zero_fill : Bool) (name : String) (frame : GroupFrame V) (before : List String)
      (rows : List (TrainingRow V))
      → All (HasColumns before) rows
      → All
          (HasColumns (before ++ group_columns name frame))
          (join_group pd zero_fill name frame rows).0
  unfolding join_group
  join_group-HasColumns zero_fill name frame before rows h =
      elim (Bool-cases (leb (length frame.rows) 0)) [
        | inl empty ↦ rw (empty, append-nil before) h
        | inr full ↦ rw full (merged-HasColumns zero_fill name frame before rows h)
      ]

  pub join_groups-HasColumns :
      (zero_fill : Bool) (frames : List (String × GroupFrame V)) (before : List String)
      (rows : List (TrainingRow V))
      → All (HasColumns before) rows
      → All
          (HasColumns (before ++ columns_of frames))
          (join_groups pd zero_fill frames rows).training_df
  unfolding join_groups
  join_groups-HasColumns zero_fill [] before rows h = rw (append-nil before) h
  join_groups-HasColumns zero_fill ((name, frame) ∷ frames) before rows h =
      rw (← append_assoc before (group_columns name frame) (columns_of frames)) (
        join_groups-HasColumns zero_fill frames (before ++ group_columns name frame)
          (join_group pd zero_fill name frame rows).0
          (join_group-HasColumns zero_fill name frame before rows h))

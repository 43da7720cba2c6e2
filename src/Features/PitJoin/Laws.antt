-- ===== src/Features/PitJoin/Laws.antt =====
-- No leakage: what a training row holds was known at or before its label's time.
use mathlib.Core.List.{Memᴰ}
use ml_monitor.Prelude.{
  ℕ, ◌≤◌, ◌≡◌, refl, ap, ◌∙◌, ◌⊎◌, inl, inr, String, Bool, true, false, Option, none, some, List,
  [], ◌∷◌, ◌++◌, map, length, length-map, All, All-append, arith, leb, ◌==◌, string_eq, Bool-cases,
  Option-cases,
}
use ml_monitor.Features.Frame.{Row}
use ml_monitor.Features.PitJoin.{
  TrainingRow, GroupFrame, Pandas, PitJoinResult, new_cells, fill_zero, join_group, join_groups,
  point_in_time_join,
}
use ml_monitor.Features.PitJoin.Columns.{names, columns_of, HasColumns, join_groups-HasColumns}

module _ {V : Type 0} (pd : Pandas V) where
  -- `direction="backward"` and `by`, after the sort: a matched row is one of the frame's, of the
  -- entity, and not later than the time.
  abbrev pub IsBackward : Type 0
  IsBackward =
      (rows : List (Row V)) (e : String) (t : ℕ) (r : Row V)
      → pd.asof (pd.sort_features rows) e t ≡ some r
      → Memᴰ r rows × (r.entity_id ≡ e) × (r.event_timestamp ≤ t)

  -- Where a value of a column comes from: a feature of one of the frames, whose column it is, in a row
  -- of that frame that is of the entity and not later than the time.
  abbrev pub IsFrom : List (String × GroupFrame V) → String → ℕ → String → V → Type 0
  IsFrom frames e t column v =
      (group : String) × (frame : GroupFrame V) × (feature : String) × (r : Row V) × Memᴰ
        (group, frame) frames
      × Memᴰ feature frame.feature_cols
      × (column ≡ pd.column_name group feature)
      × Memᴰ r frame.rows
      × (r.entity_id ≡ e)
      × (r.event_timestamp ≤ t)
      × (pd.cell feature r ≡ some v)

  -- A cell is empty, or the zero of the fill if that was asked for, or it comes from the frames; with
  -- the fill it is not empty.
  abbrev pub IsKnown : List (String × GroupFrame V) → Bool → String → ℕ → String × Option V → Type 0
  IsKnown frames zero_fill e t (c, none) = zero_fill ≡ false
  IsKnown frames zero_fill e t (c, some v) =
      ((zero_fill ≡ true) × (v ≡ pd.zero)) ⊎ IsFrom frames e t c v

  abbrev pub IsHonest : List (String × GroupFrame V) → Bool → TrainingRow V → Type 0
  IsHonest frames zero_fill row =
      All (IsKnown frames zero_fill row.entity_id row.event_timestamp) row.cells

  module _ (backward : IsBackward) (all : List (String × GroupFrame V)) (zero_fill : Bool) where
    empty_IsKnown :
        (e : String) (t : ℕ) (column : String)
        → IsKnown all zero_fill e t (fill_zero pd zero_fill (column, none))
    empty_IsKnown e t column = elim (Bool-cases zero_fill) [
      | inl filled ↦ rw filled (inl (refl, refl))
      | inr kept ↦ rw kept refl
    ]

    cell_IsKnown :
        (e : String) (t : ℕ) (group : String) (frame : GroupFrame V) (feature : String)
        (found : Option (Row V))
        → Memᴰ (group, frame) all
        → Memᴰ feature frame.feature_cols
        → ((r : Row V)
            → found ≡ some r
            → Memᴰ r frame.rows × (r.entity_id ≡ e) × (r.event_timestamp ≤ t))
        → IsKnown all zero_fill e t (
            fill_zero pd zero_fill (
              pd.column_name group feature,
              elim found as (λ _. Option V) [ none ↦ none | some r ↦ pd.cell feature r ],
            ))
    cell_IsKnown e t group frame feature none joined member h =
        empty_IsKnown e t (pd.column_name group feature)
    cell_IsKnown e t group frame feature (some r) joined member h =
        elim (Option-cases (pd.cell feature r)) [
          | inl empty ↦ rw empty (empty_IsKnown e t (pd.column_name group feature))
          | inr (v, full) ↦
              let (stored, same, before) = h r refl in
              rw full
                (inr (group, frame, feature, r, joined, member, refl, stored, same, before, full))
        ]

    new_cells-IsKnown :
        (group : String) (frame : GroupFrame V) (cols : List String) (row : TrainingRow V)
        → Memᴰ (group, frame) all
        → ((c : String) → Memᴰ c cols → Memᴰ c frame.feature_cols)
        → All (IsKnown all zero_fill row.entity_id row.event_timestamp) (
            map (fill_zero pd zero_fill) (
              map
                (λ c. (
                  pd.column_name group c,
                  elim (pd.asof (pd.sort_features frame.rows) row.entity_id row.event_timestamp)
                      as (λ _. Option V) [ none ↦ none | some r ↦ pd.cell c r ],
                ))
                cols))
    new_cells-IsKnown group frame [] row joined within = tt
    new_cells-IsKnown group frame (c ∷ cols) row joined within = (
      cell_IsKnown row.entity_id row.event_timestamp group frame c
          (pd.asof (pd.sort_features frame.rows) row.entity_id row.event_timestamp) joined
          (within c (Memᴰ.head refl))
          (λ r found. backward frame.rows row.entity_id row.event_timestamp r found),
      new_cells-IsKnown group frame cols row joined (λ d m. within d (Memᴰ.tail m)),
    )

    merged-IsHonest :
        (name : String) (frame : GroupFrame V) (rows : List (TrainingRow V))
        → Memᴰ (name, frame) all
        → All (IsHonest all zero_fill) rows
        → All (IsHonest all zero_fill) (
            map
              (λ (r : TrainingRow V). record r {
                cells =
                    r.cells
                    ++ map
                        (fill_zero pd zero_fill)
                        (new_cells pd name frame (pd.sort_features frame.rows) r);
              })
              rows)
    unfolding new_cells
    merged-IsHonest name frame [] joined h = tt
    merged-IsHonest name frame (r ∷ rows) joined h = (
      All-append _ r.cells _ h.0
          (new_cells-IsKnown name frame frame.feature_cols r joined (λ c m. m)),
      merged-IsHonest name frame rows joined h.1,
    )

    join_group-IsHonest :
        (name : String) (frame : GroupFrame V) (rows : List (TrainingRow V))
        → Memᴰ (name, frame) all
        → All (IsHonest all zero_fill) rows
        → All (IsHonest all zero_fill) (join_group pd zero_fill name frame rows).0
          × (length (join_group pd zero_fill name frame rows).0 ≡ length rows)
    unfolding join_group
    join_group-IsHonest name frame rows joined h = elim (Bool-cases (leb (length frame.rows) 0)) [
      | inl empty ↦ rw empty (h, refl)
      | inr some_rows ↦ rw some_rows (merged-IsHonest name frame rows joined h, length-map _ rows)
    ]

    join_groups-IsHonest :
        (frames : List (String × GroupFrame V)) (rows : List (TrainingRow V))
        → ((x : String × GroupFrame V) → Memᴰ x frames → Memᴰ x all)
        → All (IsHonest all zero_fill) rows
        → All (IsHonest all zero_fill) (join_groups pd zero_fill frames rows).training_df
          × (length (join_groups pd zero_fill frames rows).training_df ≡ length rows)
    unfolding join_groups
    join_groups-IsHonest [] rows within h = (h, refl)
    join_groups-IsHonest ((name, frame) ∷ frames) rows within h =
        let (honest, same) =
          join_group-IsHonest name frame rows (within (name, frame) (Memᴰ.head refl)) h in
        let (honest', same') =
          join_groups-IsHonest frames (join_group pd zero_fill name frame rows).0
            (λ x m. within x (Memᴰ.tail m)) honest in
        (honest', same' ∙ same)

    bare-IsHonest :
        (rows : List (TrainingRow V))
        → All (λ (r : TrainingRow V). r.cells ≡ []) rows
        → All (IsHonest all zero_fill) rows
    bare-IsHonest [] h = tt
    bare-IsHonest (r ∷ rows) h = (rw h.0 tt, bare-IsHonest rows h.1)

  bare-HasColumns :
      (rows : List (TrainingRow V))
      → All (λ (r : TrainingRow V). r.cells ≡ []) rows
      → All (HasColumns pd []) rows
  bare-HasColumns [] h = tt
  bare-HasColumns (r ∷ rows) h = (ap (names pd) h.0, bare-HasColumns rows h.1)

  -- If pandas' backward match gives only rows of its frame, of the entity and not later than the label,
  -- and its sort keeps the rows without feature cells, then the join of any groups with any fill
  -- strategy has one row for each label with the columns of the groups that have rows, in
  -- their order, and each of its cells is empty, or the zero of the fill, or
  -- the value of the column's own feature in a row of that group's frame that is of the label's entity
  -- and not later than the label; with the strategy "zero" none is empty, and with another no cell is
  -- filled.
  pub point_in_time_join-IsHonest :
      IsBackward
      → (columns : List String) (labels : List (TrainingRow V))
        (frames : List (String × GroupFrame V)) (fill_strategy : String) (result : PitJoinResult V)
      → length (pd.sort_labels labels) ≡ length labels
      → All (λ (r : TrainingRow V). r.cells ≡ []) (pd.sort_labels labels)
      → point_in_time_join pd columns labels frames fill_strategy ≡ some result
      → All (IsHonest frames (fill_strategy == "zero")) result.training_df
        × (length result.training_df ≡ length labels)
        × All (HasColumns pd (columns_of pd frames)) result.training_df
  unfolding point_in_time_join
  point_in_time_join-IsHonest backward columns labels frames fill_strategy result sorted bare done =
      let zero_fill : Bool = fill_strategy == "zero" in
      let (honest, same) =
        join_groups-IsHonest backward frames zero_fill frames (pd.sort_labels labels) (λ x m. m)
          (bare-IsHonest backward frames zero_fill (pd.sort_labels labels) bare) in
      let e : join_groups pd zero_fill frames (pd.sort_labels labels) ≡ result =
        ground (arith, done) in
      let bare_columns : All (HasColumns pd []) (pd.sort_labels labels) =
        bare-HasColumns (pd.sort_labels labels) bare in
      rw (← e) (
        honest,
        same ∙ sorted,
        join_groups-HasColumns pd zero_fill frames [] (pd.sort_labels labels) bare_columns,
      )

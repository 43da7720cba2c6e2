-- ===== src/Features/GroupDrift/Laws.antt =====
-- The two sides that a drift check compares: all of the history, and nothing of the present in the past.
use ml_monitor.Prelude.{
  ℕ, zero, suc, ◌+◌, ◌/◌, ◌≤◌, ◌<◌, List-cases, length-take, ◌≡◌, refl, sym, ap, true,
  if◌then◌else◌, string_eq, ◌∙◌, String, Bool, not, Option, none, some, List, [], ◌∷◌, select, take,
  drop, All, arith, ◌||◌, length, any, leb, ltb, Option-cases, Bool-cases, inl, inr, Floats,
}
use ml_monitor.Prelude.Dict.{Dict}
use ml_monitor.Features.Frame.{Row}
use ml_monitor.Features.Store.{Libraries, FeatureStore, offline_read}
use ml_monitor.Monitoring.DataDrift.{Column, Numerics, FeatureDrift, ok, detect_data_drift}
use ml_monitor.Monitoring.Monitor.Drift.Report.{Checked-cases}
use ml_monitor.Pipeline.Reference.{feature_columns, has_column}
use ml_monitor.Features.GroupDrift.{checked, slice_columns, split_rows, compare_sides, check_drift}

module _ {V : Type 0} where
  -- The rows in the order of their times.
  abbrev pub Ordered : List (Row V) → Type 0
  Ordered [] = Unit
  Ordered (r ∷ rows) =
      All (λ (x : Row V). r.event_timestamp ≤ x.event_timestamp) rows × Ordered rows

  -- No row of the first list is later than one of the second.
  abbrev pub Before : List (Row V) → List (Row V) → Type 0
  Before reference current =
      All (λ (r : Row V). All (λ (c : Row V). r.event_timestamp ≤ c.event_timestamp) current)
        reference

  -- How many rows pass a test.
  abbrev pub count : (Row V → Bool) → List (Row V) → ℕ
  count p rows = length (select p rows)

  -- Each row stands on one side, as often as it is there.
  abbrev pub Parts : List (Row V) → List (Row V) → List (Row V) → Type 0
  Parts reference current rows =
      (p : Row V → Bool) → count p reference + count p current ≡ count p rows

  All-drop : (P : Row V → Type 0) (n : ℕ) (rows : List (Row V)) → All P rows → All P (drop n rows)
  All-drop P zero rows h = h
  All-drop P (suc n) [] h = tt
  All-drop P (suc n) (r ∷ rows) h = All-drop P n rows h.1

  take-drop-Before :
      (n : ℕ) (rows : List (Row V)) → Ordered rows → Before (take n rows) (drop n rows)
  take-drop-Before zero rows h = tt
  take-drop-Before (suc n) [] h = tt
  take-drop-Before (suc n) (r ∷ rows) h = (
    All-drop (λ (x : Row V). r.event_timestamp ≤ x.event_timestamp) n rows h.0,
    take-drop-Before n rows h.1,
  )

  take-drop-Parts : (n : ℕ) (rows : List (Row V)) → Parts (take n rows) (drop n rows) rows
  take-drop-Parts zero rows p = omega arith
  take-drop-Parts (suc n) [] p = omega arith
  take-drop-Parts (suc n) (r ∷ rows) p = ground (arith, take-drop-Parts n rows p)

  from_time :
      (t a : ℕ) (rows : List (Row V))
      → a ≤ t
      → All
          (λ (c : Row V). a ≤ c.event_timestamp)
          (select (λ (r : Row V). leb t r.event_timestamp) rows)
  from_time t a [] h = tt
  from_time t a (r ∷ rows) h = elim (Bool-cases (leb t r.event_timestamp)) [
    | inl later ↦ rw later (ground (arith, later), from_time t a rows h)
    | inr before ↦ rw before (from_time t a rows h)
  ]

  before_time :
      (t : ℕ) (rows : List (Row V))
      → All
          (λ (x : Row V). x.event_timestamp < t)
          (select (λ (r : Row V). ltb r.event_timestamp t) rows)
  before_time t [] = tt
  before_time t (r ∷ rows) = elim (Bool-cases (ltb r.event_timestamp t)) [
    | inl before ↦ rw before (ground (arith, before), before_time t rows)
    | inr later ↦ rw later (before_time t rows)
  ]

  time-Before :
      (t : ℕ) (rows all : List (Row V))
      → Before
          (select (λ (r : Row V). ltb r.event_timestamp t) rows)
          (select (λ (r : Row V). leb t r.event_timestamp) all)
  time-Before t [] all = tt
  time-Before t (r ∷ rows) all = elim (Bool-cases (ltb r.event_timestamp t)) [
    | inl before ↦
        rw before
          (from_time t r.event_timestamp all (ground (arith, before)), time-Before t rows all)
    | inr later ↦ rw later (time-Before t rows all)
  ]

  time-Parts :
      (t : ℕ) (rows : List (Row V))
      → Parts
          (select (λ (r : Row V). ltb r.event_timestamp t) rows)
          (select (λ (r : Row V). leb t r.event_timestamp) rows)
          rows
  time-Parts t [] p = refl
  time-Parts t (r ∷ rows) p = ground (arith, time-Parts t rows p)

  split_rows-Parts :
      (split_at : Option ℕ) (rows : List (Row V))
      → Parts (split_rows split_at rows).0 (split_rows split_at rows).1 rows
  unfolding split_rows
  split_rows-Parts none rows = take-drop-Parts (length rows / 2) rows
  split_rows-Parts (some t) rows = time-Parts t rows

  split_rows-Before :
      (split_at : Option ℕ) (rows : List (Row V))
      → Ordered rows
      → Before (split_rows split_at rows).0 (split_rows split_at rows).1
  unfolding split_rows
  split_rows-Before none rows h = take-drop-Before (length rows / 2) rows h
  split_rows-Before (some t) rows h = time-Before t rows rows

module _ (fl : Floats) {S V : Type 0} (lib : Libraries S V) (column_of : List (Option V) → Column V)
    (np : Numerics fl.Float V) where
  open fl use {Float}

  -- A sort by time that keeps each row.
  abbrev pub IsTimeSort : (List (Row V) → List (Row V)) → Type 0
  IsTimeSort sort =
      (rows : List (Row V))
      → Ordered (sort rows) × ((p : Row V → Bool) → count p (sort rows) ≡ count p rows)

  -- The sides are those of the given time, or the first of them is half of the history.
  abbrev pub IsSplit : Option ℕ → List (Row V) → List (Row V) → List (Row V) → Type 0
  IsSplit (some t) history reference current =
      All (λ (r : Row V). r.event_timestamp < t) reference
      × All (λ (c : Row V). t ≤ c.event_timestamp) current
  IsSplit none history reference current = length reference ≡ length history / 2

  -- Two sides of a history, in their order of time, and what their comparison gives: nothing exactly
  -- if a side is empty, and else what the detectors find.
  abbrev pub IsCompared :
      List String
      → Option ℕ
      → List (Row V)
      → String
      → String
      → Float
      → Dict String (FeatureDrift Float)
      → Type 0
  IsCompared cols split_at history num cat threshold results =
      (reference : List (Row V)) × (current : List (Row V)) × Parts reference current history
      × Before reference current
      × IsSplit split_at history reference current
      × (if leb (length reference) 0 || leb (length current) 0
          then results ≡ []
          else detect_data_drift fl np
              (slice_columns fl lib column_of np cols (lib.sort_values history) reference)
              (slice_columns fl lib column_of np cols (lib.sort_values history) current) num cat
              threshold
            ≡ ok results)

  compare_sides_lem :
      (cols : List String) (df reference current : List (Row V)) (num cat : String)
      (threshold : Float) (results : Dict String (FeatureDrift Float))
      → compare_sides fl lib column_of np cols df (reference, current) num cat threshold
        ≡ checked results
      → (if leb (length reference) 0 || leb (length current) 0
          then results ≡ []
          else detect_data_drift fl np
              (slice_columns fl lib column_of np cols df reference)
              (slice_columns fl lib column_of np cols df current)
              num
              cat
              threshold
            ≡ ok results)
  unfolding compare_sides
  compare_sides_lem cols df reference current num cat threshold results h =
      elim (Bool-cases (leb (length reference) 0 || leb (length current) 0)) [
        | inl one_sided ↦ rw one_sided (ground (arith, one_sided, h))
        | inr two_sided ↦
            elim (Bool-cases (any (λ c. not (has_column fl lib column_of df c)) cols)) [
              | inl missing ↦ absurd (ground (arith, two_sided, missing, h))
              | inr whole ↦
                  elim (Checked-cases (
                    detect_data_drift fl np (slice_columns fl lib column_of np cols df reference)
                      (slice_columns fl lib column_of np cols df current) num cat threshold)) [
                        | inl (e, failed) ↦ absurd (ground (arith, two_sided, whole, failed, h))
                        | inr (found, made) ↦
                            rw two_sided (made ∙ ground (arith, two_sided, whole, made, h))
                      ]
            ]
      ]

  split_rows-IsSplit :
      (split_at : Option ℕ) (history sorted : List (Row V))
      → length sorted ≡ length history
      → IsSplit split_at history (split_rows split_at sorted).0 (split_rows split_at sorted).1
  unfolding split_rows
  split_rows-IsSplit none history sorted same =
      length-take (length sorted / 2) sorted ∙ omega (arith, same)
  split_rows-IsSplit (some t) history sorted same =
      (before_time t sorted, from_time t t sorted (omega arith))

  count-all : (rows : List (Row V)) → count (λ r. true) rows ≡ length rows
  count-all [] = refl
  count-all (r ∷ rows) = ap suc (count-all rows)

  -- With a sort by time that keeps each row: a check that returns splits the stored history of the
  -- group in two, each row on one side as often as it is there, and no reference row later than a
  -- current one. With a split time the reference is what was before it and the current rows are those
  -- from it on; without one the reference is half of the history. The result is empty if a side has no
  -- rows, and otherwise what the detectors find between the registered features of the two sides, with
  -- the dtypes of the whole history.
  pub check_drift-IsCompared :
      IsTimeSort lib.sort_values
      → (group : String) (split_at : Option ℕ) (num cat : String) (threshold : Float)
        (fs : FeatureStore fl lib) (results : Dict String (FeatureDrift Float))
      → check_drift fl lib column_of np group split_at num cat threshold fs ≡ checked results
      → (cols : List String) × (feature_columns fl lib column_of group fs ≡ some cols)
        × IsCompared cols split_at (offline_read fl lib group fs) num cat threshold results
  unfolding check_drift
  check_drift-IsCompared is_sort group split_at num cat threshold fs results h =
      let history = offline_read fl lib group fs in
      let sorted = lib.sort_values history in
      let (reference, current) = split_rows split_at sorted in
      elim (Option-cases (feature_columns fl lib column_of group fs)) [
        | inl unknown ↦ absurd (ground (arith, unknown, h))
        | inr (cols, registered) ↦ elim (List-cases history) [
          | inl empty ↦ (
            cols,
            registered,
            (
              [],
              [],
              (λ p. rw empty refl),
              tt,
              no_rows split_at history empty,
              ground (arith, registered, empty, h),
            ),
          )
          | inr (r, more, stored) ↦
              let (ordered, kept) = is_sort history in
              let same : length sorted ≡ length history =
                sym (count-all sorted) ∙ kept (λ x. true) ∙ count-all history in
              (
                cols,
                registered,
                (
                  reference,
                  current,
                  (λ p. split_rows-Parts split_at sorted p ∙ kept p),
                  split_rows-Before split_at sorted ordered,
                  split_rows-IsSplit split_at history sorted same,
                  compare_sides_lem cols sorted reference current num cat threshold results
                      (ground (arith, registered, stored, h)),
                ),
              )
        ]
      ]
    where
      no_rows :
          (split_at : Option ℕ) (history : List (Row V))
          → history ≡ []
          → IsSplit split_at history [] []
      no_rows none history empty = rw empty (omega arith)
      no_rows (some t) history empty = (tt, tt)

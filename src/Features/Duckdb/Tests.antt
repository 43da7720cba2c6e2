-- ===== src/Features/Duckdb/Tests.antt =====
-- The theorem on the join in SQL, applied to concrete values.
use mathlib.Core.List.{Memᴰ}
use ml_monitor.Prelude.{
  ℕ, ◌≤◌, ◌≡◌, refl, sym, ◌∙◌, Bool, true, false, none, List, [], ◌∷◌, All, arith, ltb, string_eq,
  if◌then◌else◌, Bool-cases, inl, inr,
}
use ml_monitor.Prelude.Dict.{get}
use ml_monitor.Prelude.Sorting.{insert_sorted, sort_by}
use ml_monitor.Samples.Users as Users
use ml_monitor.Samples.Users.{row, columns}
use ml_monitor.Features.Frame.{Row}
use ml_monitor.Features.PitJoin.{GroupFrame, Pandas, TrainingRow, point_in_time_join}
use ml_monitor.Features.Duckdb.{base_names, is_known, get_historical_features}
use ml_monitor.Features.Duckdb.Laws.{
  known, IsLatest, first_of, IsDescending, IsJoinable, get_historical_features-point_in_time_join,
}

abbrev later : Row ℕ → Row ℕ → Bool
later x y = ltb y.event_timestamp x.event_timestamp

abbrev descending : List (Row ℕ) → List (Row ℕ)
descending rows = sort_by later rows

abbrev pandas : Pandas ℕ
pandas = record (Users.pandas) {
  asof = λ rows e t.
      first_of Users.pandas descending (descending (known Users.pandas descending e t rows));
}

All-earlier :
    (a b : ℕ) (rows : List (Row ℕ))
    → a ≤ b
    → All (λ (x : Row ℕ). x.event_timestamp ≤ a) rows
    → All (λ (x : Row ℕ). x.event_timestamp ≤ b) rows
All-earlier a b [] h k = tt
All-earlier a b (r ∷ rows) h k = (ground (arith, h, k.0), All-earlier a b rows h k.1)

insert_sorted-IsLatest :
    (x : Row ℕ) (rows sorted : List (Row ℕ))
    → IsLatest pandas descending rows (first_of pandas descending sorted)
    → IsLatest pandas descending
        (x ∷ rows)
        (first_of pandas descending (insert_sorted later x sorted))
unfolding insert_sorted
insert_sorted-IsLatest x rows [] h = (Memᴰ.head refl, rw h (omega arith, tt))
insert_sorted-IsLatest x rows (r ∷ sorted) h = elim (Bool-cases (later r x)) [
  | inl first ↦ rw first (Memᴰ.tail h.0, (ground (arith, first), h.1))
  | inr other ↦
      let below : r.event_timestamp ≤ x.event_timestamp = ground (arith, other) in
      rw other (
        Memᴰ.head refl,
        (omega arith, All-earlier r.event_timestamp x.event_timestamp rows below h.1),
      )
]

sort_by-IsLatest : IsDescending pandas descending
unfolding sort_by
sort_by-IsLatest [] = refl
sort_by-IsLatest (r ∷ rows) =
    insert_sorted-IsLatest r rows (descending rows) (sort_by-IsLatest rows)

abbrev frame : GroupFrame ℕ
frame = record { feature_cols = "age" ∷ []; rows = row "u1" 1 ∷ [] }

only_row : (b : Bool) (x r : Row ℕ) → Memᴰ r (if b then x ∷ [] else []) → r ≡ x
only_row true x r (Memᴰ.head same) = same
only_row true x r (Memᴰ.tail more) = elim more [ ]
only_row false x r h = elim h [ ]

frame-IsJoinable :
    All (IsJoinable pandas descending (("users", frame) ∷ [])) (("users", frame) ∷ [])
unfolding get
frame-IsJoinable = (
  (
    refl,
    (λ h. absurd (cc h)),
    (λ h. absurd (cc h)),
    λ e t r s in_r in_s same.
        only_row (is_known pandas descending e t (row "u1" 1)) (row "u1" 1) r in_r
        ∙ sym (only_row (is_known pandas descending e t (row "u1" 1)) (row "u1" 1) s in_s),
  ),
  tt,
)

abbrev labels : List (TrainingRow ℕ)
labels =
    record { entity_id = "u1"; event_timestamp = 2; cells = [] }
    ∷ record { entity_id = "u2"; event_timestamp = 5; cells = [] }
    ∷ []

get_historical_features-point_in_time_join_example :
    (get_historical_features pandas descending base_names labels
        ("users" ∷ [])
        "zero"
        (("users", frame) ∷ [])
      ≡ none)
    × (get_historical_features pandas descending
          ("REQUIRED_COLS" ∷ [])
          labels
          ("users" ∷ [])
          "zero"
          (("users", frame) ∷ [])
        ≡ point_in_time_join pandas columns labels (("users", frame) ∷ []) "zero")
unfolding sort_by is_known
get_historical_features-point_in_time_join_example =
    get_historical_features-point_in_time_join pandas descending sort_by-IsLatest
      (λ rows e t. sort_by-IsLatest (known pandas descending e t rows)) columns
      ("REQUIRED_COLS" ∷ []) labels (("users", frame) ∷ []) "zero" (("users", frame) ∷ []) refl refl
      frame-IsJoinable

-- ===== src/Features/Schema/Laws.antt =====
-- What a frame that passes the schema gate looks like.
use ml_monitor.Prelude.{
  ◌≡◌, String, Bool, true, not, none, List, [], ◌∷◌, map, select, length, All, arith, string_eq,
  Bool-cases, inl, inr,
}
use ml_monitor.Features.Frame.{is_in}
use ml_monitor.Features.Registry.{Feature}
use ml_monitor.Features.Schema.{validate_schema, required_cols, without}

-- Nothing of a list fails a test if nothing of it is left over.
All-of_none_left :
    (p : String → Bool) (xs : List String)
    → length (select (λ x. not (p x)) xs) ≡ 0
    → All (λ x. p x ≡ true) xs
All-of_none_left p [] h = tt
All-of_none_left p (x ∷ xs) h = elim (Bool-cases (p x)) [
  | inl holds ↦ (holds, All-of_none_left p xs (rw holds at h))
  | inr fails ↦ absurd (ground (arith, fails, h))
]

is_in-select :
    (p : String → Bool) (y : String) (xs : List String)
    → is_in (select p xs) y ≡ true
    → is_in xs y ≡ true
is_in-select p y [] h = h
is_in-select p y (x ∷ xs) h = ground (arith, h, is_in-select p y xs)

All-weaken :
    (columns names : List String)
    → All (λ x. is_in (without required_cols columns) x ≡ true) names
    → All (λ x. is_in columns x ≡ true) names
All-weaken columns [] h = tt
All-weaken columns (x ∷ names) h =
    (is_in-select (λ c. not (is_in required_cols c)) x columns h.0, All-weaken columns names h.1)

abbrev pub names_of : List Feature → List String
names_of features = map (λ (f : Feature). f.name) features

-- The leftovers of `validate_schema` when it raises nothing.
validate_schema-leftovers :
    (columns : List String) (features : List Feature)
    → validate_schema columns features ≡ none
    → (length (without columns required_cols) ≡ 0)
      × (length (without (without required_cols columns) (names_of features)) ≡ 0)
      × (length (without (names_of features) (without required_cols columns)) ≡ 0)
unfolding validate_schema
validate_schema-leftovers columns features h = ground (arith, h)

-- A frame for which `validate_schema` raises nothing has the columns "entity_id" and
-- "event_timestamp" and a column for each registered feature, and each of its columns but those two is
-- a registered feature.
validate_schema-none :
    (columns : List String) (features : List Feature)
    → validate_schema columns features ≡ none
    → All (λ x. is_in columns x ≡ true) required_cols
      × All (λ x. is_in columns x ≡ true) (names_of features)
      × All (λ x. is_in (names_of features) x ≡ true) (without required_cols columns)
validate_schema-none columns features h =
    let (required, missing, unknown) = validate_schema-leftovers columns features h in
    (
      All-of_none_left (is_in columns) required_cols required,
      All-weaken columns (names_of features)
          (All-of_none_left (is_in (without required_cols columns)) (names_of features) missing),
      All-of_none_left (is_in (names_of features)) (without required_cols columns) unknown,
    )

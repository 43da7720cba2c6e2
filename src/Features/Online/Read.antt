-- ===== src/Features/Online/Read.antt =====
-- What a read of the online store gives, cell by cell, over a table with distinct keys.
use ml_monitor.Prelude.{
  ℕ, ◌≡◌, refl, ◌∙◌, String, Option, none, some, List, [], ◌∷◌, arith, ◌==◌, string_eq, pair_eq,
  eq_iff, if◌then◌else◌, Bool-cases, inl, inr,
}
use ml_monitor.Prelude.Dict.{Dict, get, put, get-put}
use ml_monitor.Features.Frame.{is_in}
use ml_monitor.Features.Online.{
  Key, key_eq, Stored, OnlineStore, is_expired, add_value, collect, matching, read_batch,
}

module _ {V : Type 0} where
  -- The value of a feature of an entity in the result of a read.
  abbrev pub cell : String → String → Dict String (Dict String V) → Option V
  cell entity name out = elim (get entity out) [ none ↦ none | some features ↦ get name features ]

  cell-add_value :
      (e f entity name : String) (v : V) (out : Dict String (Dict String V))
      → cell e f (add_value entity name v out)
        ≡ (if entity == e then if name == f then some v else cell e f out else cell e f out)
  unfolding put get
  cell-add_value e f entity name v out =
      elim (get entity out)
          as (λ o.
            get entity out ≡ o
            → cell e f (elim o as (λ _. Dict String (Dict String V)) [
              | none ↦ put entity ((name, v) ∷ []) out
              | some features ↦ put entity (put name v features) out
            ])
              ≡ (if entity == e
                  then if name == f then some v else cell e f out
                  else cell e f out)) [
                    | none ↦ λ h. ground (
                      arith,
                      h,
                      get-put entity e ((name, v) ∷ []) out,
                      eq_iff entity e,
                      nothing f name v,
                    )
                    | some features ↦ λ h. ground (
                      arith,
                      h,
                      get-put entity e (put name v features) out,
                      eq_iff entity e,
                      get-put name f v features,
                    )
                  ]
        refl
    where
      nothing :
          (f name : String) (v : V) → get f ((name, v) ∷ []) ≡ (if name == f then some v else none)
      nothing f name v = get-put name f v []

  -- The keys of a table are distinct, as its PRIMARY KEY has it.
  abbrev pub IsUnique : List (Key × Stored V) → Type 0
  IsUnique [] = Unit
  IsUnique ((k, stored) ∷ rows) = (get k rows ≡ none) × IsUnique rows

  abbrev pub IsOf : String → List (Key × Stored V) → Type 0
  IsOf group [] = Unit
  IsOf group ((k, stored) ∷ rows) = (k.0 ≡ group) × IsOf group rows

  abbrev pub live : ℕ → Option (Stored V) → Option V
  live now none = none
  live now (some stored) = if is_expired now stored.expires_at then none else some stored.value

  abbrev pub or_else : Option V → Option V → Option V
  or_else (some v) old = some v
  or_else none old = old

  cell-collect :
      (now : ℕ) (group e f : String) (rows : List (Key × Stored V))
      (out : Dict String (Dict String V))
      → IsUnique rows
      → IsOf group rows
      → cell e f (collect now rows out)
        ≡ or_else (live now (get (group, (e, f)) rows)) (cell e f out)
  unfolding collect get
  cell-collect now group e f [] out unique same = refl
  cell-collect now group e f (((g, (entity, name)), stored) ∷ rows) out unique same = ground (
    arith,
    cell-collect now group e f rows out unique.1 same.1,
    cell-collect now group e f rows (add_value entity name stored.value out) unique.1 same.1,
    cell-add_value e f entity name stored.value out,
    eq_iff entity e,
    eq_iff name f,
    eq_iff g group,
    unique.0,
    same.0,
  )

  -- What the WHERE clause keeps.
  get-matching :
      (group e f : String) (ids : List String) (table : List (Key × Stored V))
      → get (group, (e, f)) (matching group ids table)
        ≡ (if is_in ids e then get (group, (e, f)) table else none)
  unfolding matching get
  get-matching group e f ids [] = ground arith
  get-matching group e f ids (((g, (entity, name)), stored) ∷ table) =
      ground (arith, get-matching group e f ids table, eq_iff entity e, eq_iff g group)

  get-matching-none :
      (group : String) (ids : List String) (k : Key) (table : List (Key × Stored V))
      → get k table ≡ none
      → get k (matching group ids table) ≡ none
  unfolding matching get
  get-matching-none group ids k [] h = refl
  get-matching-none group ids k (((g, (entity, name)), stored) ∷ table) h =
      ground (arith, h, get-matching-none group ids k table)

  matching-IsUnique :
      (group : String) (ids : List String) (table : List (Key × Stored V))
      → IsUnique table
      → IsUnique (matching group ids table)
  unfolding matching
  matching-IsUnique group ids [] h = tt
  matching-IsUnique group ids (((g, (entity, name)), stored) ∷ table) h =
      elim (Bool-cases (g == group)) [
        | inr other ↦ rw other (matching-IsUnique group ids table h.1)
        | inl same ↦ rw same (elim (Bool-cases (is_in ids entity)) [
          | inr absent ↦ rw absent (matching-IsUnique group ids table h.1)
          | inl wanted ↦ rw wanted (
            get-matching-none group ids (g, (entity, name)) table h.0,
            matching-IsUnique group ids table h.1,
          )
        ])
      ]

  matching-IsOf :
      (group : String) (ids : List String) (table : List (Key × Stored V))
      → IsOf group (matching group ids table)
  unfolding matching
  matching-IsOf group ids [] = tt
  matching-IsOf group ids (((g, (entity, name)), stored) ∷ table) = elim (Bool-cases (g == group)) [
    | inr other ↦ rw other (matching-IsOf group ids table)
    | inl same ↦ rw same (elim (Bool-cases (is_in ids entity)) [
      | inr absent ↦ rw absent (matching-IsOf group ids table)
      | inl wanted ↦ rw wanted ((eq_iff g group).0 same, matching-IsOf group ids table)
    ])
  ]

  -- SQLite gives each selected row once, in some order.
  abbrev pub IsScan : (List (Key × Stored V) → List (Key × Stored V)) → Type 0
  IsScan scan =
      (rows : List (Key × Stored V)) (group : String)
      → IsUnique rows
      → IsOf group rows
      → IsUnique (scan rows) × IsOf group (scan rows) × ((k : Key) → get k (scan rows) ≡ get k rows)

  pub cell-read_batch :
      (scan : List (Key × Stored V) → List (Key × Stored V))
      → IsScan scan
      → (group e f : String) (ids : List String) (now : ℕ) (s : OnlineStore V) → IsUnique s.table
      → cell e f (read_batch scan group ids now s)
        ≡ (if is_in ids e then live now (get (group, (e, f)) s.table) else none)
  unfolding read_batch get
  cell-read_batch scan once group e f ids now s unique =
      let rows : List (Key × Stored V) = matching group ids s.table in
      let (unique', same, found) =
        once rows group (matching-IsUnique group ids s.table unique)
          (matching-IsOf group ids s.table) in
      cell-collect now group e f (scan rows) [] unique' same
      ∙ ground (arith, found (group, (e, f)), get-matching group e f ids s.table)

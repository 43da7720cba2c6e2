-- ===== src/Features/Online/Laws.antt =====
-- What a read of the online store gives after a write, cell by cell.
use ml_monitor.Prelude.{
  ℕ, ◌≡◌, refl, ap, ◌∙◌, String, Option, none, some, List, [], ◌∷◌, arith, ◌==◌, string_eq, pair_eq,
  eq_iff, if◌then◌else◌, Bool-cases, inl, inr,
}
use ml_monitor.Prelude.Dict.{Dict, get, put, get-put}
use ml_monitor.Features.Frame.{is_in}
use ml_monitor.Features.Online.{
  Key, key_eq, Stored, OnlineStore, OnlineRow, expiry, ttl_or, write_features, write_rows,
  write_batch, read_batch,
}
use ml_monitor.Features.Online.Read.{cell, IsUnique, live, IsScan, cell-read_batch}

module _ {V : Type 0} where
  put-IsUnique :
      (k : Key) (v : Stored V) (table : List (Key × Stored V))
      → IsUnique table
      → IsUnique (put k v table)
  unfolding put get
  put-IsUnique k v [] h = (refl, tt)
  put-IsUnique k v ((j, w) ∷ table) h = elim (Bool-cases (j == k)) [
    | inl same ↦ rw same h
    | inr other ↦ rw other (
      get-put k j v table ∙ ground (arith, h.0, key_eq.iff_path j k, key_eq.iff_path k j, other),
      put-IsUnique k v table h.1,
    )
  ]

  -- The value that a row gives a feature, the last one if it names it twice.
  abbrev pub given : String → Dict String V → Option V
  given f [] = none
  given f ((name, v) ∷ features) = elim (given f features) [
    | some w ↦ some w
    | none ↦ if name == f then some v else none
  ]

  -- The value that a batch gives a feature of an entity, that of its last row if several give one.
  abbrev pub written : String → String → List (OnlineRow V) → Option V
  written e f [] = none
  written e f ((entity, features) ∷ rows) = elim (written e f rows) [
    | some w ↦ some w
    | none ↦ if entity == e then given f features else none
  ]

  abbrev pub stored_or : Option ℕ → Option V → Option (Stored V) → Option (Stored V)
  stored_or expires_at none old = old
  stored_or expires_at (some v) old = some (record { value = v; expires_at = expires_at })

  get-write_features :
      (group e f entity : String) (expires_at : Option ℕ) (features : Dict String V)
      (table : Dict Key (Stored V))
      → get (group, (e, f)) (write_features group entity expires_at features table)
        ≡ stored_or expires_at
            (if entity == e then given f features else none)
            (get (group, (e, f)) table)
  unfolding write_features
  get-write_features group e f entity expires_at [] table = ground arith
  get-write_features group e f entity expires_at ((name, v) ∷ features) table =
      let new : Stored V = record { value = v; expires_at = expires_at } in
      ground (
        arith,
        get-write_features group e f entity expires_at features
            (put (group, (entity, name)) new table),
        get-put (group, (entity, name)) (group, (e, f)) new table,
        eq_iff group group,
      )

  get-write_rows :
      (group e f : String) (expires_at : Option ℕ) (rows : List (OnlineRow V))
      (table : Dict Key (Stored V))
      → get (group, (e, f)) (write_rows group expires_at rows table)
        ≡ stored_or expires_at (written e f rows) (get (group, (e, f)) table)
  unfolding write_rows
  get-write_rows group e f expires_at [] table = refl
  get-write_rows group e f expires_at ((entity, features) ∷ rows) table = ground (
    arith,
    get-write_rows group e f expires_at rows
        (write_features group entity expires_at features table),
    get-write_features group e f entity expires_at features table,
  )

  write_features-IsUnique :
      (group entity : String) (expires_at : Option ℕ) (features : Dict String V)
      (table : Dict Key (Stored V))
      → IsUnique table
      → IsUnique (write_features group entity expires_at features table)
  unfolding write_features
  write_features-IsUnique group entity expires_at [] table h = h
  write_features-IsUnique group entity expires_at ((name, v) ∷ features) table h =
      write_features-IsUnique group entity expires_at features _ (
        put-IsUnique (group, (entity, name)) (record { value = v; expires_at = expires_at }) table
          h)

  write_rows-IsUnique :
      (group : String) (expires_at : Option ℕ) (rows : List (OnlineRow V))
      (table : Dict Key (Stored V))
      → IsUnique table
      → IsUnique (write_rows group expires_at rows table)
  unfolding write_rows
  write_rows-IsUnique group expires_at [] table h = h
  write_rows-IsUnique group expires_at ((entity, features) ∷ rows) table h =
      write_rows-IsUnique group expires_at rows _
        (write_features-IsUnique group entity expires_at features table h)

  -- A write and a read of one group, over a table with distinct keys, when SQLite gives each selected
  -- row once: for an entity that is asked for, a feature has the value of the last row of the batch that
  -- gives it one, until the TTL has passed (a TTL of 0 never passes), and is then absent; if no row
  -- gives it one, it has what the table held, unless that has expired; an entity that is not asked for
  -- has no features.
  pub read_batch-write_batch :
      (scan : List (Key × Stored V) → List (Key × Stored V))
      → IsScan scan
      → (group e f : String) (ids : List String) (rows : List (OnlineRow V)) (ttl : Option ℕ)
        (now later : ℕ) (s : OnlineStore V)
      → IsUnique s.table
      → cell e f (read_batch scan group ids later (write_batch group rows ttl now s).1) ≡ (
          if is_in ids e
          then live later (
              stored_or
                (expiry now (ttl_or ttl s.default_ttl_hours))
                (written e f rows)
                (get (group, (e, f)) s.table))
          else none)
  unfolding write_batch
  read_batch-write_batch scan once group e f ids rows ttl now later s unique =
      let expires_at : Option ℕ = expiry now (ttl_or ttl s.default_ttl_hours) in
      cell-read_batch scan once group e f ids later (write_batch group rows ttl now s).1
        (write_rows-IsUnique group expires_at rows s.table unique)
      ∙ ap (λ o. if is_in ids e then live later o else none)
          (get-write_rows group e f expires_at rows s.table)

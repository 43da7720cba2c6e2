-- ===== src/Features/Materialize/Laws.antt =====
-- The batches of `materialize` write the values that one batch would, each with a deadline of its own.
use ml_monitor.Prelude.{
  ℕ, zero, suc, ◌+◌, ◌≤◌, ◌<◌, ◌≡◌, refl, sym, ap, ◌∙◌, String, true, false, Option, some, List, [],
  ◌∷◌, ◌++◌, length, length-append, length-drop, take, drop, take-append-drop, leb, arith,
  Option-cases, inl, inr, Floats, All, ◌⊎◌, Bool-cases, ◌==◌,
}
use mathlib.Core.List.{Memᴰ}
use ml_monitor.Prelude.Dict.{Dict, put}
use ml_monitor.Features.Frame.{Row}
use ml_monitor.Features.Registry.{Group}
use ml_monitor.Features.Online.{
  Key, key_eq, OnlineRow, OnlineStore, Stored, write_features, write_rows, write_batch, expiry,
  ttl_or,
}
use ml_monitor.Features.Store.{
  Outcome, ok, Libraries, FeatureStore, latest_per_entity, online_rows, pick, feature_names,
  group_of, offline_read,
}
use ml_monitor.Features.Materialize.{write_chunks, materialize}

module _ {V : Type 0} where
  -- A table without the deadlines of its values.
  abbrev pub erase : Dict Key (Stored V) → Dict Key V
  erase [] = []
  erase ((k, s) ∷ table) = (k, s.value) ∷ erase table

  erase-put :
      (k : Key) (s : Stored V) (table : Dict Key (Stored V))
      → erase (put k s table) ≡ put k s.value (erase table)
  unfolding put
  erase-put k s [] = refl
  erase-put k s ((j, w) ∷ table) = elim (Bool-cases (j == k)) [
    | inl same ↦ ground (arith, same)
    | inr other ↦ ground (arith, other, erase-put k s table)
  ]

  -- What a write leaves but for the deadlines does not depend on the deadlines.
  write_features-erase :
      (group entity : String) (d d' : Option ℕ) (features : Dict String V)
      (t t' : Dict Key (Stored V))
      → erase t ≡ erase t'
      → erase (write_features group entity d features t)
        ≡ erase (write_features group entity d' features t')
  unfolding write_features
  write_features-erase group entity d d' [] t t' h = h
  write_features-erase group entity d d' ((name, v) ∷ features) t t' h =
      write_features-erase group entity d d' features _ _ (
        erase-put (group, (entity, name)) (record { value = v; expires_at = d }) t
        ∙ ap (put (group, (entity, name)) v) h
        ∙ sym (erase-put (group, (entity, name)) (record { value = v; expires_at = d' }) t'))

  write_rows-erase :
      (group : String) (d d' : Option ℕ) (rows : List (OnlineRow V)) (t t' : Dict Key (Stored V))
      → erase t ≡ erase t'
      → erase (write_rows group d rows t) ≡ erase (write_rows group d' rows t')
  unfolding write_rows
  write_rows-erase group d d' [] t t' h = h
  write_rows-erase group d d' ((entity, features) ∷ rows) t t' h =
      write_rows-erase group d d' rows _ _ (write_features-erase group entity d d' features t t' h)

  write_rows-append :
      (group : String) (expires_at : Option ℕ) (xs ys : List (OnlineRow V))
      (table : Dict Key (Stored V))
      → write_rows group expires_at (xs ++ ys) table
        ≡ write_rows group expires_at ys (write_rows group expires_at xs table)
  unfolding write_rows
  write_rows-append group expires_at [] ys table = refl
  write_rows-append group expires_at (x ∷ xs) ys table = write_rows-append group expires_at xs ys _

  -- The values of a table that hold of a test still do after a write whose values do.
  All-put :
      (P : Key × Stored V → Type 0) (k : Key) (s : Stored V) (table : Dict Key (Stored V))
      → ((j : Key) → P (j, s))
      → All P table
      → All P (put k s table)
  unfolding put
  All-put P k s [] new old = (new k, tt)
  All-put P k s ((j, w) ∷ table) new old = elim (Bool-cases (j == k)) [
    | inl same ↦ rw same (new j, old.1)
    | inr other ↦ rw other (old.0, All-put P k s table new old.1)
  ]

  write_features-All :
      (P : Key × Stored V → Type 0) (group entity : String) (d : Option ℕ)
      (features : Dict String V) (t : Dict Key (Stored V))
      → ((j : Key) (v : V) → P (j, record { value = v; expires_at = d }))
      → All P t
      → All P (write_features group entity d features t)
  unfolding write_features
  write_features-All P group entity d [] t new h = h
  write_features-All P group entity d ((name, v) ∷ features) t new h =
      write_features-All P group entity d features _ new (
        All-put P (group, (entity, name)) (record { value = v; expires_at = d }) t (λ j. new j v) h)

  write_rows-All :
      (P : Key × Stored V → Type 0) (group : String) (d : Option ℕ) (rows : List (OnlineRow V))
      (t : Dict Key (Stored V))
      → ((j : Key) (v : V) → P (j, record { value = v; expires_at = d }))
      → All P t
      → All P (write_rows group d rows t)
  unfolding write_rows
  write_rows-All P group d [] t new h = h
  write_rows-All P group d ((entity, features) ∷ rows) t new h =
      write_rows-All P group d rows _ new (write_features-All P group entity d features t new h)

  -- A value of the table before, or one with the deadline of a batch.
  abbrev pub IsDated : (ℕ → ℕ) → ℕ → Dict Key (Stored V) → Key × Stored V → Type 0
  IsDated clock ttl before entry =
      Memᴰ entry before ⊎ ((i : ℕ) × (entry.1.expires_at ≡ expiry (clock i) ttl))

  All-IsDated :
      (clock : ℕ → ℕ) (ttl : ℕ) (before part : Dict Key (Stored V))
      → ((x : Key × Stored V) → Memᴰ x part → Memᴰ x before)
      → All (IsDated clock ttl before) part
  All-IsDated clock ttl before [] sub = tt
  All-IsDated clock ttl before (x ∷ part) sub =
      (inl (sub x (Memᴰ.head refl)), All-IsDated clock ttl before part (λ y m. sub y (Memᴰ.tail m)))

  -- The rows of two parts of a frame.
  online_rows-append :
      (names : List String) (xs ys : List (Row V)) (all : List (OnlineRow V))
      → online_rows names (xs ++ ys) ≡ some all
      → (us : List (OnlineRow V)) × (vs : List (OnlineRow V)) × (online_rows names xs ≡ some us)
        × (online_rows names ys ≡ some vs)
        × (all ≡ us ++ vs)
  unfolding online_rows
  online_rows-append names [] ys all h = ([], all, refl, h, refl)
  online_rows-append names (x ∷ xs) ys all h = elim (Option-cases (pick names x.features)) [
    | inl failed ↦ absurd (ground (arith, failed, h))
    | inr (features, picked) ↦ elim (Option-cases (online_rows names (xs ++ ys))) [
      | inl failed ↦ absurd (ground (arith, failed, picked, h))
      | inr (rest, found) ↦
          let (us, vs, first, later, both) = online_rows-append names xs ys rest found in
          (
            (x.entity_id, features) ∷ us,
            vs,
            rw (picked, first, online_rows) refl,
            later,
            ground (arith, found, picked, h, both),
          )
    ]
  ]

  online_rows-nil :
      (names : List String) (rows : List (OnlineRow V))
      → online_rows names [] ≡ some rows
      → rows ≡ []
  unfolding online_rows
  online_rows-nil names rows h = cc

module _ (fl : Floats) {S V : Type 0} (lib : Libraries S V) where
  -- What the batches leave, but for the deadlines: the values of one write of all rows at any time.
  abbrev pub IsWritten :
      Group → (ℕ → ℕ) → List (OnlineRow V) → OnlineStore V → OnlineStore V → Type 0
  IsWritten g clock rows before after =
      (after.default_ttl_hours ≡ before.default_ttl_hours)
      × ((now : ℕ)
          → erase after.table ≡ erase (write_batch g.name rows g.ttl_hours now before).1.table)

  write_batch-erase :
      (g : Group) (now now' : ℕ) (us vs : List (OnlineRow V)) (s : OnlineStore V)
      → erase
          (write_batch g.name vs g.ttl_hours now'
            (write_batch g.name us g.ttl_hours now s).1).1.table
        ≡ erase (write_batch g.name (us ++ vs) g.ttl_hours now' s).1.table
  unfolding write_batch
  write_batch-erase g now now' us vs s =
      let d = expiry now (ttl_or g.ttl_hours s.default_ttl_hours) in
      let d' = expiry now' (ttl_or g.ttl_hours s.default_ttl_hours) in
      write_rows-erase g.name d' d' vs (write_rows g.name d us s.table)
        (write_rows g.name d' us s.table) (write_rows-erase g.name d d' us s.table s.table refl)
      ∙ sym (ap erase (write_rows-append g.name d' us vs s.table))

  write_batch-IsDated :
      (g : Group) (clock : ℕ → ℕ) (i : ℕ) (rows : List (OnlineRow V)) (s : OnlineStore V) (ttl : ℕ)
      (before : Dict Key (Stored V))
      → ttl_or g.ttl_hours s.default_ttl_hours ≡ ttl
      → All (IsDated clock ttl before) s.table
      → All (IsDated clock ttl before) (write_batch g.name rows g.ttl_hours (clock i) s).1.table
  unfolding write_batch
  write_batch-IsDated g clock i rows s ttl before same h =
      write_rows-All (IsDated clock ttl before) g.name
        (expiry (clock i) (ttl_or g.ttl_hours s.default_ttl_hours)) rows s.table
        (λ j v. inr (i, ap (expiry (clock i)) same)) h

  nothing_left :
      (g : Group) (clock : ℕ → ℕ) (written : ℕ) (s : OnlineStore V) (rows : List (OnlineRow V))
      (ttl : ℕ) (before : Dict Key (Stored V))
      → All (IsDated clock ttl before) s.table
      → rows ≡ []
      → (s' : OnlineStore V) × (◌≡◌ {A = Outcome (ℕ × OnlineStore V)}
          (ok (written, s))
          (ok (written + length rows, s')))
        × IsWritten g clock rows s s'
        × All (IsDated clock ttl before) s'.table
  unfolding write_batch write_rows
  nothing_left g clock written s rows ttl before dated e = (
    s,
    rw e (ap (λ (n : ℕ). ok (n, s)) {x = written} {y = written + 0} (omega arith)),
    (refl, λ now. rw e refl),
    dated,
  )

  write_batch-default :
      (g : Group) (now : ℕ) (rows : List (OnlineRow V)) (s : OnlineStore V)
      → (write_batch g.name rows g.ttl_hours now s).1.default_ttl_hours ≡ s.default_ttl_hours
  unfolding write_batch
  write_batch-default g now rows s = refl

  write_chunks_lem :
      (fuel : ℕ) (g : Group) (batch_size : ℕ) (clock : ℕ → ℕ) (i : ℕ) (records : List (Row V))
      (written : ℕ) (s : OnlineStore V) (rows : List (OnlineRow V)) (ttl : ℕ)
      (before : Dict Key (Stored V))
      → 0 < batch_size
      → length records ≤ fuel
      → online_rows (feature_names g) records ≡ some rows
      → ttl_or g.ttl_hours s.default_ttl_hours ≡ ttl
      → All (IsDated clock ttl before) s.table
      → (s' : OnlineStore V) × (write_chunks fl lib fuel g batch_size clock i records written s
          ≡ ok (written + length rows, s'))
        × IsWritten g clock rows s s'
        × All (IsDated clock ttl before) s'.table
  unfolding write_chunks
  write_chunks_lem zero g batch_size clock i [] written s rows ttl before pos fits h same dated =
      nothing_left g clock written s rows ttl before dated
        (online_rows-nil (feature_names g) rows h)
  write_chunks_lem zero g batch_size clock i (r ∷ records) written s rows ttl before pos fits h same
        dated =
      absurd (omega arith)
  write_chunks_lem (suc fuel) g batch_size clock i [] written s rows ttl before pos fits h same
        dated =
      nothing_left g clock written s rows ttl before dated
        (online_rows-nil (feature_names g) rows h)
  write_chunks_lem (suc fuel) g batch_size clock i (r ∷ records) written s rows ttl before pos fits
        h same dated =
      let all : List (Row V) = r ∷ records in
      let split : take batch_size all ++ drop batch_size all ≡ all =
        take-append-drop batch_size all in
      let (us, vs, first, later, both) =
        online_rows-append (feature_names g) (take batch_size all) (drop batch_size all) rows
          (rw split h) in
      let shorter : length (drop batch_size all) ≤ fuel =
        omega (arith, length-drop batch_size all) in
      let total : written + length us + length vs ≡ written + length rows =
        rw both (omega (arith, length-append us vs)) in
      let next : OnlineStore V = (write_batch g.name us g.ttl_hours (clock i) s).1 in
      let (s', done, (default, values), dated') =
        write_chunks_lem fuel g batch_size clock (i + 1) (drop batch_size all) (written + length us)
          next vs ttl before pos shorter later
          (ap (ttl_or g.ttl_hours) (write_batch-default g (clock i) us s) ∙ same)
          (write_batch-IsDated g clock i us s ttl before same dated) in
      (
        s',
        rw (first, write_chunks) (done ∙ ap (λ (n : ℕ). ok (n, s')) total),
        (
          default ∙ write_batch-default g (clock i) us s,
          λ now.
              values now
              ∙ write_batch-erase g (clock i) now us vs s
              ∙ ap (λ xs. erase (write_batch g.name xs g.ttl_hours now s).1.table) (sym both),
        ),
        dated',
      )

  -- If the group is registered with an offline store, holds at least one row, every latest row has the
  -- group's features and the batch size is positive, then `materialize` ends without an exception,
  -- whatever the batch size and the times of its batches, and returns the number of entities. Apart
  -- from the deadlines, the online table is what one write of all the latest rows in one batch leaves;
  -- and every value of it is there since before, or has the deadline that the group's TTL gives at the
  -- time of a batch.
  pub materialize-write_batch :
      (name : String) (batch_size : ℕ) (clock : ℕ → ℕ) (fs : FeatureStore fl lib) (g : Group)
      (r : Row V) (history : List (Row V)) (rows : List (OnlineRow V))
      → 0 < batch_size
      → group_of fl lib name fs ≡ some g
      → g.offline ≡ true
      → offline_read fl lib name fs ≡ r ∷ history
      → online_rows (feature_names g) (latest_per_entity fl lib (r ∷ history)) ≡ some rows
      → (online : OnlineStore V) × (materialize fl lib name batch_size clock fs
          ≡ ok (0 + length rows, record fs { online = online }))
        × IsWritten g clock rows fs.online online
        × All
            (IsDated clock (ttl_or g.ttl_hours fs.online.default_ttl_hours) fs.online.table)
            online.table
  unfolding materialize
  materialize-write_batch name batch_size clock fs g r history rows pos known offline read found =
      let step : leb batch_size 0 ≡ false = ground arith in
      let records = latest_per_entity fl lib (r ∷ history) in
      let ttl = ttl_or g.ttl_hours fs.online.default_ttl_hours in
      let (online, done, written, dated) =
        write_chunks_lem (length records) g batch_size clock 0 records 0 fs.online rows ttl
          fs.online.table pos (omega arith) found refl
          (All-IsDated clock ttl fs.online.table fs.online.table (λ x m. m)) in
      (online, ground (arith, known, offline, read, step, done), written, dated)

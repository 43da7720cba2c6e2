-- ===== src/Features/RedisOnline/Laws.antt =====
-- What a read of the Redis online store gives, and how it agrees with the SQLite one.
use ml_monitor.Prelude.{
  ℕ, zero, suc, ◌+◌, ◌≤◌, ◌≡◌, ◌≢◌, refl, ap, ◌∙◌, String, Option, none, some, List, [], ◌∷◌, map,
  arith, ltb, ◌==◌, string_eq, eq_iff, ne_of_beq-false, if◌then◌else◌, Option-cases, Bool-cases,
  inl, inr,
}
use ml_monitor.Prelude.Dict.{Dict, get, put, get-put}
use ml_monitor.Features.Frame.{is_in}
use ml_monitor.Features.Online.{OnlineRow}
use ml_monitor.Features.RedisOnline.{
  KeyValue, Msgpack, Hours, seconds_of, StoreLaws, RedisOnlineStore, key, write_row, write_rows,
  write_batch, collect, read_batch,
}
use ml_monitor.Features.RedisOnline.Keys.{key-injective}

module _ {B V H : Type 0} (r : KeyValue B) (m : Msgpack B V) (hours : Hours H)
    (laws : StoreLaws r m) where
  -- The features of the last row of an entity in a batch.
  abbrev pub last_row : String → List (OnlineRow V) → Option (Dict String V)
  last_row e [] = none
  last_row e ((entity, features) ∷ rows) = elim (last_row e rows) [
    | some x ↦ some x
    | none ↦ if entity == e then some features else none
  ]

  -- A value that was set, as long as its whole seconds have not passed.
  abbrev pub kept : {A : Type 0} → ℕ → Option ℕ → ℕ → A → Option A
  kept now none later a = some a
  kept now (some zero) later a = some a
  kept now (some (suc ttl)) later a = if ltb later (now + suc ttl) then some a else none

  get_raw-write_row :
      (group e : String) (ttl : Option ℕ) (now later : ℕ) (row : OnlineRow V) (s : r.State)
      → now ≤ later
      → r.get_raw later (key group e) (write_row r m hours group ttl now row s) ≡ (
          if row.0 == e
          then kept now ttl later (m.packb row.1)
          else r.get_raw later (key group e) s)
  unfolding write_row
  get_raw-write_row group e none now later (entity, features) s h =
      elim (Bool-cases (entity == e)) [
        | inl same ↦
            rw ((eq_iff entity e).0 same, (eq_iff e e).1 refl)
              (laws.get_set now later (key group e) (m.packb features) s h)
        | inr other ↦ rw other (
            laws.get_set_ne now later (key group entity) (key group e) (m.packb features) s
              (λ k. ne_of_beq-false other (key-injective group entity e k)))
      ]
  get_raw-write_row group e (some zero) now later (entity, features) s h =
      elim (Bool-cases (entity == e)) [
        | inl same ↦
            rw ((eq_iff entity e).0 same, (eq_iff e e).1 refl)
              (laws.get_set now later (key group e) (m.packb features) s h)
        | inr other ↦ rw other (
            laws.get_set_ne now later (key group entity) (key group e) (m.packb features) s
              (λ k. ne_of_beq-false other (key-injective group entity e k)))
      ]
  get_raw-write_row group e (some (suc ttl)) now later (entity, features) s h =
      elim (Bool-cases (entity == e)) [
        | inl same ↦
            rw ((eq_iff entity e).0 same, (eq_iff e e).1 refl)
              (laws.get_expire_set now later (key group e) (m.packb features) (suc ttl) s h)
        | inr other ↦
            let apart : key group entity ≢ key group e =
              λ k. ne_of_beq-false other (key-injective group entity e k) in
            rw other (
              laws.get_expire_ne now later (key group entity) (key group e) (suc ttl) _ apart
              ∙ laws.get_set_ne now later (key group entity) (key group e) (m.packb features) s
                  apart)
      ]

  get_raw-write_rows :
      (group e : String) (ttl : Option ℕ) (now later : ℕ) (rows : List (OnlineRow V)) (s : r.State)
      → now ≤ later
      → r.get_raw later (key group e) (write_rows r m hours group ttl now rows s)
        ≡ (elim (last_row e rows) [
          | some features ↦ kept now ttl later (m.packb features)
          | none ↦ r.get_raw later (key group e) s
        ])
  unfolding write_rows
  get_raw-write_rows group e ttl now later [] s h = refl
  get_raw-write_rows group e ttl now later ((entity, features) ∷ rows) s h =
      get_raw-write_rows group e ttl now later rows
        (write_row r m hours group ttl now (entity, features) s) h
      ∙ ground (arith, get_raw-write_row group e ttl now later (entity, features) s h)

  get-collect :
      (e : String) (raw : String → Option B) (ids : List String) (out : Dict String (Dict String V))
      → get e (collect r m hours (map (λ x. (x, raw x)) ids) out) ≡ (
          if is_in ids e
          then elim (raw e) [ none ↦ get e out | some b ↦ some (m.unpackb b) ]
          else get e out)
  unfolding collect
  get-collect e raw [] out = refl
  get-collect e raw (i ∷ ids) out = elim (Option-cases (raw i)) [
    | inl absent ↦ ground (arith, absent, get-collect e raw ids out, eq_iff i e)
    | inr (b, here) ↦ ground (
      arith,
      here,
      get-collect e raw ids (put i (m.unpackb b) out),
      get-put i e (m.unpackb b) out,
      eq_iff i e,
    )
  ]

  abbrev pub unpacked : Option B → Option (Dict String V)
  unpacked none = none
  unpacked (some b) = some (m.unpackb b)

  pub get-read_batch :
      (group e : String) (ids : List String) (later : ℕ) (s : RedisOnlineStore r m hours)
      → get e (read_batch r m hours group ids later s)
        ≡ (if is_in ids e then unpacked (r.get_raw later (key group e) s.client) else none)
  unfolding read_batch get
  get-read_batch group e ids later s =
      get-collect e (λ x. r.get_raw later (key group x) s.client) ids []
      ∙ elim (Option-cases (r.get_raw later (key group e) s.client)) [
        | inl absent ↦ ground (arith, absent)
        | inr (b, here) ↦ ground (arith, here)
      ]

  unpacked-kept :
      (now : ℕ) (ttl : Option ℕ) (later : ℕ) (features : Dict String V)
      → unpacked (kept now ttl later (m.packb features)) ≡ kept now ttl later features
  unpacked-kept now none later features = ap some (laws.unpackb_packb features)
  unpacked-kept now (some zero) later features = ap some (laws.unpackb_packb features)
  unpacked-kept now (some (suc ttl)) later features = ground (arith, laws.unpackb_packb features)

  -- The TTL of the call, or the default.
  abbrev pub given_or : Option H → H → H
  given_or none h = h
  given_or (some ttl) h = ttl

  -- A write and a read of one group: an entity that is asked for has exactly the features of its last
  -- row in the batch, until the whole seconds of the TTL have passed (a TTL with no whole second, be it
  -- 0 or less than a second, never passes), and none of those it had
  -- before; with no row in the batch it has what the server held; an entity that is not asked for is
  -- not in the result.
  pub get-read_batch-write_batch :
      (group e : String) (ids : List String) (rows : List (OnlineRow V)) (ttl : Option H)
      (now later : ℕ) (s : RedisOnlineStore r m hours)
      → now ≤ later
      → get e (read_batch r m hours group ids later (write_batch r m hours group rows ttl now s).1)
        ≡ (if is_in ids e
            then elim (last_row e rows) [
              | some features ↦
                  kept now (seconds_of r m hours (given_or ttl s.default_ttl_hours)) later features
              | none ↦ get e (read_batch r m hours group ids later s)
            ]
            else none)
  unfolding write_batch
  get-read_batch-write_batch group e ids rows ttl now later s h =
      let d = seconds_of r m hours (given_or ttl s.default_ttl_hours) in
      let s' : RedisOnlineStore r m hours = (write_batch r m hours group rows ttl now s).1 in
      let held = get_raw-write_rows group e d now later rows s.client h in
      get-read_batch group e ids later s' ∙ elim (Option-cases (last_row e rows)) [
        | inl absent ↦ ground (arith, absent, held, get-read_batch group e ids later s)
        | inr (features, last) ↦ ground (arith, last, held, unpacked-kept now d later features)
      ]

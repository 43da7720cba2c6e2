-- ===== src/Features/RedisOnline/Agreement.antt =====
-- The two online stores of the feature store agree on batches of complete rows.
use ml_monitor.Prelude.{
  ℕ, zero, suc, ◌+◌, ◌*◌, ◌≤◌, ◌≡◌, ◌≢◌, refl, String, Option, none, some, List, [], ◌∷◌, All, ltb,
  if◌then◌else◌, arith, string_eq, Option-cases, inl, inr,
}
use ml_monitor.Prelude.Dict.{Dict, get}
use ml_monitor.Features.Online as Sqlite
use ml_monitor.Features.Online.{OnlineRow, OnlineStore, Stored, Key, ttl_or, expiry, is_expired}
use ml_monitor.Features.Online.Laws.{given, written, read_batch-write_batch}
use ml_monitor.Features.Online.Read.{cell, live, IsScan}
use ml_monitor.Features.RedisOnline as Redis
use ml_monitor.Features.RedisOnline.{
  KeyValue, Msgpack, Hours, seconds_of, StoreLaws, RedisOnlineStore, key,
}
use ml_monitor.Features.RedisOnline.Laws.{
  last_row, kept, given_or, get-read_batch-write_batch, get-read_batch,
}

-- The TTLs of whole hours, and what float arithmetic gives for them.
pub record WholeHours {H : Type 0} (hours : Hours H) : Type 0 where
  pub whole : ℕ → H
  pub is_set_whole : (n : ℕ) → hours.is_set (whole n) ≡ ltb 0 n
  pub seconds_whole : (n : ℕ) → hours.whole_seconds (whole n) ≡ n * 3_600

abbrev pub map_whole : {H : Type 0} {hours : Hours H} → WholeHours hours → Option ℕ → Option H
map_whole w none = none
map_whole w (some n) = some (w.whole n)

module _ {B V H : Type 0} (r : KeyValue B) (m : Msgpack B V) (hours : Hours H)
    (laws : StoreLaws r m) where
  -- A row that gives a feature, once.
  abbrev pub Gives : String → OnlineRow V → Type 0
  Gives f row = (v : V) × (get f row.1 ≡ some v) × (given f row.1 ≡ some v)

  abbrev value_in : String → Option (Dict String V) → Option V
  value_in f none = none
  value_in f (some features) = get f features

  written-last_row :
      (e f : String) (rows : List (OnlineRow V))
      → All (Gives f) rows
      → (written e f rows ≡ value_in f (last_row r m hours laws e rows))
        × ((x : Dict String V)
            → last_row r m hours laws e rows ≡ some x
            → (v : V) × (get f x ≡ some v))
  written-last_row e f [] h = (refl, λ x k. absurd (cc k))
  written-last_row e f ((entity, features) ∷ rows) h =
      let (same, full) = written-last_row e f rows h.1 in
      let (v, value, gives) = h.0 in
      elim (Option-cases (last_row r m hours laws e rows)) [
        | inl none_after ↦ (
          ground (arith, same, none_after, gives, value),
          λ x k. (v, ground (arith, none_after, k, value)),
        )
        | inr (x, after) ↦
            let (w, known) = full x after in
            (ground (arith, same, after, known), λ y k. (w, ground (arith, after, k, known)))
      ]

  -- The seconds of a TTL of whole hours.
  abbrev seconds_or_none : ℕ → Option ℕ
  seconds_or_none n = if ltb 0 n then some (n * 3_600) else none

  seconds_of-whole :
      (w : WholeHours hours) (n : ℕ) → seconds_of r m hours (w.whole n) ≡ seconds_or_none n
  unfolding seconds_of
  seconds_of-whole w n = rw (w.is_set_whole n, w.seconds_whole n) refl

  given_or-whole :
      (w : WholeHours hours) (ttl : Option ℕ) (default_ttl : ℕ)
      → given_or r m hours laws (map_whole w ttl) (w.whole default_ttl)
        ≡ w.whole (ttl_or ttl default_ttl)
  given_or-whole w none default_ttl = refl
  given_or-whole w (some n) default_ttl = refl

  -- A value is served by both stores, or by neither, but at the very second of its deadline.
  same_life :
      (now ttl later : ℕ) (v : V)
      → later ≢ now + ttl * 3_600
      → kept r m hours laws now (seconds_or_none ttl) later v
        ≡ live later (some (record { value = v; expires_at = expiry now ttl }))
  same_life now zero later v h = refl
  same_life now (suc ttl) later v h = ground (arith, h)

  value_in-kept :
      (f : String) (now : ℕ) (ttl : Option ℕ) (later : ℕ) (features : Dict String V) (v : V)
      → get f features ≡ some v
      → value_in f (kept r m hours laws now ttl later features)
        ≡ kept r m hours laws now ttl later v
  value_in-kept f now none later features v h = h
  value_in-kept f now (some zero) later features v h = h
  value_in-kept f now (some (suc ttl)) later features v h = ground (arith, h)

  -- A batch is written to a new SQLite store and to a Redis that holds nothing of the group, with the
  -- same TTL of whole hours, and each of its rows gives the feature once. Then a read of either store gives the same
  -- value of the feature for every entity, or none in both, at any time but the second of the deadline.
  pub read_batch-Agrees :
      (scan : List (Key × Stored V) → List (Key × Stored V))
      → IsScan scan
      → (w : WholeHours hours) (group e f : String) (ids : List String) (rows : List (OnlineRow V))
        (ttl : Option ℕ) (default_ttl now later : ℕ) (s : r.State)
      → All (Gives f) rows
      → r.get_raw later (key group e) s ≡ none
      → now ≤ later
      → later ≢ now + ttl_or ttl default_ttl * 3_600
      → let redis : RedisOnlineStore r m hours = record {
        default_ttl_hours = w.whole default_ttl;
        client = s;
      } in
        let sqlite : OnlineStore V = record { default_ttl_hours = default_ttl; table = [] } in
        cell e f (
          Redis.read_batch r m hours group ids later
            (Redis.write_batch r m hours group rows (map_whole w ttl) now redis).1)
        ≡ cell e f (
            Sqlite.read_batch scan group ids later (Sqlite.write_batch group rows ttl now sqlite).1)
  unfolding get
  read_batch-Agrees scan once w group e f ids rows ttl default_ttl now later s full bare h off =
      let redis : RedisOnlineStore r m hours = record {
        default_ttl_hours = w.whole default_ttl;
        client = s;
      } in
      let sqlite : OnlineStore V = record { default_ttl_hours = default_ttl; table = [] } in
      let d = ttl_or ttl default_ttl in
      let left =
        get-read_batch-write_batch r m hours laws group e ids rows (map_whole w ttl) now later redis
          h in
      let right = read_batch-write_batch scan once group e f ids rows ttl now later sqlite tt in
      let seconds : seconds_of r m hours
            (given_or r m hours laws (map_whole w ttl) (w.whole default_ttl))
          ≡ seconds_or_none d =
        rw (given_or-whole w ttl default_ttl) (seconds_of-whole w d) in
      let (same, values) = written-last_row e f rows full in
      elim (Option-cases (last_row r m hours laws e rows)) [
        | inl absent ↦ ground (
          arith,
          left,
          right,
          same,
          absent,
          get-read_batch r m hours laws group e ids later redis,
          bare,
        )
        | inr (features, last) ↦
            let (v, value) = values features last in
            ground (
              arith,
              left,
              right,
              same,
              last,
              value,
              seconds,
              value_in-kept f now (seconds_or_none d) later features v value,
              same_life now d later v off,
            )
      ]

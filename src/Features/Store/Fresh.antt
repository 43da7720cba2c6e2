-- ===== src/Features/Store/Fresh.antt =====
-- What is ingested into a group with an online store is what is served next.
use ml_monitor.Prelude.{
  ℕ, ◌≡◌, refl, sym, ap, ◌∙◌, String, true, false, Option, none, some, List, [], ◌∷◌, arith, ◌==◌,
  string_eq, eq_iff, if◌then◌else◌, Option-cases, Bool-cases, inl, inr, Floats,
}
use ml_monitor.Prelude.Dict.{Dict, get}
use ml_monitor.Features.Frame.{Frame, Row, is_in}
use ml_monitor.Features.Registry.{Group, get_feature_group}
use ml_monitor.Features.Online.{OnlineRow, write_batch, read_batch, expiry, ttl_or, is_expired}
use ml_monitor.Features.Online.Laws.{given, written, read_batch-write_batch}
use ml_monitor.Features.Online.Read.{cell, IsUnique, IsScan}
use ml_monitor.Features.Store.{
  ok, Libraries, FeatureStore, pick, online_rows, feature_names, latest_per_entity, group_of,
  online_write, ingest, get_online_features, offline_write,
}
use ml_monitor.Features.Store.Groups.{Outcome-cases, ingest-group_of}
use ml_monitor.Features.Store.Laws.{last_of, of_entity, latest_per_entity-last_of}

module _ {V : Type 0} where
  abbrev pub cell_of : String → Option (Row V) → Option V
  cell_of f none = none
  cell_of f (some r) = get f r.features

  given-pick :
      (names : List String) (f : String) (row picked : Dict String V)
      → pick names row ≡ some picked
      → given f picked ≡ (if is_in names f then get f row else none)
  unfolding pick
  given-pick [] f row picked h = ground (arith, h)
  given-pick (n ∷ names) f row picked h = elim (Option-cases (get n row)) [
    | inl absent ↦ absurd (ground (arith, absent, h))
    | inr (v, here) ↦ elim (Option-cases (pick names row)) [
      | inl later ↦ absurd (ground (arith, here, later, h))
      | inr (rest, more) ↦
          ground (arith, here, more, h, given-pick names f row rest more, eq_iff n f)
    ]
  ]

  pick-some :
      (names : List String) (f : String) (row picked : Dict String V)
      → pick names row ≡ some picked
      → is_in names f ≡ true
      → (v : V) × (get f row ≡ some v)
  unfolding pick
  pick-some [] f row picked h member = absurd (cc member)
  pick-some (n ∷ names) f row picked h member = elim (Option-cases (get n row)) [
    | inl absent ↦ absurd (ground (arith, absent, h))
    | inr (v, here) ↦ elim (Option-cases (pick names row)) [
      | inl later ↦ absurd (ground (arith, here, later, h))
      | inr (rest, more) ↦ elim (Bool-cases (n == f)) [
        | inl same ↦ (v, ground (arith, here, same, eq_iff n f))
        | inr other ↦ pick-some names f row rest more (ground (arith, member, other))
      ]
    ]
  ]

  -- What a batch of picked rows gives a feature of an entity is what its last row holds.
  written-online_rows :
      (names : List String) (e f : String) (rows : List (Row V)) (out : List (OnlineRow V))
      → online_rows names rows ≡ some out
      → is_in names f ≡ true
      → (written e f out ≡ cell_of f (last_of e rows))
        × ((x : Row V) → last_of e rows ≡ some x → (v : V) × (get f x.features ≡ some v))
  unfolding online_rows
  written-online_rows names e f [] out h member = (ground (arith, h), λ x k. absurd (cc k))
  written-online_rows names e f (r ∷ rows) out h member =
      elim (Option-cases (pick names r.features)) [
        | inl absent ↦ absurd (ground (arith, absent, h))
        | inr (picked, here) ↦ elim (Option-cases (online_rows names rows)) [
          | inl later ↦ absurd (ground (arith, here, later, h))
          | inr (rest, more) ↦
              let (same, full) = written-online_rows names e f rows rest more member in
              let (v, value) = pick-some names f r.features picked here member in
              let gives = given-pick names f r.features picked here in
              elim (Option-cases (last_of e rows)) [
                | inl none_after ↦ (
                  ground (arith, here, more, h, same, none_after, gives, member, value),
                  λ x k. (v, ground (arith, none_after, k, value)),
                )
                | inr (x, after) ↦
                    let (w, known) = full x after in
                    (
                      ground (arith, here, more, h, same, after, known),
                      λ y k. (w, ground (arith, after, k, known)),
                    )
              ]
        ]
      ]

  last_of-of_entity :
      (e : String) (rows : List (Row V)) → last_of e (of_entity e rows) ≡ last_of e rows
  last_of-of_entity e [] = refl
  last_of-of_entity e (r ∷ rows) = ground (arith, last_of-of_entity e rows)

  last_of-entity :
      (e : String) (rows : List (Row V)) (r : Row V)
      → last_of e rows ≡ some r
      → (r.entity_id == e) ≡ true
  last_of-entity e [] r h = absurd (cc h)
  last_of-entity e (x ∷ rows) r h = ground (arith, h, last_of-entity e rows r)

module _ (fl : Floats) {S V : Type 0} (lib : Libraries S V) where
  last_of-latest :
      (e : String) (rows : List (Row V))
      → last_of e (latest_per_entity fl lib rows) ≡ last_of e (lib.sort_values rows)
  last_of-latest e rows =
      sym (last_of-of_entity e (latest_per_entity fl lib rows))
      ∙ ap (last_of e) (latest_per_entity-last_of fl lib e rows)
      ∙ elim (Option-cases (last_of e (lib.sort_values rows))) [
        | inl nothing ↦ rw nothing refl
        | inr (r, last) ↦ ground (arith, last, last_of-entity e (lib.sort_values rows) r last)
      ]

  online_write-online :
      (g : Group) (rows : List (Row V)) (now n : ℕ) (fs fs' : FeatureStore fl lib)
      → online_write fl lib g rows now fs ≡ ok (n, fs')
      → (out : List (OnlineRow V)) × (online_rows (feature_names g) (latest_per_entity fl lib rows)
          ≡ some out)
        × (fs'.online ≡ (write_batch g.name out g.ttl_hours now fs.online).1)
  unfolding online_write
  online_write-online g rows now n fs fs' h =
      elim (Option-cases (online_rows (feature_names g) (latest_per_entity fl lib rows))) [
        | inl bad ↦ absurd (ground (arith, bad, h))
        | inr (out, good) ↦ (out, good, ground (arith, good, h))
      ]

  offline_write-online :
      (name : String) (rows : List (Row V)) (fs : FeatureStore fl lib)
      → (offline_write fl lib name rows fs).online ≡ fs.online
  unfolding offline_write
  offline_write-online name rows fs = refl

  ingest-online :
      (name : String) (df : Frame V) (now n : ℕ) (stats : S) (fs fs' : FeatureStore fl lib)
      (g : Group)
      → group_of fl lib name fs ≡ some g
      → g.online ≡ true
      → ingest fl lib name df now fs ≡ ok ((n, stats), fs')
      → (out : List (OnlineRow V)) × (online_rows
            (feature_names g)
            (latest_per_entity fl lib df.rows)
          ≡ some out)
        × (fs'.online ≡ (write_batch g.name out g.ttl_hours now fs.online).1)
  unfolding ingest
  ingest-online name df now n stats fs fs' g known on h =
      let fs1 : FeatureStore fl lib =
        if g.offline then offline_write fl lib name df.rows fs else fs in
      let same : fs1.online ≡ fs.online = ground (arith, offline_write-online name df.rows fs) in
      elim (Outcome-cases (online_write fl lib g df.rows now fs1)) [
        | inl (e, bad) ↦ absurd (ground (arith, known, on, bad, h))
        | inr ((k, fs3), good) ↦
            let (out, rows, online) = online_write-online g df.rows now k fs1 fs3 good in
            (
              out,
              rows,
              ground (arith, known, on, good, h)
                  ∙ online
                  ∙ ap (λ s. (write_batch g.name out g.ttl_hours now s).1) same,
            )
      ]

  group_of-name :
      (name : String) (fs : FeatureStore fl lib) (g : Group)
      → group_of fl lib name fs ≡ some g
      → g.name ≡ name
  unfolding get_feature_group
  group_of-name name fs g h = ground (arith, h)

  -- After an ingest that returns, into a group with an online store over a table with distinct keys,
  -- when SQLite gives each selected row once: until the group's TTL has passed, a read of the online
  -- features that asks for an entity returns, and for an entity with rows in the ingested frame each
  -- registered feature has the value of its last row in the order of time.
  pub get_online_features-ingest :
      IsScan lib.scan_online
      → (name e f : String) (ids : List String) (df : Frame V) (now later n : ℕ) (stats : S)
        (fs fs' : FeatureStore fl lib) (g : Group) (r : Row V)
      → group_of fl lib name fs ≡ some g
      → g.online ≡ true
      → IsUnique fs.online.table
      → ingest fl lib name df now fs ≡ ok ((n, stats), fs')
      → last_of e (lib.sort_values df.rows) ≡ some r
      → is_in (feature_names g) f ≡ true
      → is_in ids e ≡ true
      → is_expired later (expiry now (ttl_or g.ttl_hours fs.online.default_ttl_hours)) ≡ false
      → (out : Dict String (Dict String V)) × (get_online_features fl lib name ids later fs'
          ≡ ok out)
        × (cell e f out ≡ get f r.features)
  unfolding get_online_features
  get_online_features-ingest scan name e f ids df now later n stats fs fs' g r known on unique taken
        last member asked alive =
      let (out, rows, online) = ingest-online name df now n stats fs fs' g known on taken in
      let same_name = group_of-name name fs g known in
      let still = ingest-group_of fl lib name df now fs (n, stats) fs' taken in
      let (same, full) =
        written-online_rows (feature_names g) e f (latest_per_entity fl lib df.rows) out rows
          member in
      let last' : last_of e (latest_per_entity fl lib df.rows) ≡ some r =
        last_of-latest e df.rows ∙ last in
      let (v, value) = full r last' in
      (
        read_batch lib.scan_online name ids later fs'.online,
        ground (arith, still, known),
        ap (λ s. cell e f (read_batch lib.scan_online name ids later s))
              (online ∙ ap (λ k. (write_batch k out g.ttl_hours now fs.online).1) same_name)
            ∙ read_batch-write_batch lib.scan_online scan name e f ids out g.ttl_hours now later
                fs.online unique
            ∙ ground (arith, asked, same, last', value, alive),
      )

-- ===== src/Features/Store/Groups.antt =====
-- What an ingest leaves of the catalog: the group stays as it was registered.
use ml_monitor.Prelude.{
  ℕ, ◌⊎◌, inl, inr, ◌≡◌, refl, String, false, some, List, length, arith, ◌==◌, string_eq, eq_iff,
  if◌then◌else◌, Option-cases, inl, inr, Floats,
}
use ml_monitor.Features.Frame.{Frame, Row}
use ml_monitor.Features.Registry.{
  FeatureRegistry, Group, done, get_feature_group, get_features, log_ingestion, register_entity,
}
use ml_monitor.Features.Registry.Laws.{get_feature_group-register_feature_group}
use ml_monitor.Features.Store.{
  FeatureGroup, FeatureStore, Outcome, StoreError, raise, Libraries, register, ingest, group_of,
  feature_names, online_write, offline_write, ok,
}

pub Outcome-cases :
    {A : Type 0} (r : Outcome A) → ((e : StoreError) × (r ≡ raise e)) ⊎ ((a : A) × (r ≡ ok a))
Outcome-cases (raise e) = inl (e, refl)
Outcome-cases (ok a) = inr (a, refl)

abbrev pub SameCatalog : {S : Type 0} → FeatureRegistry S → FeatureRegistry S → Type 0
SameCatalog r s = (r.feature_groups ≡ s.feature_groups) × (r.features ≡ s.features)

module _ (fl : Floats) {S V : Type 0} (lib : Libraries S V) where
  offline_write-SameCatalog :
      (name : String) (rows : List (Row V)) (fs : FeatureStore fl lib)
      → (offline_write fl lib name rows fs).registry ≡ fs.registry
  unfolding offline_write
  offline_write-SameCatalog name rows fs = refl

  online_write-registry :
      (g : Group) (rows : List (Row V)) (now n : ℕ) (fs fs' : FeatureStore fl lib)
      → online_write fl lib g rows now fs ≡ ok (n, fs')
      → fs'.registry ≡ fs.registry
  unfolding online_write
  online_write-registry g rows now n fs fs' h = ground (arith, h)

  log_ingestion-SameCatalog :
      (name : String) (k : ℕ) (stats : S) (now : ℕ) (r : FeatureRegistry S)
      → SameCatalog (log_ingestion name k stats now r) r
  unfolding log_ingestion
  log_ingestion-SameCatalog name k stats now r = (refl, refl)

  pub ingest-registered :
      (name : String) (df : Frame V) (now : ℕ) (fs : FeatureStore fl lib) (counted : ℕ × S)
      (fs' : FeatureStore fl lib)
      → ingest fl lib name df now fs ≡ ok (counted, fs')
      → (g : Group) × (group_of fl lib name fs ≡ some g)
  unfolding ingest
  ingest-registered name df now fs counted fs' h = elim (Option-cases (group_of fl lib name fs)) [
    | inl unknown ↦ absurd (ground (arith, unknown, h))
    | inr known ↦ known
  ]

  pub ingest-SameCatalog :
      (name : String) (df : Frame V) (now : ℕ) (fs : FeatureStore fl lib) (n : ℕ) (stats : S)
      (fs' : FeatureStore fl lib) (g : Group)
      → group_of fl lib name fs ≡ some g
      → ingest fl lib name df now fs ≡ ok ((n, stats), fs')
      → SameCatalog fs'.registry fs.registry
  unfolding ingest
  ingest-SameCatalog name df now fs n stats fs' g known h =
      let fs1 : FeatureStore fl lib =
        if g.offline then offline_write fl lib name df.rows fs else fs in
      ground (
        arith,
        known,
        h,
        offline_write-SameCatalog name df.rows fs,
        log_ingestion-SameCatalog name (length df.rows) (lib.profile df (feature_names g)) now
            fs.registry,
        log_ingestion-SameCatalog name (length df.rows) (lib.profile df (feature_names g)) now
            fs1.registry,
      )

  group_of-SameCatalog :
      (name : String) (fs fs' : FeatureStore fl lib)
      → SameCatalog fs'.registry fs.registry
      → group_of fl lib name fs' ≡ group_of fl lib name fs
  unfolding get_feature_group get_features
  group_of-SameCatalog name fs fs' (groups, features) = rw (groups, features)

  pub ingest-group_of :
      (name : String) (df : Frame V) (now : ℕ) (fs : FeatureStore fl lib) (counted : ℕ × S)
      (fs' : FeatureStore fl lib)
      → ingest fl lib name df now fs ≡ ok (counted, fs')
      → group_of fl lib name fs' ≡ group_of fl lib name fs
  ingest-group_of name df now fs (n, stats) fs' h =
      let (g, known) = ingest-registered name df now fs (n, stats) fs' h in
      group_of-SameCatalog name fs fs' (ingest-SameCatalog name df now fs n stats fs' g known h)

  -- A registered group is found with the features that were given, in the order that SQLite gives them.
  pub group_of-register :
      (g : FeatureGroup) (now : ℕ) (fs : FeatureStore fl lib)
      → lib.tag_text.loads (lib.tag_text.dumps g.tags) ≡ g.tags
      → (lib.tag_text.dumps g.tags == "") ≡ false
      → (register fl lib g now fs).0 ≡ done
      → group_of fl lib g.name (register fl lib g now fs).1
        ≡ some (record {
          name = g.name;
          entity_name = g.entity_name;
          ttl_hours = g.ttl_hours;
          online = g.online;
          offline = g.offline;
          tags = g.tags;
          created_at = now;
          features = lib.scan_features g.features;
        })
  unfolding register
  group_of-register g now fs back filled outcome =
      let r = register_entity g.entity_name g.entity_dtype g.entity_description fs.registry in
      ground (
        arith,
        get_feature_group-register_feature_group lib.tag_text lib.scan_features g.name g.name
            g.entity_name g.features g.ttl_hours g.online g.offline g.tags now r back filled
            outcome,
        eq_iff g.name g.name,
      )

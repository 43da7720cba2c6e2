-- ===== src/Features/Store/Laws.antt =====
-- The latest rows of a frame, and what an ingest does on each of its outcomes.
use ml_monitor.Prelude.{
  ℕ, suc, ◌≡◌, refl, String, Bool, true, false, Option, none, some, List, [], ◌∷◌, any, length,
  length-snoc, arith, ◌==◌, string_eq, eq_iff, if◌then◌else◌, Floats,
}
use ml_monitor.Prelude.Dict.{get-put}
use ml_monitor.Features.Frame.{Frame, Row}
use ml_monitor.Features.Registry.{FeatureRegistry, Group, log_ingestion}
use ml_monitor.Features.Schema.{validate_schema, check_quality}
use ml_monitor.Features.Store.{
  ok, Libraries, tail_of_each, FeatureStore, latest_per_entity, group_of, offline_read,
  offline_write, online_write, ingest, feature_names,
}

abbrev pub to_list : {A : Type 0} → Option A → List A
to_list none = []
to_list (some a) = a ∷ []

module _ {V : Type 0} where
  abbrev pub last_of : String → List (Row V) → Option (Row V)
  last_of e [] = none
  last_of e (r ∷ rows) = elim (last_of e rows) [
    | some x ↦ some x
    | none ↦ if r.entity_id == e then some r else none
  ]

  abbrev pub has : String → List (Row V) → Bool
  has e rows = any (λ (x : Row V). x.entity_id == e) rows

  has-last_of :
      (e : String) (rows : List (Row V))
      → has e rows ≡ (elim (last_of e rows) as (λ _. Bool) [ none ↦ false | some x ↦ true ])
  has-last_of e [] = refl
  has-last_of e (r ∷ rows) = ground (arith, has-last_of e rows)

  -- The rows of one entity among the kept ones.
  abbrev pub of_entity : String → List (Row V) → List (Row V)
  of_entity e [] = []
  of_entity e (r ∷ rows) =
      let rest = of_entity e rows in if r.entity_id == e then r ∷ rest else rest

  of_entity-tail_of_each :
      (e : String) (rows : List (Row V))
      → of_entity e (tail_of_each rows) ≡ to_list (last_of e rows)
  unfolding tail_of_each
  of_entity-tail_of_each e [] = refl
  of_entity-tail_of_each e (r ∷ rows) = ground (
    arith,
    of_entity-tail_of_each e rows,
    has-last_of e rows,
    has-last_of r.entity_id rows,
    eq_iff r.entity_id e,
  )

module _ (fl : Floats) {S V : Type 0} (lib : Libraries S V) where
  -- Among the latest rows, an entity has exactly one row if the frame has any of its rows, and it is
  -- the last of them in the order of time; an entity without rows has none.
  pub latest_per_entity-last_of :
      (e : String) (rows : List (Row V))
      → of_entity e (latest_per_entity fl lib rows) ≡ to_list (last_of e (lib.sort_values rows))
  unfolding latest_per_entity
  latest_per_entity-last_of e rows = of_entity-tail_of_each e (lib.sort_values rows)

  offline_read-offline_write :
      (name : String) (rows : List (Row V)) (fs : FeatureStore fl lib)
      → offline_read fl lib name (offline_write fl lib name rows fs)
        ≡ lib.write_parts (offline_read fl lib name fs) rows
  unfolding offline_write
  offline_read-offline_write name rows fs = ground (
    arith,
    get-put name name (lib.write_parts (offline_read fl lib name fs) rows) fs.offline,
    eq_iff name name,
  )

  offline_write-registry :
      (name : String) (rows : List (Row V)) (fs : FeatureStore fl lib)
      → ((offline_write fl lib name rows fs).registry ≡ fs.registry)
        × ((offline_write fl lib name rows fs).online ≡ fs.online)
  unfolding offline_write
  offline_write-registry name rows fs = (refl, refl)

  online_write_lem :
      (g : Group) (rows : List (Row V)) (now n : ℕ) (fs fs' : FeatureStore fl lib)
      → online_write fl lib g rows now fs ≡ ok (n, fs')
      → (fs'.offline ≡ fs.offline) × (fs'.registry ≡ fs.registry)
  unfolding online_write
  online_write_lem g rows now n fs fs' h = ground (arith, h)

  logged_once :
      (name : String) (k : ℕ) (stats : S) (now : ℕ) (r : FeatureRegistry S)
      → length (log_ingestion name k stats now r).ingestion_log ≡ suc (length r.ingestion_log)
  unfolding log_ingestion
  logged_once name k stats now r = length-snoc r.ingestion_log _

  pub ingest_lem :
      (name : String) (df : Frame V) (now n : ℕ) (stats : S) (fs fs' : FeatureStore fl lib)
      (g : Group)
      → group_of fl lib name fs ≡ some g
      → ingest fl lib name df now fs ≡ ok ((n, stats), fs')
      → (validate_schema df.columns g.features ≡ none)
        × (check_quality fl lib.dtypes (lib.column df) g.features ≡ [])
        × (n ≡ length df.rows)
        × (length fs'.registry.ingestion_log ≡ suc (length fs.registry.ingestion_log))
        × (offline_read fl lib name fs' ≡ (
            if g.offline
            then lib.write_parts (offline_read fl lib name fs) df.rows
            else offline_read fl lib name fs))
        × ((if g.online then fs.online else fs'.online) ≡ fs.online)
  unfolding ingest
  ingest_lem name df now n stats fs fs' g known done = ground (
    arith,
    known,
    done,
    offline_read-offline_write name df.rows fs,
    offline_write-registry name df.rows fs,
    logged_once name (length df.rows) (lib.profile df (feature_names g)) now fs.registry,
    logged_once name (length df.rows) (lib.profile df (feature_names g)) now
        (offline_write fl lib name df.rows fs).registry,
  )

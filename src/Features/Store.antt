-- ===== src/Features/Store.antt =====
-- src/ml_platform/features/core/feature_store.py: registration, ingestion and serving over the
-- registry, the offline store of stores/offline/parquet_store.py and the online store. pandas, SQLite's
-- orders and the statistics are arguments. A parquet directory is the rows of its files in the order of
-- their names, which is that of the dates; `sort_values` is pandas' sort by time.
pub mod Laws
pub mod Serving
pub mod Groups
pub mod Fresh
mod Tests
use ml_monitor.Prelude.{
  ℕ, ◌+◌, String, Bool, true, false, Option, none, some, List, [], ◌∷◌, ◌++◌, map, any, length, leb,
  ◌==◌, string_eq, if◌then◌else◌, Floats,
}
use ml_monitor.Prelude.Dict.{Dict, get, put}
use ml_monitor.Features.Frame.{Frame, Row, is_in}
use ml_monitor.Features.Registry.{
  Feature, FeatureRegistry, Group, Registered, TagText, register_entity, register_feature_group,
  get_feature_group, log_ingestion,
}
use ml_monitor.Features.Schema.{Dtypes, Problem, SchemaError, validate_schema, check_quality}
use ml_monitor.Features.Online.{OnlineStore, OnlineRow, Stored, Key, write_batch, read_batch}

-- `not_registered` is the ValueError of the facade, `key_error` a missing feature of a row.
pub data StoreError : Type 0 where
  not_registered key_error nothing_offline bad_batch_size : StoreError
  schema_error : SchemaError → StoreError
  quality_error : List Problem → StoreError

pub data Outcome (A : Type 0) : Type 0 where
  ok : A → Outcome A
  raise : StoreError → Outcome A

pub record FeatureGroup : Type 0 where
  pub name : String
  pub entity_name : String
  pub entity_dtype : String
  pub entity_description : String
  pub features : List Feature
  pub ttl_hours : Option ℕ
  pub online : Bool
  pub offline : Bool
  pub tags : List String

pub record Libraries (S V : Type 0) : Type 0 where
  pub tag_text : TagText
  pub dtypes : Dtypes V
  -- The order of rows of `features` that SQLite gives.
  pub scan_features : List Feature → List Feature
  pub scan_online : List (Key × Stored V) → List (Key × Stored V)
  -- `df.sort_values("event_timestamp")`
  pub sort_values : List (Row V) → List (Row V)
  -- `df[name]`, if the frame has the column
  pub column : Frame V → String → Option (List V)
  -- `profile(data, feature_names)`
  pub profile : Frame V → List String → S
  -- The rows of a directory after a write: each file of a date gets its part at the end.
  pub write_parts : List (Row V) → List (Row V) → List (Row V)

-- `groupby("entity_id").tail(1)`: the last row of each entity, in the order of the rows.
unfoldable pub tail_of_each : {V : Type 0} → List (Row V) → List (Row V)
tail_of_each [] = []
tail_of_each (r ∷ rows) =
    let rest = tail_of_each rows in
    if any (λ (x : Row _). x.entity_id == r.entity_id) rows then rest else r ∷ rest

-- `{n: row[n] for n in feature_names}`; `none` is a KeyError.
unfoldable pub pick : {V : Type 0} → List String → Dict String V → Option (Dict String V)
pick [] row = some []
pick (n ∷ names) row = elim (get n row) [
  | none ↦ none
  | some v ↦ elim (pick names row) [ none ↦ none | some picked ↦ some ((n, v) ∷ picked) ]
]

unfoldable pub online_rows : {V : Type 0} → List String → List (Row V) → Option (List (OnlineRow V))
unfolding pick
online_rows names [] = some []
online_rows names (r ∷ rows) = elim (pick names r.features) [
  | none ↦ none
  | some features ↦ elim (online_rows names rows) [
    | none ↦ none
    | some rest ↦ some ((r.entity_id, features) ∷ rest)
  ]
]

abbrev pub feature_names : Group → List String
feature_names g = map (λ (f : Feature). f.name) g.features

module _ (fl : Floats) {S V : Type 0} (lib : Libraries S V) where
  pub record FeatureStore : Type 0 where
    pub registry : FeatureRegistry S
    -- The offline store: a frame of rows for each group's directory.
    pub offline : Dict String (List (Row V))
    pub online : OnlineStore V

  unfoldable pub latest_per_entity : List (Row V) → List (Row V)
  unfolding tail_of_each
  latest_per_entity rows = tail_of_each (lib.sort_values rows)

  abbrev pub group_of : String → FeatureStore → Option Group
  group_of name fs = get_feature_group lib.tag_text lib.scan_features name fs.registry

  unfoldable pub register : FeatureGroup → ℕ → FeatureStore → Registered × FeatureStore
  register g now fs =
      let entities =
        register_entity g.entity_name g.entity_dtype g.entity_description fs.registry in
      let (outcome, registry) =
        register_feature_group lib.tag_text g.name g.entity_name g.features g.ttl_hours g.online
          g.offline g.tags now entities in
      (outcome, record fs { registry = registry })

  -- `ParquetOfflineStore.read`: no directory is an empty frame.
  abbrev pub offline_read : String → FeatureStore → List (Row V)
  offline_read name fs = elim (get name fs.offline) [ none ↦ [] | some rows ↦ rows ]

  unfoldable pub offline_write : String → List (Row V) → FeatureStore → FeatureStore
  offline_write name rows fs = record fs {
    offline = put name (lib.write_parts (offline_read name fs) rows) fs.offline;
  }

  -- The write to the online store, when the group has one.
  unfoldable pub online_write : Group → List (Row V) → ℕ → FeatureStore → Outcome (ℕ × FeatureStore)
  unfolding latest_per_entity online_rows
  online_write g rows now fs = elim (online_rows (feature_names g) (latest_per_entity rows)) [
    | none ↦ raise key_error
    | some written ↦
        let (n, online) = write_batch g.name written g.ttl_hours now fs.online in
        ok (length written, record fs { online = online })
  ]

  -- What `ingest` returns, the number of rows and the statistics, and the store after it. A KeyError
  -- would come after the offline write; `raise` keeps no state.
  unfoldable pub ingest : String → Frame V → ℕ → FeatureStore → Outcome ((ℕ × S) × FeatureStore)
  unfolding offline_write online_write
  ingest name df now fs = elim (group_of name fs) [
    | none ↦ raise not_registered
    | some g ↦ elim (validate_schema df.columns g.features) [
      | some e ↦ raise (schema_error e)
      | none ↦ elim (check_quality fl lib.dtypes (lib.column df) g.features) [
        | p ∷ problems ↦ raise (quality_error (p ∷ problems))
        | [] ↦
            let stats = lib.profile df (feature_names g) in
            let fs1 : FeatureStore = if g.offline then offline_write name df.rows fs else fs in
            let fs2 : Outcome (ℕ × FeatureStore) =
              if g.online then online_write g df.rows now fs1 else ok (0, fs1) in
            elim fs2 [
              | raise e ↦ raise e
              | ok (n, fs3) ↦ ok (
                (length df.rows, stats),
                record fs3 {
                  registry = log_ingestion name (length df.rows) stats now fs3.registry;
                },
              )
            ]
      ]
    ]
  ]

  unfoldable pub get_online_features :
      String → List String → ℕ → FeatureStore → Outcome (Dict String (Dict String V))
  get_online_features name entity_ids now fs = elim (group_of name fs) [
    | none ↦ raise not_registered
    | some g ↦ ok (read_batch lib.scan_online name entity_ids now fs.online)
  ]

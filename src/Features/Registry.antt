-- ===== src/Features/Registry.antt =====
-- src/ml_platform/features/registry/registry.py: the catalog of entities, groups and features. Each
-- table is keyed by its PRIMARY KEY. The order in which SQLite gives rows when a query asks for none,
-- `json` on tags and statistics, and LIKE are arguments.
pub mod Laws
use ml_monitor.Prelude.{
  ℕ, ◌+◌, String, Bool, true, false, Option, none, some, List, [], ◌∷◌, ◌++◌, map, any, select,
  take, ◌==◌, string_eq, if◌then◌else◌, ◌||◌,
}
use ml_monitor.Prelude.Dict.{Dict, get, put}

pub record Feature : Type 0 where
  pub name : String
  pub dtype : String
  pub description : String

pub record EntityRow : Type 0 where
  pub dtype : String
  pub description : String

-- A row of `feature_groups`, by its name.
pub record GroupRow : Type 0 where
  pub entity_name : String
  pub ttl_hours : Option ℕ
  pub online : Bool
  pub offline : Bool
  pub tags : String
  pub created_at : ℕ

pub record IngestionRow (S : Type 0) : Type 0 where
  pub id : ℕ
  pub feature_group : String
  pub row_count : ℕ
  pub ingested_at : ℕ
  pub stats : S

pub record FeatureRegistry (S : Type 0) : Type 0 where
  pub entities : Dict String EntityRow
  pub feature_groups : Dict String GroupRow
  pub features : List (String × Feature)
  pub ingestion_log : List (IngestionRow S)
  pub next_ingestion : ℕ

-- What `get_feature_group` returns.
pub record Group : Type 0 where
  pub name : String
  pub entity_name : String
  pub ttl_hours : Option ℕ
  pub online : Bool
  pub offline : Bool
  pub tags : List String
  pub created_at : ℕ
  pub features : List Feature

-- `integrity_error` is the second row for a (feature_group, name). What was executed before it stays
-- in the open transaction, which the next commit ends.
pub data Registered : Type 0 where
  done integrity_error : Registered

-- `json.dumps` and `json.loads` on a list of tags.
pub record TagText : Type 0 where
  pub dumps : List String → String
  pub loads : String → List String

abbrev pub is_of : String → String × Feature → Bool
is_of group (g, f) = g == group

abbrev pub is_named : String → String × Feature → Bool
is_named name (g, f) = f.name == name

-- The loop of INSERTs into `features`.
unfoldable pub insert_features :
    String → List Feature → List (String × Feature) → Registered × List (String × Feature)
insert_features group [] table = (done, table)
insert_features group (f ∷ features) table =
    let rest = insert_features group features (table ++ (group, f) ∷ []) in
    if any (is_named f.name) (select (is_of group) table) then (integrity_error, table) else rest

abbrev pub present : {A : Type 0} → List (Option A) → List A
present [] = []
present (none ∷ xs) = present xs
present (some x ∷ xs) = x ∷ present xs

module _ {S : Type 0} where
  unfoldable pub register_entity : String → String → String → FeatureRegistry S → FeatureRegistry S
  register_entity name dtype description r = record r {
    entities = put name (record { dtype = dtype; description = description }) r.entities;
  }

  unfoldable pub register_feature_group :
      TagText
      → String
      → String
      → List Feature
      → Option ℕ
      → Bool
      → Bool
      → List String
      → ℕ
      → FeatureRegistry S
      → Registered × FeatureRegistry S
  unfolding insert_features
  register_feature_group json name entity_name features ttl_hours online offline tags now r =
      let groups =
        put name
          (record {
            entity_name = entity_name;
            ttl_hours = ttl_hours;
            online = online;
            offline = offline;
            tags = json.dumps tags;
            created_at = now;
          })
          r.feature_groups in
      let others =
        select (λ (x : String × Feature). if is_of name x then false else true) r.features in
      let (outcome, table) = insert_features name features others in
      (outcome, record r { feature_groups = groups; features = table })

  unfoldable pub get_features :
      (List Feature → List Feature) → String → FeatureRegistry S → List Feature
  get_features scan group_name r =
      scan (map (λ (x : String × Feature). x.1) (select (is_of group_name) r.features))

  unfoldable pub get_feature_group :
      TagText → (List Feature → List Feature) → String → FeatureRegistry S → Option Group
  unfolding get_features
  get_feature_group json scan name r = elim (get name r.feature_groups) [
    | none ↦ none
    | some row ↦ some (record {
      name = name;
      entity_name = row.entity_name;
      ttl_hours = row.ttl_hours;
      online = row.online;
      offline = row.offline;
      tags = json.loads (if row.tags == "" then "[]" else row.tags);
      created_at = row.created_at;
      features = get_features scan name r;
    })
  ]

  -- `order` is ORDER BY name.
  unfoldable pub list_feature_groups :
      TagText
      → (List Feature → List Feature)
      → (List String → List String)
      → FeatureRegistry S
      → List Group
  unfolding get_feature_group
  list_feature_groups json scan order r = present (
      map (λ name. get_feature_group json scan name r)
        (order (map (λ (x : String × GroupRow). x.0) r.feature_groups)))

  -- `like keyword text` is `lower(text) LIKE '%keyword%'`.
  unfoldable pub search_features :
      (String → String → Bool) → String → FeatureRegistry S → List (String × Feature)
  search_features like keyword r =
      let tagged = select (λ (x : String × GroupRow). like keyword x.1.tags) r.feature_groups in
      select
        (λ (x : String × Feature).
          like keyword x.1.name
          || like keyword x.1.description
          || any (λ (g : String × GroupRow). g.0 == x.0) tagged)
        r.features

  unfoldable pub log_ingestion : String → ℕ → S → ℕ → FeatureRegistry S → FeatureRegistry S
  log_ingestion group_name row_count stats now r = record r {
    ingestion_log =
        r.ingestion_log
        ++ record {
          id = r.next_ingestion;
          feature_group = group_name;
          row_count = row_count;
          ingested_at = now;
          stats = stats;
        }
          ∷ [];
    next_ingestion = r.next_ingestion + 1;
  }

  -- `order_desc` is ORDER BY ingested_at DESC.
  unfoldable pub get_latest_stats :
      (List (IngestionRow S) → List (IngestionRow S)) → String → FeatureRegistry S → Option S
  get_latest_stats order_desc group_name r =
      elim (order_desc
        (select (λ (x : IngestionRow S). x.feature_group == group_name) r.ingestion_log)) [
          | [] ↦ none
          | row ∷ rows ↦ some row.stats
        ]

-- ===== src/Features/Store/Serving.antt =====
-- The serving and the discovery half of FeatureStore in src/ml_platform/features/core/feature_store.py,
-- with `get_historical_features` of stores/offline/base.py and `delete_group` of the parquet store.
use ml_monitor.Prelude.{
  ℕ, String, Bool, Option, none, some, List, [], ◌∷◌, map, length, leb, if◌then◌else◌, Floats,
  string_eq,
}
use ml_monitor.Prelude.Dict.{remove}
use ml_monitor.Features.Frame.{Row}
use ml_monitor.Features.Registry as Registry
use ml_monitor.Features.Registry.{Feature, Group, IngestionRow, get_latest_stats}
use ml_monitor.Features.Store.{Libraries, FeatureStore, group_of, offline_read}
use ml_monitor.Features.PitJoin.{TrainingRow, GroupFrame, Pandas, point_in_time_join}

-- The two ValueErrors of `get_historical_features`.
pub data Historical (A : Type 0) : Type 0 where
  joined : A → Historical A
  not_registered : String → Historical A
  missing_columns : Historical A

-- The training frame and the warnings: a group with its uncovered entities.
abbrev pub Training : Type 0 → Type 0
Training V = List (TrainingRow V) × List (String × List String)

-- What the queries of the registry and pandas leave open: ORDER BY name, LIKE, ORDER BY ingested_at
-- DESC, and the feature columns of the frame that holds some rows.
pub record Queries (S V : Type 0) : Type 0 where
  pub order_names : List String → List String
  pub like : String → String → Bool
  pub order_desc : List (IngestionRow S) → List (IngestionRow S)
  pub feature_cols_of : List (Row V) → List String
  -- The time at which batch i is written of a materialization that begins at some time.
  pub batch_time : ℕ → ℕ → ℕ

-- `if missing: warnings.warn(...)`
unfoldable pub warnings : List (String × List String) → List (String × List String)
warnings [] = []
warnings ((group_name, missing) ∷ uncovered) =
    let rest = warnings uncovered in
    if leb (length missing) 0 then rest else (group_name, missing) ∷ rest

module _ (fl : Floats) {S V : Type 0} (lib : Libraries S V) (q : Queries S V) (pd : Pandas V) where
  -- The loop of checks: the first name that is not registered.
  unfoldable pub unknown_group : List String → FeatureStore fl lib → Option String
  unknown_group [] fs = none
  unknown_group (name ∷ names) fs =
      let rest = unknown_group names fs in
      elim (group_of fl lib name fs) [ none ↦ some name | some g ↦ rest ]

  -- `{name: self.read(name) for name in feature_groups}`
  unfoldable pub frames_of : List String → FeatureStore fl lib → List (String × GroupFrame V)
  frames_of names fs =
      map
        (λ name. (
          name,
          record {
            feature_cols = q.feature_cols_of (offline_read fl lib name fs);
            rows = offline_read fl lib name fs;
          },
        ))
        names

  -- `columns` are those of the entity frame.
  unfoldable pub get_historical_features :
      List String
      → List (TrainingRow V)
      → List String
      → String
      → FeatureStore fl lib
      → Historical (Training V)
  unfolding unknown_group frames_of warnings
  get_historical_features columns entity_rows feature_groups fill_strategy fs =
      elim (unknown_group feature_groups fs) [
        | some name ↦ not_registered name
        | none ↦
            elim (point_in_time_join pd columns entity_rows (frames_of feature_groups fs)
              fill_strategy) [
                | none ↦ missing_columns
                | some result ↦ joined (result.training_df, warnings result.uncovered_entity_ids)
              ]
      ]

  unfoldable pub list_feature_groups : FeatureStore fl lib → List Group
  list_feature_groups fs =
      Registry.list_feature_groups lib.tag_text lib.scan_features q.order_names fs.registry

  unfoldable pub search_features : String → FeatureStore fl lib → List (String × Feature)
  search_features keyword fs = Registry.search_features q.like keyword fs.registry

  unfoldable pub get_feature_stats : String → FeatureStore fl lib → Option S
  get_feature_stats feature_group fs = get_latest_stats q.order_desc feature_group fs.registry

  -- `delete_group` of the parquet store removes the directory.
  unfoldable pub delete_group : String → FeatureStore fl lib → FeatureStore fl lib
  delete_group group_name fs = record fs { offline = remove group_name fs.offline }

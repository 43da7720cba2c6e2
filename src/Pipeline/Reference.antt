-- ===== src/Pipeline/Reference.antt =====
-- src/ml_platform/monitoring/adapters/featurestore.py: a monitor whose reference is the offline
-- history of a feature group.
use ml_monitor.Prelude.{
  String, Bool, true, false, not, ◌||◌, Option, none, some, List, map, any, select, length, leb,
  string_eq, if◌then◌else◌, Floats,
}
use ml_monitor.Prelude.Dict.{get}
use ml_monitor.Features.Frame.{Row, is_in}
use ml_monitor.Features.Schema.{required_cols}
use ml_monitor.Features.Store.{Libraries, FeatureStore, group_of, feature_names, offline_read}
use ml_monitor.Monitoring.DataDrift as Drift
use ml_monitor.Monitoring.DataDrift.{Column, Numerics}
use ml_monitor.Monitoring.Store.{Json, SqliteStore}
use ml_monitor.Monitoring.Monitor.{DriftConfig, AlertConfig, Message}
use ml_monitor.Monitoring.Monitor.Drift.{Pandas, Monitor}
use ml_monitor.Monitoring.Monitor.Drift.Open.{open_monitor}

-- The two ValueErrors of the module are constructors.
pub data Reference (A : Type 0) : Type 0 where
  found : A → Reference A
  not_registered : Reference A
  no_offline_data : List String → Reference A

abbrev pub is_given : {A : Type 0} → Option A → Bool
is_given none = false
is_given (some a) = true

-- `column_of` is the column that pandas makes of cells, `none` where a row has no value.
module _ (fl : Floats) {S V : Type 0} (lib : Libraries S V)
    (column_of : List (Option V) → Column V) where
  unfoldable pub feature_columns : String → FeatureStore fl lib → Option (List String)
  feature_columns feature_group fs = elim (group_of fl lib feature_group fs) [
    | none ↦ none
    | some group ↦ some (feature_names group)
  ]

  -- `c in df.columns`: the frame that `read` gives has the columns of all its parts.
  abbrev pub has_column : List (Row V) → String → Bool
  has_column rows c = is_in required_cols c || any (λ (r : Row V). is_given (get c r.features)) rows

  -- `df[cols]`
  unfoldable pub select_columns : List String → List (Row V) → Drift.Frame V
  select_columns cols rows =
      map (λ c. (c, column_of (map (λ (r : Row V). get c r.features) rows))) cols

  unfoldable pub reference_data_from_feature_store :
      String → FeatureStore fl lib → Reference (Drift.Frame V)
  unfolding feature_columns select_columns
  reference_data_from_feature_store feature_group fs = elim (feature_columns feature_group fs) [
    | none ↦ not_registered
    | some feature_cols ↦
        let df = offline_read fl lib feature_group fs in
        let missing = select (λ c. not (has_column df c)) feature_cols in
        if leb (length missing) 0
        then found (select_columns feature_cols df)
        else no_offline_data missing
  ]

  module _ (np : Numerics fl.Float V) (pd : Pandas fl.Float V) (json : Json V)
      (render : Message fl.Float → String) where
    unfoldable pub monitor_from_feature_store :
        String
        → Option (List V)
        → Option (DriftConfig fl.Float)
        → Option AlertConfig
        → SqliteStore
        → FeatureStore fl lib
        → Reference (Monitor fl np pd json render)
    unfolding reference_data_from_feature_store
    monitor_from_feature_store feature_group reference_predictions config alerts db fs =
        elim (reference_data_from_feature_store feature_group fs) [
          | not_registered ↦ not_registered
          | no_offline_data missing ↦ no_offline_data missing
          | found reference_data ↦ found (
              open_monitor fl np pd json render (some reference_data) reference_predictions config
                alerts db)
        ]

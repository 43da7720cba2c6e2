-- ===== src/Features/Cli.antt =====
-- src/ml_platform/features/cli.py: the commands over the feature store. A command prints and exits: its
-- lines are data, and `exit_1` is SystemExit(1). The file is a frame that pandas has read.
pub mod Laws
mod Tests
use ml_monitor.Prelude.{
  ℕ, String, Bool, Option, none, some, List, [], ◌∷◌, map, length, Floats, string_eq,
}
use ml_monitor.Features.Frame.{Frame}
use ml_monitor.Features.Registry.{Feature, Group}
use ml_monitor.Features.Schema.{SchemaError, Problem, validate_schema, check_quality}
use ml_monitor.Features.Store.{
  Outcome, ok, raise, StoreError, not_registered, key_error, nothing_offline, bad_batch_size,
  schema_error, quality_error, Libraries, FeatureStore, group_of, ingest,
}
use ml_monitor.Features.Store.Serving.{
  Queries, list_feature_groups, search_features, get_feature_stats,
}
use ml_monitor.Features.Materialize.{materialize}
use ml_monitor.Features.PitJoin.{Pandas}

-- What a command prints before it ends.
pub data Line (S : Type 0) : Type 0 where
  groups_table : List Group → Line S
  no_such_group : String → Line S
  described : Group → List Feature → Line S
  no_matches no_stats_yet : Line S
  matches : List (String × Feature) → Line S
  ingested : ℕ → String → Line S
  ingest_failed validation_failed : StoreError → Line S
  materialized : ℕ → String → Line S
  stats_table : S → Line S
  valid : ℕ → String → Line S

-- How a command ends; `traceback` is an exception that the command does not catch.
pub data Exit (S : Type 0) : Type 0 where
  exit_0 exit_1 : Line S → Exit S
  traceback : StoreError → Exit S

module _ (fl : Floats) {S V : Type 0} (lib : Libraries S V) (q : Queries S V) (pd : Pandas V) where
  unfoldable pub list_groups : FeatureStore fl lib → Exit S
  list_groups fs = exit_0 (groups_table (list_feature_groups fl lib q pd fs))

  unfoldable pub describe : String → FeatureStore fl lib → Exit S
  describe group fs = elim (group_of fl lib group fs) [
    | none ↦ exit_1 (no_such_group group)
    | some g ↦ exit_0 (described g g.features)
  ]

  unfoldable pub search_command : String → FeatureStore fl lib → Exit S
  search_command keyword fs = elim (search_features fl lib q pd keyword fs) [
    | [] ↦ exit_0 no_matches
    | r ∷ results ↦ exit_0 (matches (r ∷ results))
  ]

  unfoldable pub stats : String → FeatureStore fl lib → Exit S
  stats group fs = elim (get_feature_stats fl lib q pd group fs) [
    | none ↦ exit_0 no_stats_yet
    | some s ↦ exit_0 (stats_table s)
  ]

  -- The exit and the store after the command.
  unfoldable pub ingest_command :
      String → Frame V → ℕ → FeatureStore fl lib → Exit S × FeatureStore fl lib
  ingest_command group df now fs = elim (ingest fl lib group df now fs) [
    | ok ((rows_written, s), fs') ↦ (exit_0 (ingested rows_written group), fs')
    | raise e ↦ elim e as (λ _. Exit S × FeatureStore fl lib) [
      | schema_error problem ↦ (exit_1 (ingest_failed (schema_error problem)), fs)
      | quality_error problems ↦ (exit_1 (ingest_failed (quality_error problems)), fs)
      | not_registered ↦ (traceback not_registered, fs)
      | key_error ↦ (traceback key_error, fs)
      | nothing_offline ↦ (traceback nothing_offline, fs)
      | bad_batch_size ↦ (traceback bad_batch_size, fs)
    ]
  ]

  unfoldable pub materialize_command :
      String → ℕ → FeatureStore fl lib → Exit S × FeatureStore fl lib
  materialize_command group now fs = elim (materialize fl lib group 500 (q.batch_time now) fs) [
    | ok (n, fs') ↦ (exit_0 (materialized n group), fs')
    | raise e ↦ (traceback e, fs)
  ]

  -- The dry run of the two gates.
  unfoldable pub validate : String → Frame V → FeatureStore fl lib → Exit S
  validate group df fs = elim (group_of fl lib group fs) [
    | none ↦ exit_1 (no_such_group group)
    | some g ↦ elim (validate_schema df.columns g.features) [
      | some problem ↦ exit_1 (validation_failed (schema_error problem))
      | none ↦ elim (check_quality fl lib.dtypes (lib.column df) g.features) [
        | p ∷ problems ↦ exit_1 (validation_failed (quality_error (p ∷ problems)))
        | [] ↦ exit_0 (valid (length df.rows) group)
      ]
    ]
  ]

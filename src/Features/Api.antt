-- ===== src/Features/Api.antt =====
-- src/ml_platform/features/api.py: the REST API of the feature store. A request is a route with its
-- parsed body; an exception that a handler does not catch is a 500. Entity ids are their texts.
pub mod Laws
mod Tests
use ml_monitor.Prelude.{
  ℕ, String, Bool, Option, none, some, List, [], ◌∷◌, length, leb, if◌then◌else◌, Floats, string_eq,
}
use ml_monitor.Prelude.Dict.{Dict}
use ml_monitor.Features.Frame.{Frame, Row}
use ml_monitor.Features.Registry.{Feature, Group, Registered, done, integrity_error}
use ml_monitor.Features.Schema.{SchemaError, Problem}
use ml_monitor.Features.Store.{
  Outcome, ok, raise, StoreError, not_registered, key_error, nothing_offline, bad_batch_size,
  schema_error, quality_error, FeatureGroup, Libraries, FeatureStore, group_of, register, ingest,
  get_online_features,
}
use ml_monitor.Features.Store.Serving as Serving
use ml_monitor.Features.Store.Serving.{
  Queries, Historical, joined, missing_columns, get_historical_features, list_feature_groups,
}
use ml_monitor.Features.Materialize.{materialize}
use ml_monitor.Features.PitJoin.{TrainingRow, Pandas}

-- Why a request is refused.
pub data Detail : Type 0 where
  group_not_found nothing_to_ingest nothing_to_materialize step_is_zero columns_missing : Detail
  bad_schema : SchemaError → Detail
  bad_quality : List Problem → Detail

module _ (S V : Type 0) where
  pub data Request : Type 0 where
    health list_groups : Request
    get_group : String → Request
    create_group : FeatureGroup → Request
    -- The uploaded file, and the rows of a JSON body as a frame.
    post_ingest : String → Option (Frame V) → Option (Frame V) → Request
    online_features : String → List String → Request
    -- The columns and the rows of `entity_rows`, the groups and the fill strategy.
    historical_features : List String → List (TrainingRow V) → List String → String → Request
    post_materialize : String → Request

  pub data Response : Type 0 where
    healthy : Response
    groups : List Group → Response
    group_found : Group → Response
    created : Option Group → Response
    ingested : ℕ → S → Response
    online : Dict String (Dict String V) → Response
    training : List (TrainingRow V) → Response
    materialized : String → ℕ → Response
    bad_request not_found unprocessable : Detail → Response
    server_error : Response

module _ (fl : Floats) {S V : Type 0} (lib : Libraries S V) (q : Queries S V) (pd : Pandas V) where
  abbrev pub Served : Type 0
  Served = Response S V × FeatureStore fl lib

  -- `if file is not None ... elif rows ... else`: an empty list of rows is no body.
  unfoldable pub frame_of : Option (Frame V) → Option (Frame V) → Option (Frame V)
  frame_of (some file) rows = some file
  frame_of none none = none
  frame_of none (some rows) = if leb (length rows.rows) 0 then none else some rows

  -- The `try` of `ingest`: only the two gates' errors are caught. After the gates every column is there,
  -- so no KeyError comes between two writes.
  unfoldable pub serve_ingest : String → Frame V → ℕ → FeatureStore fl lib → Served
  serve_ingest name df now fs = elim (ingest fl lib name df now fs) [
    | ok ((n, stats), fs') ↦ (ingested n stats, fs')
    | raise e ↦ elim e as (λ _. Served) [
      | schema_error problem ↦ (unprocessable (bad_schema problem), fs)
      | quality_error problems ↦ (unprocessable (bad_quality problems), fs)
      | not_registered ↦ (server_error, fs)
      | key_error ↦ (server_error, fs)
      | nothing_offline ↦ (server_error, fs)
      | bad_batch_size ↦ (server_error, fs)
    ]
  ]

  -- The `try` of `materialize`: every ValueError is a 404. The records of a frame have the same keys, so
  -- a KeyError comes at the first batch, before any write.
  unfoldable pub serve_materialize : String → ℕ → FeatureStore fl lib → Served
  serve_materialize name now fs = elim (materialize fl lib name 500 (q.batch_time now) fs) [
    | ok (n, fs') ↦ (materialized name n, fs')
    | raise e ↦ elim e as (λ _. Served) [
      | not_registered ↦ (not_found group_not_found, fs)
      | nothing_offline ↦ (not_found nothing_to_materialize, fs)
      | bad_batch_size ↦ (not_found step_is_zero, fs)
      | schema_error problem ↦ (server_error, fs)
      | quality_error problems ↦ (server_error, fs)
      | key_error ↦ (server_error, fs)
    ]
  ]

  unfoldable pub serve_create : FeatureGroup → ℕ → FeatureStore fl lib → Served
  serve_create body now fs =
      let (outcome, fs') = register fl lib body now fs in
      elim outcome [
        | done ↦ (created (group_of fl lib body.name fs'), fs')
        | integrity_error ↦ (server_error, fs')
      ]

  unfoldable pub handle : Request S V → ℕ → FeatureStore fl lib → Served
  unfolding frame_of serve_ingest serve_materialize serve_create
  handle health now fs = (healthy, fs)
  handle list_groups now fs = (groups (list_feature_groups fl lib q pd fs), fs)
  handle (get_group name) now fs = elim (group_of fl lib name fs) [
    | none ↦ (not_found group_not_found, fs)
    | some g ↦ (group_found g, fs)
  ]
  handle (create_group body) now fs = serve_create body now fs
  handle (post_ingest name file rows) now fs = elim (frame_of file rows) [
    | none ↦ (bad_request nothing_to_ingest, fs)
    | some df ↦ serve_ingest name df now fs
  ]
  handle (online_features name entity_ids) now fs =
      elim (get_online_features fl lib name entity_ids now fs) [
        | ok out ↦ (online out, fs)
        | raise e ↦ (not_found group_not_found, fs)
      ]
  handle (historical_features columns entity_rows names fill_strategy) now fs =
      elim (get_historical_features fl lib q pd columns entity_rows names fill_strategy fs) [
        | joined (rows, warned) ↦ (training rows, fs)
        | Serving.not_registered name ↦ (not_found group_not_found, fs)
        | missing_columns ↦ (not_found columns_missing, fs)
      ]
  handle (post_materialize name) now fs = serve_materialize name now fs

  -- Requests one after another, each at its time.
  unfoldable pub handle_all : List (ℕ × Request S V) → FeatureStore fl lib → FeatureStore fl lib
  handle_all [] fs = fs
  handle_all ((now, request) ∷ requests) fs = handle_all requests (handle request now fs).1

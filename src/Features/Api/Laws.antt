-- ===== src/Features/Api/Laws.antt =====
-- The catalog behind the REST API: a registered group stays, and is found as it was given.
use ml_monitor.Prelude.{
  ℕ, ◌≡◌, ap, ◌∙◌, String, Bool, true, false, Option, none, some, List, [], ◌∷◌, arith, ◌==◌,
  string_eq, eq_iff, if◌then◌else◌, Option-cases, inl, inr, Floats,
}
use ml_monitor.Prelude.Dict.{get, get-put}
use ml_monitor.Features.Frame.{Frame}
use ml_monitor.Features.Registry.{
  FeatureRegistry, Group, GroupRow, register_entity, register_feature_group, get_feature_group,
}
use ml_monitor.Features.Store.{
  ok, FeatureGroup, Libraries, FeatureStore, group_of, register, ingest,
}
use ml_monitor.Features.Store.Groups.{Outcome-cases, ingest-SameCatalog, ingest-registered}
use ml_monitor.Features.Store.Serving.{Queries}
use ml_monitor.Features.Materialize.{materialize}
use ml_monitor.Features.PitJoin.{Pandas}
use ml_monitor.Features.Api.{
  Request, health, list_groups, get_group, create_group, post_ingest, online_features,
  historical_features, post_materialize, group_found, frame_of, serve_ingest, serve_materialize,
  handle, handle_all,
}

abbrev pub is_some : {A : Type 0} → Option A → Bool
is_some none = false
is_some (some a) = true

module _ (fl : Floats) {S V : Type 0} (lib : Libraries S V) (q : Queries S V) (pd : Pandas V) where
  -- A name has a row in the table of groups.
  abbrev pub is_registered : String → FeatureStore fl lib → Bool
  is_registered name fs = is_some (get name fs.registry.feature_groups)

  register-is_registered :
      (name : String) (body : FeatureGroup) (now : ℕ) (fs : FeatureStore fl lib)
      → is_registered name (register fl lib body now fs).1
        ≡ (if body.name == name then true else is_registered name fs)
  unfolding register register_entity register_feature_group
  register-is_registered name body now fs =
      let row : GroupRow = record {
        entity_name = body.entity_name;
        ttl_hours = body.ttl_hours;
        online = body.online;
        offline = body.offline;
        tags = lib.tag_text.dumps body.tags;
        created_at = now;
      } in
      ground (arith, get-put body.name name row fs.registry.feature_groups)

  materialize-registry :
      (name : String) (now n : ℕ) (fs fs' : FeatureStore fl lib)
      → materialize fl lib name 500 (q.batch_time now) fs ≡ ok (n, fs')
      → fs'.registry ≡ fs.registry
  unfolding materialize
  materialize-registry name now n fs fs' h = ground (arith, h)

  ingest-is_registered :
      (name group : String) (df : Frame V) (now n : ℕ) (stats : S) (fs fs' : FeatureStore fl lib)
      → ingest fl lib group df now fs ≡ ok ((n, stats), fs')
      → is_registered name fs' ≡ is_registered name fs
  ingest-is_registered name group df now n stats fs fs' h =
      let (g, known) = ingest-registered fl lib group df now fs (n, stats) fs' h in
      let (groups, features) = ingest-SameCatalog fl lib group df now fs n stats fs' g known h in
      ap (λ t. is_some (get name t)) groups

  serve_ingest-is_registered :
      (name group : String) (df : Frame V) (now : ℕ) (fs : FeatureStore fl lib)
      → is_registered name (serve_ingest fl lib q pd group df now fs).1 ≡ is_registered name fs
  unfolding serve_ingest
  serve_ingest-is_registered name group df now fs =
      elim (Outcome-cases (ingest fl lib group df now fs)) [
        | inl (e, refused) ↦ ground (arith, refused)
        | inr (((n, stats), fs'), taken) ↦
            let same : (serve_ingest fl lib q pd group df now fs).1 ≡ fs' = ground (arith, taken) in
            rw same (ingest-is_registered name group df now n stats fs fs' taken)
      ]

  serve_materialize-is_registered :
      (name group : String) (now : ℕ) (fs : FeatureStore fl lib)
      → is_registered name (serve_materialize fl lib q pd group now fs).1 ≡ is_registered name fs
  unfolding serve_materialize
  serve_materialize-is_registered name group now fs =
      elim (Outcome-cases (materialize fl lib group 500 (q.batch_time now) fs)) [
        | inl (e, refused) ↦ ground (arith, refused)
        | inr ((n, fs'), taken) ↦
            let same : (serve_materialize fl lib q pd group now fs).1 ≡ fs' =
              ground (arith, taken) in
            rw same (
              ap (λ (r : FeatureRegistry S). is_some (get name r.feature_groups))
                (materialize-registry group now n fs fs' taken))
      ]

  handle-is_registered :
      (name : String) (request : Request S V) (now : ℕ) (fs : FeatureStore fl lib)
      → is_registered name fs ≡ true
      → is_registered name (handle fl lib q pd request now fs).1 ≡ true
  unfolding handle
  handle-is_registered name health now fs h = h
  handle-is_registered name list_groups now fs h = h
  handle-is_registered name (get_group group) now fs h = ground arith
  handle-is_registered name (create_group body) now fs h =
      ground (arith, h, register-is_registered name body now fs)
  handle-is_registered name (post_ingest group file rows) now fs h =
      elim (Option-cases (frame_of fl lib q pd file rows)) [
        | inl nothing ↦ ground (arith, nothing, h)
        | inr (df, given) ↦
            ground (arith, given, h, serve_ingest-is_registered name group df now fs)
      ]
  handle-is_registered name (online_features group ids) now fs h = ground arith
  handle-is_registered name (historical_features columns rows groups fill) now fs h = ground arith
  handle-is_registered name (post_materialize group) now fs h =
      serve_materialize-is_registered name group now fs ∙ h

  handle_all-is_registered :
      (name : String) (requests : List (ℕ × Request S V)) (fs : FeatureStore fl lib)
      → is_registered name fs ≡ true
      → is_registered name (handle_all fl lib q pd requests fs) ≡ true
  unfolding handle_all
  handle_all-is_registered name [] fs h = h
  handle_all-is_registered name ((now, request) ∷ requests) fs h =
      handle_all-is_registered name requests (handle fl lib q pd request now fs).1
        (handle-is_registered name request now fs h)

  create_group-is_registered :
      (body : FeatureGroup) (now : ℕ) (fs : FeatureStore fl lib)
      → is_registered body.name (handle fl lib q pd (create_group body) now fs).1 ≡ true
  unfolding handle
  create_group-is_registered body now fs =
      ground (arith, register-is_registered body.name body now fs, eq_iff body.name body.name)

  get_group_lem :
      (name : String) (now : ℕ) (fs : FeatureStore fl lib) (g : Group)
      → group_of fl lib name fs ≡ some g
      → (handle fl lib q pd (get_group name) now fs).0 ≡ group_found g
  unfolding handle
  get_group_lem name now fs g known = ground (arith, known)

  -- A name that POST /feature-groups was once called with is never lost: whatever requests come after
  -- it, among them registrations, ingests and materializations that fail, GET /feature-groups/{name}
  -- answers with a group of that name. The POST itself may have been a 500.
  pub get_group-handle_all :
      (body : FeatureGroup) (now later : ℕ) (requests : List (ℕ × Request S V))
      (fs : FeatureStore fl lib)
      → (g : Group) × ((handle fl lib q pd
            (get_group body.name)
            later
            (handle_all fl lib q pd requests (handle fl lib q pd (create_group body) now fs).1)).0
          ≡ group_found g)
        × (g.name ≡ body.name)
  unfolding get_feature_group
  get_group-handle_all body now later requests fs =
      let end = handle_all fl lib q pd requests (handle fl lib q pd (create_group body) now fs).1 in
      let here =
        handle_all-is_registered body.name requests
          (handle fl lib q pd (create_group body) now fs).1
          (create_group-is_registered body now fs) in
      elim (Option-cases (group_of fl lib body.name end)) [
        | inl unknown ↦ absurd (ground (arith, unknown, here))
        | inr (g, known) ↦ (g, get_group_lem body.name later end g known, ground (arith, known))
      ]

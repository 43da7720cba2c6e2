-- ===== src/Features/Api/Tests.antt =====
-- The theorem on the REST API of the feature store, applied to concrete values.
use ml_monitor.Prelude.{ℕ, ◌≡◌, true, false, none, some, List, [], ◌∷◌}
use ml_monitor.Samples.Fixed.{fixed}
use ml_monitor.Samples.Users.{library, queries, pandas, frame, store, age}
use ml_monitor.Features.Registry.{Group}
use ml_monitor.Features.Store.{FeatureGroup}
use ml_monitor.Features.Api.{
  Request, get_group, create_group, post_ingest, post_materialize, group_found, handle, handle_all,
}
use ml_monitor.Features.Api.Laws.{get_group-handle_all}

abbrev payments : FeatureGroup
payments = record {
  name = "payments";
  entity_name = "user";
  entity_dtype = "object";
  entity_description = "";
  features = age ∷ [];
  ttl_hours = some 1;
  online = true;
  offline = true;
  tags = [];
}

abbrev requests : List (ℕ × Request ℕ ℕ)
requests =
    (2, post_ingest "users" (some frame) none)
    ∷ (3, post_materialize "nothing")
    ∷ (4, create_group (record payments { online = false }))
    ∷ []

get_group-handle_all_example :
    (g : Group) × ((handle fixed library queries pandas (get_group "payments") 5 (
        handle_all fixed library queries pandas requests
          (handle fixed library queries pandas (create_group payments) 1 store).1)).0
      ≡ group_found g)
    × (g.name ≡ "payments")
get_group-handle_all_example =
    get_group-handle_all fixed library queries pandas payments 1 5 requests store

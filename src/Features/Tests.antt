-- ===== src/Features/Tests.antt =====
-- The theorems on the feature store, each applied to concrete values.
use mathlib.Core.List.{Memᴰ}
use ml_monitor.Prelude.{
  ℕ, ◌≡◌, ◌≤◌, ◌+◌, refl, true, false, some, String, List, [], ◌∷◌, All, arith, length, string_eq,
  eq_iff,
}
use ml_monitor.Prelude.Dict.{get}
use ml_monitor.Samples.Fixed.{fixed}
use ml_monitor.Features.Frame.{Row}
use ml_monitor.Features.Registry.{
  register_feature_group, get_feature_group, get_features, insert_features,
}
use ml_monitor.Features.Registry.Laws.{get_feature_group-register_feature_group}
use ml_monitor.Features.Online.{OnlineRow, OnlineStore, ttl_or, write_batch}
use ml_monitor.Features.Online.{read_batch}
use ml_monitor.Features.Online.Laws.{read_batch-write_batch}
use ml_monitor.Features.Online.Read.{cell}
use ml_monitor.Features.Store.{ok, FeatureStore, latest_per_entity, online_rows}
use ml_monitor.Features.Materialize.{materialize}
use ml_monitor.Features.Materialize.Laws.{IsWritten, IsDated, materialize-write_batch}
use ml_monitor.Features.PitJoin.{TrainingRow, GroupFrame, point_in_time_join, join_groups}
use ml_monitor.Features.PitJoin.Columns.{HasColumns, columns_of}
use ml_monitor.Features.PitJoin.Laws.{IsHonest, point_in_time_join-IsHonest}
use ml_monitor.Samples.Users.{
  tag_text, age, registry, columns, library, row, group, store, match, pandas,
}

get_feature_group-register_feature_group_example :
    get_feature_group tag_text
      (λ fs. fs)
      "users"
      (register_feature_group tag_text "users" "user"
        (age ∷ [])
        (some 24)
        true
        true
        []
        7
        registry).1
    ≡ some (record {
      name = "users";
      entity_name = "user";
      ttl_hours = some 24;
      online = true;
      offline = true;
      tags = [];
      created_at = 7;
      features = age ∷ [];
    })
unfolding register_feature_group insert_features
get_feature_group-register_feature_group_example =
    get_feature_group-register_feature_group tag_text (λ fs. fs) "users" "users" "user" (age ∷ [])
      (some 24) true true [] 7 registry refl refl refl

abbrev ingested : FeatureStore fixed library
ingested = record store {
  registry = record (store.registry) {
    ingestion_log =
        record { id = 1; feature_group = "users"; row_count = 1; ingested_at = 9; stats = 1 } ∷ [];
    next_ingestion = 2;
  };
  offline = ("users", row "u1" 1 ∷ row "u1" 3 ∷ row "u2" 5 ∷ []) ∷ [];
}

abbrev latest : List (OnlineRow ℕ)
latest = ("u1", ("age", 3) ∷ []) ∷ []

materialize-write_batch_example :
    (online : OnlineStore ℕ) × (materialize fixed library "users" 1 (λ i. 9 + i) store
      ≡ ok (0 + 1, record store { online = online }))
    × IsWritten fixed library group (λ i. 9 + i) latest store.online online
    × All
        (IsDated
          (λ i. 9 + i)
          (ttl_or group.ttl_hours store.online.default_ttl_hours)
          store.online.table)
        online.table
unfolding get_feature_group get_features get latest_per_entity online_rows
materialize-write_batch_example =
    materialize-write_batch fixed library "users" 1 (λ i. 9 + i) store group (row "u1" 1)
      (row "u1" 3 ∷ []) latest (omega arith) refl refl refl refl

match-IsBackward :
    (rows : List (Row ℕ)) (e : String) (t : ℕ) (r : Row ℕ)
    → match rows e t ≡ some r
    → Memᴰ r rows × (r.entity_id ≡ e) × (r.event_timestamp ≤ t)
match-IsBackward [] e t r h = absurd (ground (arith, h))
match-IsBackward (x ∷ rows) e t r h =
    let same : r ≡ x = ground (arith, h) in
    (
      Memᴰ.head same,
      rw same (ground (arith, h, eq_iff x.entity_id e)),
      rw same (ground (arith, h, eq_iff x.entity_id e)),
    )

abbrev labels : List (TrainingRow ℕ)
labels = record { entity_id = "u1"; event_timestamp = 2; cells = [] } ∷ []

abbrev frames : List (String × GroupFrame ℕ)
frames = ("users", record { feature_cols = "age" ∷ []; rows = row "u1" 1 ∷ [] }) ∷ []

point_in_time_join-IsHonest_example :
    All (IsHonest pandas frames false) (join_groups pandas false frames labels).training_df
    × (length (join_groups pandas false frames labels).training_df ≡ length labels)
    × All
        (HasColumns pandas (columns_of pandas frames))
        (join_groups pandas false frames labels).training_df
unfolding point_in_time_join
point_in_time_join-IsHonest_example =
    point_in_time_join-IsHonest pandas match-IsBackward columns labels frames "none"
      (join_groups pandas false frames labels) refl (refl, tt) refl

read_batch-write_batch_example :
    cell {V = ℕ} "u1" "age" (
      read_batch
        (λ rows. rows)
        "users"
        ("u1" ∷ [])
        3_000
        (write_batch "users"
          (("u1", ("age", 3) ∷ []) ∷ ("u1", ("age", 4) ∷ []) ∷ [])
          (some 1)
          100
          (record { default_ttl_hours = 24; table = [] })).1)
    ≡ some 4
unfolding get
read_batch-write_batch_example =
    read_batch-write_batch (λ rows. rows) (λ rows g unique same. (unique, same, λ k. refl)) "users"
      "u1" "age" ("u1" ∷ []) (("u1", ("age", 3) ∷ []) ∷ ("u1", ("age", 4) ∷ []) ∷ []) (some 1) 100
      3_000 (record { default_ttl_hours = 24; table = [] }) tt

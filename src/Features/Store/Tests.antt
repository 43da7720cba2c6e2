-- ===== src/Features/Store/Tests.antt =====
-- The theorem on what is served after an ingest, applied to concrete values.
use ml_monitor.Prelude.{ℕ, ◌≡◌, true, refl, some, String, [], ◌∷◌}
use ml_monitor.Prelude.Dict.{Dict, get}
use ml_monitor.Samples.Fixed.{fixed}
use ml_monitor.Samples.Users.{library, frame, online_store, row, group}
use ml_monitor.Features.Registry.{get_feature_group, get_features, log_ingestion}
use ml_monitor.Features.Schema.{validate_schema, check_quality}
use ml_monitor.Features.Online.Read.{cell}
use ml_monitor.Features.Store.{FeatureStore, Outcome, ok, raise, ingest, get_online_features}
use ml_monitor.Features.Store.Fresh.{get_online_features-ingest}

abbrev IsOk : {A : Type 0} → Outcome A → Type 0
IsOk (ok a) = Unit
IsOk (raise e) = ⊥

abbrev value_of : {A : Type 0} (x : Outcome A) → IsOk x → A
value_of (ok a) h = a
value_of (raise e) h = absurd h

value_of_lem : {A : Type 0} (x : Outcome A) (h : IsOk x) → x ≡ ok (value_of x h)
value_of_lem (ok a) h = refl
value_of_lem (raise e) h = absurd h

abbrev run : Outcome ((ℕ × ℕ) × FeatureStore fixed library)
run = ingest fixed library "users" frame 9 online_store

run-IsOk : IsOk run
unfolding ingest get_feature_group get_features get validate_schema check_quality log_ingestion
run-IsOk = tt

ingested : (ℕ × ℕ) × FeatureStore fixed library
ingested = value_of run run-IsOk

run-ingested : run ≡ ok ((ingested.0.0, ingested.0.1), ingested.1)
unfolding ingested
run-ingested = value_of_lem run run-IsOk

get_online_features-ingest_example :
    (out : Dict String (Dict String ℕ)) × (get_online_features fixed library "users"
        ("u2" ∷ [])
        100
        ingested.1
      ≡ ok out)
    × (cell "u2" "age" out ≡ some 5)
unfolding get_feature_group get_features get
get_online_features-ingest_example =
    get_online_features-ingest fixed library (λ rows g unique same. (unique, same, λ k. refl))
      "users" "u2" "age" ("u2" ∷ []) frame 9 100 ingested.0.0 ingested.0.1 online_store ingested.1
      (record group { online = true }) (row "u2" 5) refl refl tt run-ingested refl refl refl refl

-- ===== src/Features/GroupDrift/Tests.antt =====
-- The theorem on the drift of a feature group, applied to concrete values.
use ml_monitor.Prelude.{◌≡◌, refl, none, some, String, List, [], ◌∷◌}
use ml_monitor.Prelude.Dict.{Dict, get}
use ml_monitor.Prelude.Sorting.{sort_by}
use ml_monitor.Samples.Fixed.{Fixed, fixed, fixed_ratio}
use ml_monitor.Samples.Numbers.{numerics}
use ml_monitor.Samples.Platform.{column_of_cells}
use ml_monitor.Samples.Users.{registry, group_row, age, row}
use ml_monitor.Samples.TimeSort.{library, by_time-Ordered, count-by_time}
use ml_monitor.Features.Store.{FeatureStore, offline_read}
use ml_monitor.Monitoring.DataDrift.{
  FeatureDrift, detect_data_drift, detect_feature_drift, run_test, is_categorical,
}
use ml_monitor.Features.Registry.{get_feature_group}
use ml_monitor.Pipeline.Reference.{feature_columns}
use ml_monitor.Features.GroupDrift.{
  Check, checked, not_registered, key_error, drift_failed, slice_columns, check_drift,
}
use ml_monitor.Features.GroupDrift.Laws.{IsCompared, check_drift-IsCompared}

abbrev store : FeatureStore fixed library
store = record {
  registry = record registry {
    feature_groups = ("users", group_row) ∷ [];
    features = ("users", age) ∷ [];
  };
  offline = ("users", row "u1" 7 ∷ row "u2" 3 ∷ row "u1" 5 ∷ []) ∷ [];
  online = record { default_ttl_hours = 24; table = [] };
}

abbrev IsChecked : {A : Type 0} → Check A → Type 0
IsChecked (checked a) = Unit
IsChecked not_registered = ⊥
IsChecked key_error = ⊥
IsChecked (drift_failed e) = ⊥

abbrev value_of : {A : Type 0} (x : Check A) → IsChecked x → A
value_of (checked a) h = a
value_of not_registered h = absurd h
value_of key_error h = absurd h
value_of (drift_failed e) h = absurd h

value_of_lem : {A : Type 0} (x : Check A) (h : IsChecked x) → x ≡ checked (value_of x h)
value_of_lem (checked a) h = refl
value_of_lem not_registered h = absurd h
value_of_lem key_error h = absurd h
value_of_lem (drift_failed e) h = absurd h

abbrev run : Check (Dict String (FeatureDrift Fixed))
run =
    check_drift fixed library column_of_cells numerics "users" none "ks" "chi2" (fixed_ratio 1 20)
      store

run-IsChecked : IsChecked run
unfolding check_drift get_feature_group get sort_by detect_data_drift slice_columns
    detect_feature_drift run_test is_categorical
run-IsChecked = tt

results : Dict String (FeatureDrift Fixed)
results = value_of run run-IsChecked

run-results : run ≡ checked results
unfolding results
run-results = value_of_lem run run-IsChecked

check_drift-IsCompared_example :
    (cols : List String) × (feature_columns fixed library column_of_cells "users" store ≡ some cols)
    × IsCompared fixed library column_of_cells numerics cols none
        (offline_read fixed library "users" store)
        "ks"
        "chi2"
        (fixed_ratio 1 20)
        results
check_drift-IsCompared_example =
    check_drift-IsCompared fixed library column_of_cells numerics
      (λ rows. (by_time-Ordered rows, count-by_time rows)) "users" none "ks" "chi2"
      (fixed_ratio 1 20) store results run-results

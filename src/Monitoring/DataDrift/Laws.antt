-- ===== src/Monitoring/DataDrift/Laws.antt =====
-- The drift report over all features of data_drift.py: which features it covers, and how the verdict
-- and the severity of one feature agree.
use ml_monitor.Prelude.{
  ◌≡◌, refl, sym, ap, ◌∙◌, String, Bool, true, false, not, Option, none, some, List, [], ◌∷◌, arith,
  map, length, leb, select, string_eq, if◌then◌else◌, Floats,
}
use ml_monitor.Prelude.Dict.{Dict}
use ml_monitor.Monitoring.DataDrift.{
  Column, TestResult, FeatureDrift, Numerics, Checked, ok, raise, Frame, column, run_test,
  is_categorical, detect_feature_drift, detect_data_drift, verdict,
}

abbrev result_or : {A : Type 0} → A → Checked A → A
result_or a (ok b) = b
result_or a (raise e) = a

ok_injective : {A : Type 0} {a b : A} → ok a ≡ ok b → a ≡ b
ok_injective {a = a} e = ap (result_or a) e

abbrev pub is_some {ℓ} : {A : Type ℓ} → Option A → Bool
is_some none = false
is_some (some a) = true

module _ (fl : Floats) {V : Type 0} (np : Numerics fl.Float V) where
  open fl use {Float, le, ratio}

  -- `<=` puts the cutoffs of SEVERITY_BANDS in their order.
  abbrev pub HasBands : Type 0
  HasBands =
      ((s : Float) → le (ratio 3 10) s ≡ true → le (ratio 1 10) s ≡ true)
      × ((s : Float) → le (ratio 2 10) s ≡ true → le (ratio 1 10) s ≡ true)

  verdict-severity :
      HasBands
      → (method : String) (threshold : Float) (r : TestResult Float)
      → (verdict fl np method threshold r).p_value ≡ none
      → (verdict fl np method threshold r).is_drifted
        ≡ is_some (verdict fl np method threshold r).severity
  unfolding verdict
  verdict-severity h method threshold r none_p =
      rw none_p (ground (arith, h.0 r.drift_score, h.1 r.drift_score))

  -- If `<=` orders the cutoffs of the severity bands, then a feature that is tested without a
  -- p-value (PSI or Wasserstein) is reported as drifted exactly when its score has a severity.
  detect_feature_drift-severity :
      HasBands
      → (reference current : Column V) (num cat : String) (threshold : Float)
      → (drift : FeatureDrift Float)
      → detect_feature_drift fl np reference current num cat threshold ≡ ok drift
      → drift.p_value ≡ none
      → drift.is_drifted ≡ is_some drift.severity
  unfolding detect_feature_drift
  detect_feature_drift-severity h reference current num cat threshold drift e none_p =
      elim (run_test fl np (if is_categorical fl np reference then cat else num) reference current)
          as (λ t.
            (elim t as (λ _. Checked (FeatureDrift Float)) [
              | raise e ↦ raise e
              | ok r ↦
                  ok (
                    verdict fl np (if is_categorical fl np reference then cat else num) threshold r)
            ])
              ≡ ok drift
            → drift.is_drifted ≡ is_some drift.severity) [
              | raise x ↦ λ q. absurd (cc q)
              | ok r ↦ λ q.
                  (let same : verdict fl np (if is_categorical fl np reference then cat else num)
                          threshold r
                        ≡ drift =
                      ok_injective q in
                    let agree : (verdict fl np (if is_categorical fl np reference then cat else num)
                          threshold r).is_drifted
                        ≡ is_some
                            (verdict fl np (if is_categorical fl np reference then cat else num)
                              threshold r).severity =
                      verdict-severity h (if is_categorical fl np reference then cat else num)
                        threshold r (ap (λ d. d.p_value) same ∙ none_p) in
                    sym (ap (λ d. d.is_drifted) same) ∙ agree ∙ ap (λ d. is_some d.severity) same)
            ]
        e

  -- The features that both frames have, with at least one current value.
  abbrev pub is_covered : Frame V → String × Column V → Bool
  is_covered current_df (name, c) = elim (column name current_df) [
    | none ↦ false
    | some current ↦ not (leb (length current.values) 0)
  ]

  abbrev pub names : {A : Type 0} → List (String × A) → List String
  names xs = map (λ x. x.0) xs

  abbrev on_names : List String → Checked (Dict String (FeatureDrift Float)) → Checked (List String)
  on_names ns (raise e) = raise e
  on_names ns (ok results) = ok ns

  abbrev names_of : Checked (Dict String (FeatureDrift Float)) → Checked (List String)
  names_of (raise e) = raise e
  names_of (ok results) = ok (names results)

  names_of-detect_data_drift :
      (reference_df current_df : Frame V) (num cat : String) (threshold : Float)
      → names_of (detect_data_drift fl np reference_df current_df num cat threshold)
        ≡ on_names
            (names (select (is_covered current_df) reference_df))
            (detect_data_drift fl np reference_df current_df num cat threshold)
  unfolding detect_data_drift
  names_of-detect_data_drift [] current_df num cat threshold = refl
  names_of-detect_data_drift ((name, c) ∷ reference_df) current_df num cat threshold =
      ground (arith, names_of-detect_data_drift reference_df current_df num cat threshold)

  -- A report that is returned covers exactly the reference's features that the current frame has
  -- with at least one value, in the order of the reference's columns.
  pub names-detect_data_drift :
      (reference_df current_df : Frame V) (num cat : String) (threshold : Float)
      → (results : Dict String (FeatureDrift Float))
      → detect_data_drift fl np reference_df current_df num cat threshold ≡ ok results
      → names results ≡ names (select (is_covered current_df) reference_df)
  names-detect_data_drift reference_df current_df num cat threshold results e =
      ground (arith, names_of-detect_data_drift reference_df current_df num cat threshold)

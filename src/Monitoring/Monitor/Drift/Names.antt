-- ===== src/Monitoring/Monitor/Drift/Names.antt =====
-- `drift_report` of the class Monitor: the features that a report names are columns of the reference.
use ml_monitor.Prelude.{
  ℕ, ◌≡◌, String, Bool, Option, some, List, [], ◌∷◌, map, select, leb, arith, All, length, ◌⊎◌,
  Option-cases, Bool-cases, inl, inr, Floats,
}
use ml_monitor.Prelude.Dict.{Dict}
use ml_monitor.Monitoring.Window as Window
use ml_monitor.Monitoring.Store.{Json}
use ml_monitor.Monitoring.DataDrift.{Numerics, Frame, FeatureDrift, ok, column, detect_data_drift}
use ml_monitor.Monitoring.DataDrift.Laws.{is_covered, names-detect_data_drift}
use ml_monitor.Monitoring.Correlation.{CorrelationDrift, is_in}
use ml_monitor.Monitoring.Report.{DriftReport, drifted, drifted_features}
use ml_monitor.Monitoring.Monitor.{Message, Effect}
use ml_monitor.Monitoring.Monitor.Drift.{Pandas, Monitor, project, data_part, drift_report}
use ml_monitor.Monitoring.Monitor.Drift.Report.{Checked-cases}

All-select :
    {A : Type 0} (P : A → Type 0) (p : A → Bool) (xs : List A) → All P xs → All P (select p xs)
All-select P p [] h = tt
All-select P p (x ∷ xs) h = elim (Bool-cases (p x)) [
  | inl kept ↦ rw kept (h.0, All-select P p xs h.1)
  | inr gone ↦ rw gone (All-select P p xs h.1)
]

All-names-select :
    {A : Type 0} (P : String → Type 0) (p : String × A → Bool) (xs : List (String × A))
    → All P (map (λ x. x.0) xs)
    → All P (map (λ x. x.0) (select p xs))
All-names-select P p [] h = tt
All-names-select P p (x ∷ xs) h = elim (Bool-cases (p x)) [
  | inl kept ↦ rw kept (h.0, All-names-select P p xs h.1)
  | inr gone ↦ rw gone (All-names-select P p xs h.1)
]

module _ (fl : Floats) {V : Type 0} (np : Numerics fl.Float V) (pd : Pandas fl.Float V)
    (json : Json V) (render : Message fl.Float → String) (P : String → Type 0) where
  open fl use {Float}

  All-names-project :
      (cs : List String) (df : Frame V)
      → All P cs
      → All P (map (λ x. x.0) (project fl np pd json render cs df))
  unfolding project
  All-names-project [] df h = tt
  All-names-project (c ∷ cs) df h = elim (Option-cases (column c df)) [
    | inl absent ↦ ground (arith, absent, All-names-project cs df h.1)
    | inr (v, here) ↦ ground (arith, here, All-names-project cs df h.1)
  ]

  -- The names of the features that a report covers.
  abbrev pub covered : DriftReport fl np → List String
  covered report = map (λ x. x.0) report.data_drift

  data_part_cases :
      (m : Monitor fl np pd json render) (reference current : Frame V)
      (drift : Dict String (FeatureDrift Float)) (correlation : Option (CorrelationDrift Float))
      → m.reference_data ≡ some reference
      → data_part fl np pd json render m current ≡ ok (drift, correlation)
      → let common = select (is_in (map (λ x. x.0) current)) (map (λ x. x.0) reference) in
        (drift ≡ [])
        ⊎ (detect_data_drift fl np
              (project fl np pd json render common reference)
              (project fl np pd json render common current)
              m.config.numerical_method
              m.config.categorical_method
              m.config.drift_threshold
            ≡ ok drift)
  unfolding data_part
  data_part_cases m reference current drift correlation given h =
      let common = select (is_in (map (λ x. x.0) current)) (map (λ x. x.0) reference) in
      let ref_df = project fl np pd json render common reference in
      let cur_df = project fl np pd json render common current in
      elim (Bool-cases (leb (length current) 0)) [
        | inl empty ↦ inl (ground (arith, given, empty, h))
        | inr columns ↦ elim (Bool-cases (leb (length common) 0)) [
          | inl nothing ↦ inl (ground (arith, given, columns, nothing, h))
          | inr shared ↦
              elim (Checked-cases (
                detect_data_drift fl np ref_df cur_df m.config.numerical_method
                  m.config.categorical_method m.config.drift_threshold)) [
                    | inl (e, failed) ↦ absurd (ground (arith, given, columns, shared, failed, h))
                    | inr (results, made) ↦ inr (ground (arith, given, columns, shared, made, h))
                  ]
        ]
      ]

  All-data_part :
      (m : Monitor fl np pd json render) (reference current : Frame V)
      (drift : Dict String (FeatureDrift Float)) (correlation : Option (CorrelationDrift Float))
      → m.reference_data ≡ some reference
      → All P (map (λ x. x.0) reference)
      → data_part fl np pd json render m current ≡ ok (drift, correlation)
      → All P (map (λ x. x.0) drift)
  All-data_part m reference current drift correlation given all h =
      let common = select (is_in (map (λ x. x.0) current)) (map (λ x. x.0) reference) in
      let ref_df = project fl np pd json render common reference in
      let cur_df = project fl np pd json render common current in
      let kept : All P (map (λ x. x.0) ref_df) =
        All-names-project common reference (All-select P _ (map (λ x. x.0) reference) all) in
      elim (data_part_cases m reference current drift correlation given h) [
        | inl none_tested ↦ rw none_tested tt
        | inr tested ↦
            rw
              (names-detect_data_drift fl np ref_df cur_df m.config.numerical_method
                m.config.categorical_method m.config.drift_threshold drift tested)
              (All-names-select P (is_covered fl np cur_df) ref_df kept)
      ]

  -- A property of all columns of the reference is one of all features that a report covers.
  pub All-covered :
      (m m' : Monitor fl np pd json render) (reference : Frame V) (now : ℕ)
      (report : DriftReport fl np) (effects : List (Effect Float))
      → m.reference_data ≡ some reference
      → All P (map (λ x. x.0) reference)
      → drift_report fl np pd json render m now ≡ ok (report, effects, m')
      → All P (covered report)
  unfolding drift_report
  All-covered m m' reference now report effects given all h =
      let current = pd.frame (Window.feature_rows m.window) in
      elim (Bool-cases (leb (Window.size m.window) 0)) [
        | inl empty ↦
            let nothing : report.data_drift ≡ [] = ground (arith, empty, h) in rw nothing tt
        | inr rows ↦ elim (Checked-cases (data_part fl np pd json render m current)) [
          | inl (e, failed) ↦ absurd (ground (arith, rows, failed, h))
          | inr ((drift, correlation), made) ↦
              let same : report.data_drift ≡ drift = ground (arith, rows, made, h) in
              rw same (All-data_part m reference current drift correlation given all made)
        ]
      ]

  pub All-drifted_features :
      (report : DriftReport fl np) → All P (covered report) → All P (drifted_features fl np report)
  unfolding drifted_features
  All-drifted_features report h = All-names-select P (drifted fl np) report.data_drift h

-- ===== src/Pipeline/Live.antt =====
-- The live rows of a run of the pipeline: each becomes one call of `log`, and one sample of the report.
use ml_monitor.Prelude.{
  ℕ, ◌+◌, ◌≤◌, ◌≡◌, refl, ap, ◌∙◌, String, Option, some, List, [], ◌∷◌, map, length, All, arith,
  string_eq, Option-cases, ◌⊎◌, inl, inr, Floats,
}
use ml_monitor.Prelude.Dict.{Dict}
use ml_monitor.Features.Store.{Libraries}
use ml_monitor.Fraud.Features as Fraud
use ml_monitor.Monitoring.DataDrift as DataDrift
use ml_monitor.Monitoring.DataDrift.{Column, Numerics, ok}
use ml_monitor.Monitoring.Window as Window
use ml_monitor.Monitoring.Window.{WindowManager}
use ml_monitor.Monitoring.Report.{DriftReport, drifted_features}
use ml_monitor.Monitoring.Store.{Json}
use ml_monitor.Monitoring.Monitor.{Message, Effect}
use ml_monitor.Monitoring.Monitor.Drift.{Pandas, Monitor, drift_report}
use ml_monitor.Monitoring.Monitor.Drift.Laws.{Call, log_all, log_all_lem}
use ml_monitor.Monitoring.Monitor.Drift.Report.{Checked-cases}
use ml_monitor.Monitoring.Monitor.Drift.Names.{All-covered, All-drifted_features}
use ml_monitor.Monitoring.Monitor.Drift.Wide.{drift_report-wide}
use ml_monitor.Pipeline.{
  Casts, Run, returned, failed, live_calls, floats_of, prediction_of, score_live,
}

pub Run-cases : {A : Type 0} (r : Run A) → ((e : _) × (r ≡ failed e)) ⊎ ((a : A) × (r ≡ returned a))
Run-cases (failed e) = inl (e, refl)
Run-cases (returned a) = inr (a, refl)

module _ {V : Type 0} (casts : Casts V) where
  length-live_calls :
      (live : List (ℕ × Dict String V)) (calls : List (Call V))
      → live_calls casts live ≡ returned calls
      → length calls ≡ length live
  unfolding live_calls
  length-live_calls [] calls h = ground (arith, h)
  length-live_calls ((now, row) ∷ live) calls h =
      elim (Run-cases (floats_of casts Fraud.feature_names row)) [
        | inl (e, broken) ↦ absurd (ground (arith, broken, h))
        | inr (features, made) ↦ elim (Option-cases (prediction_of casts row)) [
          | inl bad ↦ absurd (ground (arith, made, bad, h))
          | inr (p, good) ↦ elim (Run-cases (live_calls casts live)) [
            | inl (e, later) ↦ absurd (ground (arith, made, good, later, h))
            | inr (rest, more) ↦
                ground (arith, made, good, more, h, length-live_calls live rest more)
          ]
        ]
      ]

module _ (fl : Floats) {S V : Type 0} (lib : Libraries S V) (column_of : List (Option V) → Column V)
    (np : Numerics fl.Float V) (pd : Pandas fl.Float V) (json : Json V)
    (render : Message fl.Float → String) (casts : Casts V) where
  pub score_live_lem :
      (live : List (ℕ × Dict String V)) (now n : ℕ) (m m' : Monitor fl np pd json render)
      (report : DriftReport fl np) (effects : List (Effect fl.Float))
      → m.window ≡ Window.init n
      → length live ≤ n
      → score_live fl lib column_of np pd json render casts live now m
        ≡ returned (report, effects, m')
      → (report.n_samples ≡ length live)
        × (m'.last_report ≡ some report)
        × (length m'.store.predictions ≡ length m.store.predictions + length live)
        × ((P : String → Type 0) (reference : DataDrift.Frame V)
            → m.reference_data ≡ some reference
            → All P (map (λ x. x.0) reference)
            → All P (drifted_features fl np report))
  unfolding score_live
  score_live_lem live now n m m' report effects fresh wide h =
      elim (Run-cases (live_calls casts live)) [
        | inl (e, broken) ↦ absurd (ground (arith, broken, h))
        | inr (calls, made) ↦
            let end = log_all fl np pd json render calls m in
            elim (Checked-cases (drift_report fl np pd json render end now)) [
              | inl (e, broken) ↦ absurd (ground (arith, made, broken, h))
              | inr (r, drift) ↦
                  let same : r ≡ (report, effects, m') = ground (arith, made, drift, h) in
                  let drift' : drift_report fl np pd json render end now
                      ≡ DataDrift.ok (report, effects, m') =
                    drift ∙ ap DataDrift.ok same in
                  let count = length-live_calls casts live calls made in
                  let (samples, last, stored) =
                    drift_report-wide fl np pd json render m m' calls now n report effects fresh
                      (omega (arith, count)) drift' in
                  let (window, log', no_alerts, dedup, no_report, same_ref) =
                    log_all_lem fl np pd json render calls m in
                  (
                    samples ∙ count,
                    last,
                    omega (arith, stored, count),
                    λ P reference given all. All-drifted_features fl np pd json render P report (
                        All-covered fl np pd json render P end m' reference now report effects
                          (same_ref ∙ given) all drift'),
                  )
            ]
      ]

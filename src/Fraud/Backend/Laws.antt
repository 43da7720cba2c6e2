-- ===== src/Fraud/Backend/Laws.antt =====
-- What the second backend reports of the current rows.
use ml_monitor.Prelude.{
  ℕ, ◌≡◌, refl, ◌∙◌, String, Bool, true, ◌||◌, some, List, [], ◌∷◌, map, length, length-map, select,
  All, arith, ◌==◌, string_eq, Option-cases, inl, inr, Floats,
}
use ml_monitor.Monitoring.DataDrift.{Frame, Numerics, column}
use ml_monitor.Monitoring.Report.{ReportDict, drifted, drifted_features, to_dict}
use ml_monitor.Monitoring.Store.{Json}
use ml_monitor.Monitoring.Window as Window
use ml_monitor.Monitoring.Monitor.{Message, Effect}
use ml_monitor.Monitoring.Monitor.Drift.{Pandas, drift_report, init}
use ml_monitor.Monitoring.Monitor.Drift.Laws.{log_all, log_all_lem}
use ml_monitor.Monitoring.Monitor.Drift.Open.{open_monitor}
use ml_monitor.Monitoring.Monitor.Drift.Report.{Checked-cases}
use ml_monitor.Monitoring.Monitor.Drift.Names.{All-covered}
use ml_monitor.Monitoring.Monitor.Drift.Wide.{drift_report-wide}
use ml_monitor.Fraud.Backend.{
  CurrentRow, written, call_of, reference_columns, build_monitor, window_for, run_once,
}

abbrev pub is_monitored : String → Bool
is_monitored f = f == "amount" || f == "is_fraud"

module _ (fl : Floats) {V : Type 0} (np : Numerics fl.Float V) (pd : Pandas fl.Float V)
    (json : Json V) (render : Message fl.Float → String) where
  reference_columns-names :
      (reference columns : Frame V) (scores : List V)
      → reference_columns reference ≡ some (columns, scores)
      → All (λ f. is_monitored f ≡ true) (map (λ x. x.0) columns)
  unfolding reference_columns
  reference_columns-names reference columns scores h =
      elim (Option-cases (column "amount" reference)) [
        | inl bad ↦ absurd (ground (arith, bad, h))
        | inr (a, amount) ↦ elim (Option-cases (column "is_fraud" reference)) [
          | inl bad ↦ absurd (ground (arith, amount, bad, h))
          | inr (b, fraud) ↦ elim (Option-cases (column "fraud_score" reference)) [
            | inl bad ↦ absurd (ground (arith, amount, fraud, bad, h))
            | inr (c, score) ↦
                let e : ("amount", a) ∷ ("is_fraud", b) ∷ [] ≡ columns =
                  ground (arith, amount, fraud, score, h) in
                rw (← e) (refl, (refl, tt))
          ]
        ]
      ]

  build_monitor-window :
      (columns : Frame V) (scores : List V) (current : List (CurrentRow V))
      → ((build_monitor fl np pd json render columns scores current).window
          ≡ Window.init (window_for fl np pd json render current))
        × ((build_monitor fl np pd json render columns scores current).reference_data
            ≡ some columns)
  unfolding build_monitor open_monitor init
  build_monitor-window columns scores current = (refl, refl)

  -- A report that is returned counts one sample for each current row, however many there are; it names
  -- only the columns amount and is_fraud; and its number of drifted features is that of the
  -- features that it marks as drifted.
  pub run_once-n_samples :
      (reference : Frame V) (current : List (CurrentRow V)) (now : ℕ) (d : ReportDict fl np)
      (effects : List (Effect fl.Float))
      → run_once fl np pd json render reference current now ≡ written (d, effects)
      → (d.n_samples ≡ length current)
        × All (λ f. is_monitored f ≡ true) (map (λ x. x.0) d.data_drift)
        × (d.n_drifted_features ≡ length (select (drifted fl np) d.data_drift))
  unfolding run_once to_dict drifted_features
  run_once-n_samples reference current now d effects h =
      elim (Option-cases (reference_columns reference)) [
        | inl bad ↦ absurd (ground (arith, bad, h))
        | inr ((columns, scores), cut) ↦
            let m = build_monitor fl np pd json render columns scores current in
            let calls = map (call_of now) current in
            let (fresh, given) = build_monitor-window columns scores current in
            let end = log_all fl np pd json render calls m in
            elim (Checked-cases (drift_report fl np pd json render end now)) [
              | inl (e, bad) ↦ absurd (ground (arith, cut, bad, h))
              | inr ((report, sent, m'), made) ↦
                  let (window, log', no_alerts, dedup, no_report, same_ref) =
                    log_all_lem fl np pd json render calls m in
                  let (samples, last, stored) =
                    drift_report-wide fl np pd json render m m' calls now _ report sent fresh
                      (ground (arith, length-map (call_of {V = V} now) current)) made in
                  let e : to_dict fl np report ≡ d = ground (arith, cut, made, h) in
                  rw (← e) (
                    samples ∙ length-map (call_of now) current,
                    All-covered fl np pd json render (λ f. is_monitored f ≡ true) end m' columns now
                        report sent (same_ref ∙ given)
                        (reference_columns-names reference columns scores cut) made,
                    length-map (λ x. x.0) (select (drifted fl np) report.data_drift),
                  )
            ]
      ]

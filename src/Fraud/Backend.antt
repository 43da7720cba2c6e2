-- ===== src/Fraud/Backend.antt =====
-- src/ml_platform/fraud/monitor/ml_monitor_backend.py: the second backend of the fraud monitor, which
-- compares the recent transactions with the training reference by a fresh Monitor in memory. A current
-- row is its amount, its label and its score; `now` is the time of all its calls.
pub mod Laws
mod Tests
use ml_monitor.Prelude.{
  ℕ, String, Option, none, some, List, [], ◌∷◌, map, length, ltb, if◌then◌else◌, Floats,
}
use ml_monitor.Monitoring.DataDrift as DataDrift
use ml_monitor.Monitoring.DataDrift.{Frame, Numerics, DriftError, column}
use ml_monitor.Monitoring.Report.{ReportDict, to_dict}
use ml_monitor.Monitoring.Store as Store
use ml_monitor.Monitoring.Store.{Json}
use ml_monitor.Monitoring.Monitor.{Message, Effect}
use ml_monitor.Monitoring.Monitor.Drift.{Pandas, Monitor, mapping, drift_report}
use ml_monitor.Monitoring.Monitor.Drift.Laws.{Call, log_all}
use ml_monitor.Monitoring.Monitor.Drift.Open.{drift_config, open_monitor}

pub record CurrentRow (V : Type 0) : Type 0 where
  pub amount : V
  pub is_fraud : V
  pub fraud_score : V

-- `key_error` is a column that the reference does not have.
pub data Backend (A : Type 0) : Type 0 where
  written : A → Backend A
  key_error : Backend A
  drift_failed : DriftError → Backend A

-- `reference[["amount", "is_fraud"]]` and `reference["fraud_score"]`
unfoldable pub reference_columns : {V : Type 0} → Frame V → Option (Frame V × List V)
reference_columns reference = elim (column "amount" reference) [
  | none ↦ none
  | some amount ↦ elim (column "is_fraud" reference) [
    | none ↦ none
    | some is_fraud ↦ elim (column "fraud_score" reference) [
      | none ↦ none
      | some score ↦ some (("amount", amount) ∷ ("is_fraud", is_fraud) ∷ [], score.values)
    ]
  ]
]

-- The call of `log` for a row of `current.itertuples()`.
abbrev pub call_of : {V : Type 0} → ℕ → CurrentRow V → Call V
call_of now row = record {
  features = mapping (("amount", row.amount) ∷ ("is_fraud", row.is_fraud) ∷ []);
  prediction = row.fraud_score;
  label = none;
  now = now;
}

module _ (fl : Floats) {V : Type 0} (np : Numerics fl.Float V) (pd : Pandas fl.Float V)
    (json : Json V) (render : Message fl.Float → String) where
  abbrev pub window_for : List (CurrentRow V) → ℕ
  window_for current = if ltb (length current) 1 then 1 else length current

  unfoldable pub build_monitor :
      Frame V → List V → List (CurrentRow V) → Monitor fl np pd json render
  build_monitor columns scores current =
      open_monitor fl np pd json render (some columns) (some scores)
        (some (drift_config fl (window_for current))) none (Store.init 30)

  -- The dict of the report, and the effects of its alerts.
  unfoldable pub run_once :
      Frame V → List (CurrentRow V) → ℕ → Backend (ReportDict fl np × List (Effect fl.Float))
  unfolding reference_columns build_monitor
  run_once reference current now = elim (reference_columns reference) [
    | none ↦ key_error
    | some (columns, scores) ↦
        elim (drift_report fl np pd json render
          (log_all fl np pd json render (map (call_of now) current)
            (build_monitor columns scores current))
          now) [
            | DataDrift.raise e ↦ drift_failed e
            | DataDrift.ok (report, effects, m) ↦ written (to_dict fl np report, effects)
          ]
  ]

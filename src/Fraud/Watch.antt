-- ===== src/Fraud/Watch.antt =====
-- src/ml_platform/fraud/monitor/main.py: `run_once`, one comparison of the recent transactions with
-- the training reference. Evidently, pandas and the second backend are arguments; what the function
-- writes and sends is a list of effects. The file system refuses no write.
pub mod Laws
use ml_monitor.Prelude.{
  ℕ, Bool, true, false, ◌&&◌, ◌||◌, Option, none, some, List, [], ◌∷◌, ◌++◌, if◌then◌else◌, ltb,
  length, Floats,
}
use ml_monitor.Fraud.Trigger.{Trigger, Decision, observe}

abbrev pub min_rows : ℕ
min_rows = 30

abbrev pub recent_limit : ℕ
recent_limit = 5000

pub record Summary (Float : Type 0) : Type 0 where
  pub generated_at : ℕ
  pub rows_compared : ℕ
  pub dataset_drift : Option Bool
  pub drift_share : Option Float
  pub current_fraud_rate : Float
  pub current_avg_score : Float
  pub consecutive_drifted_windows : Option ℕ
  pub retrain_recommended : Option Bool

-- Writes below REPORTS_DIR, and messages to Slack.
pub data Effect (Float Report : Type 0) : Type 0 where
  latest_html : Report → Effect Float Report
  latest_json : Summary Float → Effect Float Report
  ml_monitor_json : Report → Effect Float Report
  slack_alert : Summary Float → Decision → Float → Effect Float Report
  slack_recovery : Summary Float → Effect Float Report

-- What `send_slack` does with a message: nothing, without a webhook; a ValueError of `Request`, for a URL
-- without a scheme; a POST, which ends or whose URLError or OSError is caught; or a POST that ends in
-- another exception.
pub data Slack : Type 0 where
  no_webhook bad_url posted broken : Slack

abbrev pub is_posted : Slack → Bool
is_posted no_webhook = false
is_posted bad_url = false
is_posted posted = true
is_posted broken = true

abbrev pub is_raised : Slack → Bool
is_raised no_webhook = false
is_raised bad_url = true
is_raised posted = false
is_raised broken = true

-- How `run_once` ends: None, an exception, or the summary.
pub data Outcome (Float : Type 0) : Type 0 where
  skipped failed : Outcome Float
  finished : Summary Float → Outcome Float

-- What `run_once` calls of other packages, over rows of type `Row`.
pub record Backends (Float Row Report : Type 0) : Type 0 where
  -- `none` is an exception.
  pub evidently : List Row → Option Report
  pub dataset_drift : Report → Option Bool
  pub drift_share : Report → Option Float
  pub fraud_rate : List Row → Float
  pub avg_score : List Row → Float
  -- `ml_monitor_backend.run_once`; `none` is an exception, which is caught.
  pub ml_monitor : List Row → Option Report
  -- `send_slack`, in a pass at some time
  pub slack : ℕ → Slack

module _ (fl : Floats) {Row Report : Type 0} (b : Backends fl.Float Row Report) where
  open fl use {Float}

  abbrev pub Effects : Type 0
  Effects = List (Effect Float Report)

  -- The `if trigger is not None` block: the new trigger, the summary with the decision, the messages
  -- that are posted, and whether `send_slack` raises.
  unfoldable pub decide_alert :
      Slack
      → Option (Trigger fl)
      → Summary Float
      → Option (Trigger fl) × Summary Float × Effects × Bool
  decide_alert slack none summary = (none, summary, [], false)
  decide_alert slack (some trigger) summary =
      let (trigger', decision) = observe fl trigger summary.drift_share in
      let summary' : Summary Float = record summary {
        consecutive_drifted_windows = some decision.consecutive;
        retrain_recommended = some decision.should_retrain;
      } in
      let message : Effects =
        if decision.should_alert
        then slack_alert summary' decision trigger'.threshold ∷ []
        else if decision.recovered
        then slack_recovery summary' ∷ []
        else [] in
      (
        some trigger',
        summary',
        (if is_posted slack then message else []),
        (decision.should_alert || decision.recovered) && is_raised slack,
      )

  unfoldable pub backend_report : List Row → Effects
  backend_report current = elim (b.ml_monitor current) [
    | none ↦ []
    | some report ↦ ml_monitor_json report ∷ []
  ]

  -- `run_once` over the rows that `fetch_recent` returned, at a time.
  unfoldable pub run_once :
      ℕ → List Row → Option (Trigger fl) → Option (Trigger fl) × Outcome Float × Effects
  unfolding decide_alert backend_report
  run_once now recent trigger =
      if ltb (length recent) min_rows then (trigger, skipped, []) else elim (b.evidently recent) [
        | none ↦ (trigger, failed, [])
        | some report ↦
            let summary : Summary Float = record {
              generated_at = now;
              rows_compared = length recent;
              dataset_drift = b.dataset_drift report;
              drift_share = b.drift_share report;
              current_fraud_rate = b.fraud_rate recent;
              current_avg_score = b.avg_score recent;
              consecutive_drifted_windows = none;
              retrain_recommended = none;
            } in
            let (trigger', summary', messages, raised) =
              decide_alert (b.slack now) trigger summary in
            elim raised [
              | true ↦ (trigger', failed, latest_html report ∷ messages)
              | false ↦ (
                trigger',
                finished summary',
                (latest_html report ∷ messages) ++ latest_json summary' ∷ backend_report recent,
              )
            ]
      ]

-- ===== src/Fraud/Watch/Laws.antt =====
-- What one pass of the drift monitor does to its trigger, and what it sends and writes.
use ml_monitor.Prelude.{
  ℕ, ◌≡◌, Bool, true, false, not, ◌&&◌, ◌||◌, ◌⊎◌, inl, inr, Bool-cases, refl, some, List, arith,
  if◌then◌else◌, length, ltb, select, Floats,
}
use ml_monitor.Fraud.Trigger.{Trigger, observe}
use ml_monitor.Fraud.Watch.{
  Slack, no_webhook, bad_url, posted, broken, is_posted, is_raised, Outcome, skipped, failed,
  finished, Backends, Effect, latest_html, latest_json, slack_alert, slack_recovery, run_once,
}

abbrev pub is_alert : {Float Report : Type 0} → Effect Float Report → Bool
is_alert (slack_alert s d x) = true
is_alert e = false

abbrev pub is_recovery : {Float Report : Type 0} → Effect Float Report → Bool
is_recovery (slack_recovery s) = true
is_recovery e = false

abbrev pub is_latest_json : {Float Report : Type 0} → Effect Float Report → Bool
is_latest_json (latest_json s) = true
is_latest_json e = false

abbrev pub is_latest_html : {Float Report : Type 0} → Effect Float Report → Bool
is_latest_html (latest_html r) = true
is_latest_html e = false

pub Slack-cases : (x : Slack) → (x ≡ no_webhook) ⊎ ((x ≡ bad_url) ⊎ ((x ≡ posted) ⊎ (x ≡ broken)))
Slack-cases no_webhook = inl refl
Slack-cases bad_url = inr (inl refl)
Slack-cases posted = inr (inr (inl refl))
Slack-cases broken = inr (inr (inr refl))

abbrev pub bit : Bool → ℕ
bit true = 1
bit false = 0

module _ (fl : Floats) {Row Report : Type 0} (b : Backends fl.Float Row Report) where
  open fl use {Float}

  abbrev pub is_failed : Outcome Float → Bool
  is_failed skipped = false
  is_failed failed = true
  is_failed (finished s) = false

  -- Each pass of the monitor over a trigger, when Evidently makes its report. With fewer than thirty
  -- rows the trigger stays as it was, nothing is written, nothing is sent and nothing raises. Otherwise
  -- the HTML is written once, and the trigger observes the drift share of the report, once. An alert is
  -- due if its decision says so, and a recovery message if it reports a recovery and no alert is due; one
  -- that is due is posted once if there is a webhook with a scheme, and none is posted otherwise. The
  -- pass raises exactly if a message is due and `send_slack` raises, as it does for a URL without a
  -- scheme, and the summary is written once if it does not raise, and not if it does, whether or not the
  -- second backend fails.
  pub run_once_lem :
      (now : ℕ) (recent : List Row) (trigger : Trigger fl) (report : Report)
      → b.evidently recent ≡ some report
      → let few = ltb (length recent) 30 in
        let (trigger', decision) = observe fl trigger (b.drift_share report) in
        let recovery = not decision.should_alert && decision.recovered in
        let raised = (decision.should_alert || recovery) && is_raised (b.slack now) in
        let (after, outcome, effects) = run_once fl b now recent (some trigger) in
        (after ≡ some (if few then trigger else trigger'))
        × (length (select is_latest_html effects) ≡ bit (not few))
        × (length (select is_alert effects)
            ≡ bit (not few && decision.should_alert && is_posted (b.slack now)))
        × (length (select is_recovery effects)
            ≡ bit (not few && recovery && is_posted (b.slack now)))
        × (is_failed outcome ≡ (not few && raised))
        × (length (select is_latest_json effects) ≡ bit (not few && not raised))
        × ((if few then length effects else 0) ≡ 0)
  unfolding run_once
  run_once_lem now recent trigger report made = elim (Bool-cases (ltb (length recent) 30)) [
    | inl few ↦ ground (arith, few, made)
    | inr full ↦ elim (Slack-cases (b.slack now)) [
      | inl quiet ↦ ground (arith, full, made, quiet)
      | inr (inl bad) ↦ ground (arith, full, made, bad)
      | inr (inr (inl sent)) ↦ ground (arith, full, made, sent)
      | inr (inr (inr lost)) ↦ ground (arith, full, made, lost)
    ]
  ]

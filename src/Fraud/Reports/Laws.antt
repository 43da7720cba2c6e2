-- ===== src/Fraud/Reports/Laws.antt =====
-- What the API serves of the passes of the monitor.
use ml_monitor.Prelude.{
  ℕ, ◌≡◌, refl, Option, none, some, List, [], ◌∷◌, arith, if◌then◌else◌, length, ltb, Floats,
  String, string_eq, Option-cases, Bool-cases, ◌∙◌, inl, inr,
}
use ml_monitor.Fraud.Keys.{granted}
use ml_monitor.Fraud.Trigger.{Trigger}
use ml_monitor.Fraud.Watch.{Backends, Summary, Outcome, skipped, failed, finished, run_once}
use ml_monitor.Fraud.Reports.{
  Reports, no_reports, write_all, Reply, html, json, ml_report, not_found, guarded, monitoring,
  monitoring_ml_monitor, watch,
}

module _ (fl : Floats) {Row Report : Type 0} (b : Backends fl.Float Row Report) where
  open fl use {Float}

  abbrev pub Passes : Type 0
  Passes = List (ℕ × Option (List Row))

  abbrev pub or_old : {A : Type 0} → Option A → Option A → Option A
  or_old none old = old
  or_old (some a) old = some a

  -- The summary that a pass returns, and the report of the second backend if it returns one.
  abbrev pub summary_of : Outcome Float → Option (Summary Float)
  summary_of skipped = none
  summary_of failed = none
  summary_of (finished summary) = some summary

  abbrev pub ml_of : Outcome Float → List Row → Option Report
  ml_of skipped recent = none
  ml_of failed recent = none
  ml_of (finished summary) recent = b.ml_monitor recent

  abbrev pub report_of : List Row → Option Report
  report_of recent = if ltb (length recent) 30 then none else b.evidently recent

  -- The Evidently report of the last pass that had thirty rows and made one.
  abbrev pub last_report : Passes → Option Report
  last_report [] = none
  last_report ((now, none) ∷ passes) = last_report passes
  last_report ((now, some recent) ∷ passes) = or_old (last_report passes) (report_of recent)

  -- The summary that the last pass returned which returned one, and the last report of the second
  -- backend in such a pass; the trigger goes from pass to pass.
  abbrev pub last_summary : Passes → Option (Trigger fl) → Option (Summary Float)
  last_summary [] trigger = none
  last_summary ((now, none) ∷ passes) trigger = last_summary passes trigger
  last_summary ((now, some recent) ∷ passes) trigger =
      let (trigger', outcome, effects) = run_once fl b now recent trigger in
      or_old (last_summary passes trigger') (summary_of outcome)

  abbrev pub last_ml : Passes → Option (Trigger fl) → Option Report
  last_ml [] trigger = none
  last_ml ((now, none) ∷ passes) trigger = last_ml passes trigger
  last_ml ((now, some recent) ∷ passes) trigger =
      let (trigger', outcome, effects) = run_once fl b now recent trigger in
      or_old (last_ml passes trigger') (ml_of outcome recent)

  write_all-run_once :
      (now : ℕ) (recent : List Row) (trigger : Option (Trigger fl)) (r : Reports Float Report)
      → let (trigger', outcome, effects) = run_once fl b now recent trigger in
        let r' = write_all effects r in
        (r'.html_file ≡ or_old (report_of recent) r.html_file)
        × (r'.json_file ≡ or_old (summary_of outcome) r.json_file)
        × (r'.ml_monitor_file ≡ or_old (ml_of outcome recent) r.ml_monitor_file)
  unfolding write_all run_once
  write_all-run_once now recent trigger r = elim (Bool-cases (ltb (length recent) 30)) [
    | inl few ↦ ground (arith, few)
    | inr full ↦ elim (Option-cases (b.evidently recent)) [
      | inl bad ↦ ground (arith, full, bad)
      | inr (report, made) ↦ elim (Option-cases (b.ml_monitor recent)) [
        | inl without ↦ elim (Option-cases trigger) [
          | inl untriggered ↦ ground (arith, full, made, without, untriggered)
          | inr (t, triggered) ↦ ground (arith, full, made, without, triggered)
        ]
        | inr (second, ran) ↦ elim (Option-cases trigger) [
          | inl untriggered ↦ ground (arith, full, made, ran, untriggered)
          | inr (t, triggered) ↦ ground (arith, full, made, ran, triggered)
        ]
      ]
    ]
  ]

  or_old-or_old :
      {A : Type 0} (x y z w v : Option A)
      → v ≡ or_old x w
      → w ≡ or_old y z
      → v ≡ or_old (or_old x y) z
  or_old-or_old none y z w v h k = h ∙ k
  or_old-or_old (some a) y z w v h k = h

  watch-files :
      (passes : Passes) (trigger : Option (Trigger fl)) (r : Reports Float Report)
      → let r' = (watch fl b passes (trigger, r)).1 in
        (r'.html_file ≡ or_old (last_report passes) r.html_file)
        × (r'.json_file ≡ or_old (last_summary passes trigger) r.json_file)
        × (r'.ml_monitor_file ≡ or_old (last_ml passes trigger) r.ml_monitor_file)
  unfolding watch
  watch-files [] trigger r = (refl, refl, refl)
  watch-files ((now, none) ∷ passes) trigger r = watch-files passes trigger r
  watch-files ((now, some recent) ∷ passes) trigger r =
      let (trigger', outcome, effects) = run_once fl b now recent trigger in
      let (h, j, m) = write_all-run_once now recent trigger r in
      let (h', j', m') = watch-files passes trigger' (write_all effects r) in
      (
        or_old-or_old (last_report passes) (report_of recent) r.html_file _ _ h' h,
        or_old-or_old (last_summary passes trigger') (summary_of outcome) r.json_file _ _ j' j,
        or_old-or_old (last_ml passes trigger') (ml_of outcome recent) r.ml_monitor_file _ _ m' m,
      )

  abbrev pub json_or_404 : Option (Summary Float) → Reply fl b
  json_or_404 none = not_found
  json_or_404 (some summary) = json summary

  abbrev pub html_or_404 : Option Report → Reply fl b
  html_or_404 none = not_found
  html_or_404 (some report) = html report

  abbrev pub ml_or_404 : Option Report → Reply fl b
  ml_or_404 none = not_found
  ml_or_404 (some report) = ml_report report

  -- After any passes of the monitor, some of which may raise, from a directory without reports, and with
  -- a key that is granted: the JSON of /monitoring is the summary of the last pass that returned one, the
  -- HTML is the Evidently report of the last pass that had thirty rows and made one, even if that pass
  -- raised later, and /monitoring/ml-monitor serves the last report that the second backend made in a
  -- pass that returned a summary. Each is a 404 when there was no such pass.
  pub monitoring-watch :
      (passes : Passes) (trigger : Option (Trigger fl)) (key_id : String)
      → let r = (watch fl b passes (trigger, no_reports)).1 in
        (monitoring fl b "json" (granted key_id) r ≡ json_or_404 (last_summary passes trigger))
        × (monitoring fl b "html" (granted key_id) r ≡ html_or_404 (last_report passes))
        × (monitoring_ml_monitor fl b (granted key_id) r ≡ ml_or_404 (last_ml passes trigger))
  unfolding monitoring monitoring_ml_monitor guarded
  monitoring-watch passes trigger key_id =
      let (h, j, m) = watch-files passes trigger no_reports in
      (
        elim (Option-cases (last_summary passes trigger)) [
          | inl never ↦ ground (arith, j, never)
          | inr (summary, last) ↦ ground (arith, j, last)
        ],
        elim (Option-cases (last_report passes)) [
          | inl never ↦ ground (arith, h, never)
          | inr (report, last) ↦ ground (arith, h, last)
        ],
        elim (Option-cases (last_ml passes trigger)) [
          | inl never ↦ ground (arith, m, never)
          | inr (report, last) ↦ ground (arith, m, last)
        ],
      )

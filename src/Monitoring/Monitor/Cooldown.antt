-- ===== src/Monitoring/Monitor/Cooldown.antt =====
-- The cooldown over whole reports: the alerts that `_fire_alerts` has raised are not raised again by a
-- later report with the same findings before the cooldown is over.
pub mod Reports
use ml_monitor.Prelude.{
  ℕ, ◌+◌, ◌<◌, ◌≤◌, ◌≡◌, refl, sym, ap, ◌∙◌, ◌⊎◌, inl, inr, String, Bool, true, false, not, Option,
  none, some, List, [], ◌∷◌, ◌++◌, All, arith, leb, ltb, ◌==◌, ==_refl, string_eq, pair_eq, Eq,
  if◌then◌else◌, Bool-cases, Floats,
}
use ml_monitor.Prelude.Dict.{Dict, get, put, get-put}
use ml_monitor.Monitoring.Dedup as Dedup
use ml_monitor.Monitoring.Dedup.{Key, key_of, Deduplicator, should_alert}
use ml_monitor.Monitoring.Store.{SqliteStore}
use ml_monitor.Monitoring.DataDrift.{
  Severity, warning, critical, FeatureDrift, PredictionDrift, Numerics,
}
use ml_monitor.Monitoring.Concept.Detect.{ConceptDrift}
use ml_monitor.Monitoring.Report.{DriftReport}
use ml_monitor.Monitoring.Monitor.{
  rank, threshold_rank, AlertConfig, Message, Due, Effect, Firing, data_drift_message,
  prediction_drift_message, concept_drift_message, alert_once, fire_feature, fire_features,
  fire_prediction, fire_concept, deliver, fire_alerts,
}

-- The alert of a key was last let through at `now`.
abbrev pub IsMarked : ℕ → Deduplicator → Key → Type 0
IsMarked now d k = get k d.last_fired ≡ some now

-- A deduplicator that has let alerts through at `now` only.
pub record IsFresh (now cooldown : ℕ) (d : Deduplicator) : Type 0 where
  pub only_now : (k : Key) → (get k d.last_fired ≡ none) ⊎ IsMarked now d k
  pub same_cooldown : d.cooldown ≡ cooldown

abbrev pub Keeps : ℕ → Deduplicator → Deduplicator → Type 0
Keeps now d d' = (k : Key) → IsMarked now d k → IsMarked now d' k

-- A request for a key that never fired, and one for a key that is held back.
should_alert_open :
    (now : ℕ) (drift_type : String) (feature : Option String) (d : Deduplicator)
    → get (key_of drift_type feature) d.last_fired ≡ none
    → should_alert drift_type feature now d
      ≡ (true, record d { last_fired = put (key_of drift_type feature) now d.last_fired })
unfolding should_alert
should_alert_open now drift_type feature d never = ground (arith, never)

should_alert_held :
    (now later : ℕ) (drift_type : String) (feature : Option String) (d : Deduplicator)
    → later < now + d.cooldown
    → IsMarked now d (key_of drift_type feature)
    → should_alert drift_type feature later d ≡ (false, d)
unfolding should_alert
should_alert_held now later drift_type feature d early marked = ground (arith, marked, early)

-- One request at `now`: the key is marked after it, other marks stay.
should_alert-IsFresh :
    (now cooldown : ℕ) (drift_type : String) (feature : Option String) (d : Deduplicator)
    → 0 < cooldown
    → IsFresh now cooldown d
    → let d' = (should_alert drift_type feature now d).1 in
      IsFresh now cooldown d' × Keeps now d d' × IsMarked now d' (key_of drift_type feature)
should_alert-IsFresh now cooldown drift_type feature d pos fresh =
    let k : Key = key_of drift_type feature in
    elim (fresh.only_now k) [
      | inl never ↦ rw (should_alert_open now drift_type feature d never) (
        record {
          only_now = λ j. elim (Bool-cases (k == j)) [
            | inl same ↦ inr (get-put k j now d.last_fired ∙ rw same refl)
            | inr other ↦ rw (get-put k j now d.last_fired, other) (fresh.only_now j)
          ];
          same_cooldown = fresh.same_cooldown;
        },
        λ j marked. get-put k j now d.last_fired ∙ ground (arith, marked),
        get-put k k now d.last_fired ∙ rw (==_refl k) refl,
      )
      | inr marked ↦
          rw
            (should_alert_held now now drift_type feature d (omega (arith, fresh.same_cooldown))
              marked)
            (fresh, λ j h. h, marked)
    ]

pub new_IsFresh : (now cooldown : ℕ) → IsFresh now cooldown (Dedup.init cooldown)
unfolding get
new_IsFresh now cooldown = record { only_now = λ k. inl refl; same_cooldown = refl }

module _ (fl : Floats) {V : Type 0} (np : Numerics fl.Float V) (render : Message fl.Float → String)
    (now cooldown : ℕ) where
  open fl use {Float}

  -- A part of `_fire_alerts`, at a time.
  abbrev pub Part : Type 0
  Part = ℕ → Firing fl np → Firing fl np

  -- The part does nothing, before the cooldown is over, to a state that keeps the marks of `d`.
  abbrev pub IsSilent : Part → Deduplicator → Type 0
  IsSilent part d =
      (later : ℕ) (f : Firing fl np)
      → later < now + cooldown
      → f.deduplicator.cooldown ≡ cooldown
      → Keeps now d f.deduplicator
      → part later f ≡ f

  -- Run at `now`, the part marks what silences it later.
  abbrev pub Settles : Part → Type 0
  Settles part =
      (f : Firing fl np)
      → IsFresh now cooldown f.deduplicator
      → IsFresh now cooldown (part now f).deduplicator
        × Keeps now f.deduplicator (part now f).deduplicator
        × IsSilent part (part now f).deduplicator

  pub nothing-Settles : Settles (λ t f. f)
  nothing-Settles f fresh = (fresh, λ k h. h, λ later g early same keeps. refl)

  pub then-Settles :
      (part next : Part) → Settles part → Settles next → Settles (λ t f. next t (part t f))
  then-Settles part next first second f fresh =
      let (fresh1, keeps1, silent1) = first f fresh in
      let (fresh2, keeps2, silent2) = second (part now f) fresh1 in
      (
        fresh2,
        λ k h. keeps2 k (keeps1 k h),
        λ later g early same keeps.
            ap (next later) (silent1 later g early same (λ k h. keeps k (keeps2 k h)))
            ∙ silent2 later g early same keeps,
      )

  alert_once-deduplicator :
      (severity : Severity) (message : Message Float) (drift_type : String)
      (feature : Option String) (entry : Due Float) (t : ℕ) (f : Firing fl np)
      → (alert_once fl np render severity message drift_type feature entry t f).deduplicator
        ≡ (should_alert drift_type feature t f.deduplicator).1
  unfolding alert_once
  alert_once-deduplicator severity message drift_type feature entry t f =
      elim (Bool-cases (should_alert drift_type feature t f.deduplicator).0) [
        | inl fires ↦ rw fires refl
        | inr held ↦ rw held refl
      ]

  alert_once_held :
      (severity : Severity) (message : Message Float) (drift_type : String)
      (feature : Option String) (entry : Due Float) (t : ℕ) (f : Firing fl np)
      → should_alert drift_type feature t f.deduplicator ≡ (false, f.deduplicator)
      → alert_once fl np render severity message drift_type feature entry t f ≡ f
  unfolding alert_once
  alert_once_held severity message drift_type feature entry t f held = rw held refl

  pub alert_once-Settles :
      0 < cooldown
      → (severity : Severity) (message : Message Float) (drift_type : String)
        (feature : Option String) (entry : Due Float)
      → Settles (alert_once fl np render severity message drift_type feature entry)
  alert_once-Settles pos severity message drift_type feature entry f fresh =
      let (fresh', keeps, marked) =
        should_alert-IsFresh now cooldown drift_type feature f.deduplicator pos fresh in
      let same = alert_once-deduplicator severity message drift_type feature entry now f in
      rw same (
        fresh',
        keeps,
        λ later g early cool kept.
            alert_once_held severity message drift_type feature entry later g (
              should_alert_held now later drift_type feature g.deduplicator (rw cool early)
                (kept (key_of drift_type feature) marked)),
      )

  pub if-Settles :
      (b : Bool) (part other : Part)
      → Settles part
      → Settles other
      → Settles (λ t f. if b then part t f else other t f)
  if-Settles true part other h k = h
  if-Settles false part other h k = k

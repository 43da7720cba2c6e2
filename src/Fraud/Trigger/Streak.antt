-- ===== src/Fraud/Trigger/Streak.antt =====
-- The trigger against its specification: the length of the current streak of drifted windows.
use ml_monitor.Prelude.{
  ℕ, ◌+◌, ◌<◌, ◌≡◌, refl, ap, ◌⊎◌, inl, inr, Bool, false, not, ◌&&◌, Option, none, some, List, [],
  ◌∷◌, arith, if◌then◌else◌, leb, nat_beq, Floats,
}
use ml_monitor.Fraud.Trigger.{
  Trigger, Decision, unreadable, object, number, Loaded, ok, raise, init, load, is_drifted, observe,
}

module _ (fl : Floats) (threshold : fl.Float) (required : ℕ) where
  open fl use {Float, le}

  abbrev pub over : Option Float → Bool
  over none = false
  over (some share) = le threshold share

  -- The number of drifted windows since the last one that was not, the newest window first.
  abbrev pub streak : List (Option Float) → ℕ
  streak [] = 0
  streak (w ∷ older) = if over w then streak older + 1 else 0

  -- The decision that the windows before it and a new window call for.
  unfoldable pub decide : List (Option Float) → Option Float → Decision
  decide older w = record {
    drifted = over w;
    consecutive = streak (w ∷ older);
    should_alert = over w && nat_beq (streak (w ∷ older)) required;
    recovered = not (over w) && leb required (streak older);
    should_retrain = leb required (streak (w ∷ older));
  }

  -- What happens to a monitor: it observes a window, or its process is started again.
  pub data Step : Type 0 where
    window : Option Float → Step
    restart : Step

  unfoldable pub run : List Step → Trigger fl → Loaded (Trigger fl)
  run [] t = ok t
  run (window w ∷ steps) t = run steps (observe fl t w).0
  run (restart ∷ steps) t = elim (init fl t.file threshold required) [
    | ok t' ↦ run steps t'
    | raise e ↦ raise e
  ]

  -- The windows of the steps, put before those seen earlier: newest first.
  abbrev pub windows : List Step → List (Option Float) → List (Option Float)
  windows [] older = older
  windows (window w ∷ steps) older = windows steps (w ∷ older)
  windows (restart ∷ steps) older = windows steps older

  abbrev pub fresh : Trigger fl
  fresh = record {
    threshold = threshold;
    required_windows = required;
    consecutive = 0;
    alerted = false;
    file = unreadable;
  }

  -- The state that the windows seen so far, newest first, call for.
  pub record Counts (older : List (Option Float)) (t : Trigger fl) : Type 0 where
    pub same_threshold : t.threshold ≡ threshold
    pub same_required : t.required_windows ≡ required
    pub count : t.consecutive ≡ streak older
    pub armed : t.alerted ≡ leb required (streak older)

  -- The file holds the state, or nothing has been observed yet.
  abbrev IsSaved : Trigger fl → Type 0
  IsSaved t =
      (t.file ≡ object (number t.consecutive) (some t.alerted))
      ⊎ ((t.file ≡ unreadable) × (t.consecutive ≡ 0) × (t.alerted ≡ false))

  is_drifted-over :
      (t : Trigger fl) (w : Option Float) → t.threshold ≡ threshold → is_drifted fl t w ≡ over w
  unfolding is_drifted
  is_drifted-over t none h = refl
  is_drifted-over t (some share) h = ap (λ x. le x share) h

  observe-Counts :
      0 < required
      → (older : List (Option Float)) (w : Option Float) (t : Trigger fl) → Counts older t
      → Counts (w ∷ older) (observe fl t w).0 × ((observe fl t w).1 ≡ decide older w)
  unfolding observe decide
  observe-Counts h older w t c = ground (arith, is_drifted-over t w)

  observe-IsSaved : (t : Trigger fl) (w : Option Float) → IsSaved (observe fl t w).0
  unfolding observe
  observe-IsSaved t w = inl refl

  -- A restart brings the state back.
  restart-Counts :
      (older : List (Option Float)) (t : Trigger fl)
      → Counts older t
      → IsSaved t
      → (t' : Trigger fl) × (init fl t.file threshold required ≡ ok t')
        × Counts older t'
        × IsSaved t'
  unfolding init
  restart-Counts older t c (inl saved) = (t, rw (saved, load) (ground arith), c, inl saved)
  restart-Counts older t c (inr (unread, none_seen, unarmed)) =
      (t, rw (unread, load) (ground arith), c, inr (unread, none_seen, unarmed))

  run-Counts :
      0 < required
      → (steps : List Step) (older : List (Option Float)) (t : Trigger fl) → Counts older t
      → IsSaved t
      → (t' : Trigger fl) × (run steps t ≡ ok t') × Counts (windows steps older) t'
  unfolding run
  run-Counts h [] older t c s = (t, refl, c)
  run-Counts h (window w ∷ steps) older t c s =
      run-Counts h steps (w ∷ older) (observe fl t w).0 (observe-Counts h older w t c).0
        (observe-IsSaved t w)
  run-Counts h (restart ∷ steps) older t c s =
      let (t1, loaded, c1, s1) = restart-Counts older t c s in
      let (t2, ran, c2) = run-Counts h steps older t1 c1 s1 in (t2, rw (loaded, run) ran, c2)

  -- With at least one window required: however often the monitor was restarted, every decision is
  -- the one that the windows themselves call for. It alerts exactly when this window is drifted and
  -- the streak reaches the required length with it, it reports a recovery exactly when this window
  -- ends a streak of at least that length, and it asks for a retrain exactly while the streak is at
  -- least that long. No restart fails.
  pub observe-decide :
      0 < required
      → (steps : List Step) (w : Option Float)
      → (t : Trigger fl) × (run steps fresh ≡ ok t)
        × ((observe fl t w).1 ≡ decide (windows steps []) w)
  observe-decide h steps w =
      let (t, ran, c) =
        run-Counts h steps [] fresh
          (record {
            same_threshold = refl;
            same_required = refl;
            count = refl;
            armed = ground arith;
          })
          (inr (refl, refl, refl)) in
      (t, ran, (observe-Counts h (windows steps []) w t c).1)

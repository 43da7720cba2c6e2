-- ===== src/Monitoring/Concept/Ddm/Laws.antt =====
-- When DDM may signal, and what a signal leaves.
use mathlib.Core.Path.{subst}
use ml_monitor.Prelude.{
  ℕ, ◌+◌, ◌≤◌, ◌≡◌, Bool, true, false, ◌&&◌, Option-cases, some, none, List, [], ◌∷◌, arith,
  if◌then◌else◌, ltb, Bool-cases, inl, inr, Floats,
}
use ml_monitor.Monitoring.Concept.Ddm.{Ddm, init, estimate, update}

module _ (fl : Floats) where
  open fl use {Float}

  -- The decisions of a detector over a stream of errors, up to the first update that raises.
  unfoldable pub decisions : List Float → Ddm fl → List Bool
  decisions [] d = []
  decisions (e ∷ errors) d = elim (update fl d e) [
    | none ↦ []
    | some (drift, d') ↦ drift ∷ decisions errors d'
  ]

  pub decisions-raised :
      (e : Float) (errors : List Float) (d : Ddm fl)
      → update fl d e ≡ none
      → decisions (e ∷ errors) d ≡ []
  unfolding decisions
  decisions-raised e errors d h = ground (arith, h)

  pub decisions-made :
      (e : Float) (errors : List Float) (d : Ddm fl) (drift : Bool) (d' : Ddm fl)
      → update fl d e ≡ some (drift, d')
      → decisions (e ∷ errors) d ≡ drift ∷ decisions errors d'
  unfolding decisions
  decisions-made e errors d drift d' h = ground (arith, h)

  -- Every signal comes at least `min_n` decisions after the one before it; `since` decisions have
  -- been made since then.
  abbrev pub IsRare : ℕ → ℕ → List Bool → Type 0
  IsRare min_n since [] = Unit
  IsRare min_n since (false ∷ ds) = IsRare min_n (since + 1) ds
  IsRare min_n since (true ∷ ds) = (min_n ≤ since + 1) × IsRare min_n 0 ds

  estimate_lem :
      (d : Ddm fl) (e : Float) (x : Ddm fl)
      → estimate fl d e ≡ some x
      → (x.n ≡ d.n + 1)
        × (x.min_n ≡ d.min_n)
        × (x.warning_level ≡ d.warning_level)
        × (x.drift_level ≡ d.drift_level)
        × (x.p_min ≡ d.p_min)
        × (x.s_min ≡ d.s_min)
        × (x.drift_detected ≡ false)
        × (x.warning_detected ≡ false)
  unfolding estimate
  estimate_lem d e x h = ground (arith, h)

  -- One update that raises nothing: it returns the drift flag; drift and warning are not flagged together; before
  -- `min_n` updates nothing is flagged, and `p_min` and `s_min` stay; without a drift one more
  -- update is counted; a drift needs `min_n` updates and leaves the detector as new.
  update_lem :
      (d : Ddm fl) (e : Float) (drift : Bool) (d' : Ddm fl)
      → update fl d e ≡ some (drift, d')
      → (d'.min_n ≡ d.min_n)
        × (d'.drift_detected ≡ drift)
        × (drift && d'.warning_detected ≡ false)
        × ((if ltb (d.n + 1) d.min_n then d'.drift_detected else false) ≡ false)
        × ((if ltb (d.n + 1) d.min_n then d'.warning_detected else false) ≡ false)
        × ((if ltb (d.n + 1) d.min_n then d'.p_min else d.p_min) ≡ d.p_min)
        × ((if ltb (d.n + 1) d.min_n then d'.s_min else d.s_min) ≡ d.s_min)
        × (d'.n ≡ (if drift then 0 else d.n + 1))
        × (d' ≡ (
            if drift
            then record (init fl d.warning_level d.drift_level d.min_n) { drift_detected = true }
            else d'))
  unfolding update init
  update_lem d e drift d' h = elim (Option-cases (estimate fl d e)) [
    | inl bad ↦ absurd (ground (arith, bad, h))
    | inr (x, made) ↦ let kept = estimate_lem d e x made in ground (arith, kept, made, h)
  ]

  -- In the decisions over any stream, up to the first update that raises if there is one, every drift comes at least `min_n` errors after the drift
  -- before it, and the first one at least `min_n` errors after the start.
  pub decisions-IsRare :
      (errors : List Float) (d : Ddm fl) → IsRare d.min_n d.n (decisions errors d)
  unfolding decisions
  decisions-IsRare [] d = tt
  decisions-IsRare (e ∷ errors) d = elim (Option-cases (update fl d e)) [
    | inl raised ↦ rw (decisions-raised e errors d raised) tt
    | inr ((drift, d'), made) ↦
        let facts = update_lem d e drift d' made in
        let later : IsRare d.min_n d'.n (decisions errors d') =
          subst (λ m. IsRare m d'.n (decisions errors d')) facts.0 (decisions-IsRare errors d') in
        elim (Bool-cases drift) [
          | inl yes_drift ↦
              let reset : d'.n ≡ 0 = ground (arith, facts.7, yes_drift) in
              rw (decisions-made e errors d drift d' made, yes_drift)
                (ground arith, subst (λ n. IsRare d.min_n n (decisions errors d')) reset later)
          | inr no_drift ↦
              let counted : d'.n ≡ d.n + 1 = ground (arith, facts.7, no_drift) in
              rw (decisions-made e errors d drift d' made, no_drift)
                (subst (λ n. IsRare d.min_n n (decisions errors d')) counted later)
        ]
  ]

-- ===== src/Features/Stats/Laws.antt =====
-- Which features have statistics, and of what.
use ml_monitor.Prelude.{
  ◌≡◌, refl, ◌∙◌, String, Option, none, some, List, [], ◌∷◌, arith, string_eq, eq_iff,
  if◌then◌else◌, Option-cases, inl, inr, Floats,
}
use ml_monitor.Prelude.Dict.{Dict, get, put, get-put}
use ml_monitor.Features.Frame.{Frame, is_in}
use ml_monitor.Features.Stats.{ColumnOps, Entry, entry_of, add_stats, compute_stats}

module _ (fl : Floats) {V : Type 0} (ops : ColumnOps fl.Float V) where
  open fl use {Float}

  abbrev stats_of : Option (List V) → Option (Entry Float)
  stats_of none = none
  stats_of (some col) = some (entry_of fl ops col)

  abbrev or_old : Option (Entry Float) → Option (Entry Float) → Option (Entry Float)
  or_old (some new) old = some new
  or_old none old = old

  get-add_stats :
      (df : Frame V) (name : String) (names : List String) (stats : Dict String (Entry Float))
      → get name (add_stats fl ops df names stats)
        ≡ or_old (if is_in names name then stats_of (ops.column df name) else none) (get name stats)
  unfolding add_stats
  get-add_stats df name [] stats = refl
  get-add_stats df name (n ∷ names) stats = elim (Option-cases (ops.column df n)) [
    | inl absent ↦ ground (arith, absent, get-add_stats df name names stats, eq_iff n name)
    | inr (col, there) ↦ ground (
      arith,
      there,
      get-add_stats df name names (put n (entry_of fl ops col) stats),
      get-put n name (entry_of fl ops col) stats,
      eq_iff n name,
    )
  ]

  -- A feature has statistics exactly if it is asked for and the frame has its column, and they are
  -- those of that column.
  get-compute_stats :
      (df : Frame V) (name : String) (names : List String)
      → get name (compute_stats fl ops df names)
        ≡ (if is_in names name then stats_of (ops.column df name) else none)
  unfolding compute_stats get
  get-compute_stats df name names = get-add_stats df name names [] ∙ ground arith

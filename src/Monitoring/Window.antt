-- ===== src/Monitoring/Window.antt =====
-- src/ml_platform/monitoring/core/window_manager.py: the rolling window, a `deque(maxlen=...)`.
-- Logged values are of an abstract type.
pub mod Laws
use ml_monitor.Prelude.{
  ℕ, suc, String, Bool, true, false, Option, none, some, List, [], ◌∷◌, ◌++◌, map, length, leb, ltb,
  if◌then◌else◌,
}
use ml_monitor.Prelude.Dict.{Dict}

pub record LogRecord (V : Type 0) : Type 0 where
  pub timestamp : ℕ
  pub features : Dict String V
  pub prediction : V
  pub label : Option V

module _ {A : Type 0} where
  abbrev pub tail : List A → List A
  tail [] = []
  tail (x ∷ xs) = xs

  -- `append` on a deque of at most `maxlen` elements: the oldest one goes when it would be too long.
  unfoldable pub append_max : ℕ → List A → A → List A
  append_max maxlen xs x =
      let longer = xs ++ x ∷ [] in if ltb maxlen (length longer) then tail longer else longer

pub record WindowManager (V : Type 0) : Type 0 where
  pub window_size : ℕ
  pub records : List (LogRecord V)

module _ {V : Type 0} where
  unfoldable pub init : ℕ → WindowManager V
  init window_size = record { window_size = window_size; records = [] }

  unfoldable pub add : WindowManager V → LogRecord V → WindowManager V
  unfolding append_max
  add w r = record w { records = append_max w.window_size w.records r }

  unfoldable pub predictions : WindowManager V → List V
  predictions w = map (λ (r : LogRecord V). r.prediction) w.records

  -- The rows of `features_frame`.
  unfoldable pub feature_rows : WindowManager V → List (Dict String V)
  feature_rows w = map (λ (r : LogRecord V). r.features) w.records

  -- The loop of `labels_and_predictions`: the records whose label is not None.
  unfoldable pub labelled : List (LogRecord V) → List V × List V
  labelled [] = ([], [])
  labelled (r ∷ rs) =
      let (labels, preds) = labelled rs in
      elim r.label [ none ↦ (labels, preds) | some l ↦ (l ∷ labels, r.prediction ∷ preds) ]

  unfoldable pub labels_and_predictions : WindowManager V → List V × List V
  unfolding labelled
  labels_and_predictions w = labelled w.records

  unfoldable pub size : WindowManager V → ℕ
  size w = length w.records

  unfoldable pub is_full : WindowManager V → Bool
  is_full w = leb w.window_size (length w.records)

-- ===== src/Monitoring/Window/Laws.antt =====
-- The window holds the last records that were added, as many as fit.
use ml_monitor.Prelude.{
  ℕ, ◌-◌, ◌≤◌, ◌≡◌, refl, sym, ap, ◌∙◌, List, [], ◌∷◌, ◌++◌, arith, length, drop, take_last,
  length-append, length-drop, take_last-take_last-append, take_last_of_length-le, leb, ltb,
  Bool-cases, inl, inr,
}
use mathlib.Core.List.{append-nil, append_assoc}
use ml_monitor.Monitoring.Window.{LogRecord, WindowManager, append_max, tail, init, add, is_full}

module _ {A : Type 0} where
  tail-drop : (xs : List A) → tail xs ≡ drop 1 xs
  tail-drop [] = refl
  tail-drop (x ∷ xs) = refl

  -- One append to a deque that is not too long keeps the last elements.
  append_max-take_last :
      (n : ℕ) (xs : List A) (x : A) → length xs ≤ n → append_max n xs x ≡ take_last n (xs ++ x ∷ [])
  unfolding append_max
  append_max-take_last n xs x h = elim (Bool-cases (ltb n (length (xs ++ x ∷ [])))) [
    | inl long ↦
        rw (long, append_max)
          (tail-drop (xs ++ x ∷ [])
            ∙ ap (λ k. drop k (xs ++ x ∷ [])) {x = 1} (ground (arith, length-append xs (x ∷ []))))
    | inr short ↦
        rw (short, append_max) (sym (take_last_of_length-le n (xs ++ x ∷ []) (ground arith)))
  ]

module _ {V : Type 0} where
  unfoldable pub add_all : List (LogRecord V) → WindowManager V → WindowManager V
  add_all [] w = w
  add_all (r ∷ rs) w = add_all rs (add w r)

  add_all-take_last :
      (rs seen : List (LogRecord V)) (w : WindowManager V)
      → w.records ≡ take_last w.window_size seen
      → ((add_all rs w).records ≡ take_last w.window_size (seen ++ rs))
        × ((add_all rs w).window_size ≡ w.window_size)
  unfolding add_all add
  add_all-take_last [] seen w h = (h ∙ ap (take_last w.window_size) (sym (append-nil seen)), refl)
  add_all-take_last (r ∷ rs) seen w h =
      let n : ℕ = w.window_size in
      let fits : length w.records ≤ n = rw h (omega (arith, length-drop (length seen - n) seen)) in
      let step : append_max n w.records r ≡ take_last n (seen ++ r ∷ []) =
        append_max-take_last n w.records r fits
        ∙ ap (λ xs. take_last n (xs ++ r ∷ [])) h
        ∙ take_last-take_last-append n seen (r ∷ []) in
      let (records, same) = add_all-take_last rs (seen ++ r ∷ []) (add w r) step in
      (records ∙ ap (take_last n) (append_assoc seen (r ∷ []) rs), same)

  -- After any records were added to a new window it holds the last `window_size` of them, or all of
  -- them if there are fewer, oldest first; it is full exactly if at least that many were added.
  pub add_all-init :
      (n : ℕ) (rs : List (LogRecord V))
      → ((add_all rs (init n)).records ≡ take_last n rs)
        × (is_full (add_all rs (init n)) ≡ leb n (length rs))
  unfolding init is_full
  add_all-init n rs =
      let (records, same) =
        add_all-take_last rs [] (init n) (sym (take_last_of_length-le n [] (omega arith))) in
      (records, rw (same, records) (ground (arith, length-drop (length rs - n) rs)))

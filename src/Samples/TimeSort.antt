-- ===== src/Samples/TimeSort.antt =====
-- A sort of the rows of a frame by time, with the laws that pandas documents of it.
use ml_monitor.Prelude.{
  ℕ, ◌≤◌, ◌≡◌, refl, ◌∙◌, Bool, List, [], ◌∷◌, All, arith, ltb, Bool-cases, inl, inr,
}
use ml_monitor.Prelude.Sorting.{insert_sorted, sort_by}
use ml_monitor.Samples.Users as Users
use ml_monitor.Features.Frame.{Row}
use ml_monitor.Features.Store.{Libraries}
use ml_monitor.Features.GroupDrift.Laws.{Ordered, count}

abbrev earlier : Row ℕ → Row ℕ → Bool
earlier x y = ltb x.event_timestamp y.event_timestamp

abbrev pub by_time : List (Row ℕ) → List (Row ℕ)
by_time rows = sort_by earlier rows

All-insert_sorted :
    (P : Row ℕ → Type 0) (x : Row ℕ) (rows : List (Row ℕ))
    → P x
    → All P rows
    → All P (insert_sorted earlier x rows)
unfolding insert_sorted
All-insert_sorted P x [] h k = (h, tt)
All-insert_sorted P x (r ∷ rows) h k = elim (Bool-cases (earlier r x)) [
  | inl later ↦ rw later (k.0, All-insert_sorted P x rows h k.1)
  | inr here ↦ rw here (h, (k.0, k.1))
]

All-later :
    (a b : ℕ) (rows : List (Row ℕ))
    → a ≤ b
    → All (λ (x : Row ℕ). b ≤ x.event_timestamp) rows
    → All (λ (x : Row ℕ). a ≤ x.event_timestamp) rows
All-later a b [] h k = tt
All-later a b (r ∷ rows) h k = (ground (arith, h, k.0), All-later a b rows h k.1)

insert_sorted-Ordered :
    (x : Row ℕ) (rows : List (Row ℕ)) → Ordered rows → Ordered (insert_sorted earlier x rows)
unfolding insert_sorted
insert_sorted-Ordered x [] h = (tt, tt)
insert_sorted-Ordered x (r ∷ rows) h = elim (Bool-cases (earlier r x)) [
  | inl later ↦ rw later (
    All-insert_sorted (λ (y : Row ℕ). r.event_timestamp ≤ y.event_timestamp) x rows
        (ground (arith, later)) h.0,
    insert_sorted-Ordered x rows h.1,
  )
  | inr here ↦
      let first : x.event_timestamp ≤ r.event_timestamp = ground (arith, here) in
      rw here ((first, All-later x.event_timestamp r.event_timestamp rows first h.0), h)
]

count-insert_sorted :
    (p : Row ℕ → Bool) (x : Row ℕ) (rows : List (Row ℕ))
    → count p (insert_sorted earlier x rows) ≡ count p (x ∷ rows)
unfolding insert_sorted
count-insert_sorted p x [] = refl
count-insert_sorted p x (r ∷ rows) = ground (arith, count-insert_sorted p x rows)

pub by_time-Ordered : (rows : List (Row ℕ)) → Ordered (by_time rows)
unfolding sort_by
by_time-Ordered [] = tt
by_time-Ordered (r ∷ rows) = insert_sorted-Ordered r (by_time rows) (by_time-Ordered rows)

pub count-by_time : (rows : List (Row ℕ)) (p : Row ℕ → Bool) → count p (by_time rows) ≡ count p rows
unfolding sort_by
count-by_time [] p = refl
count-by_time (r ∷ rows) p =
    count-insert_sorted p r (by_time rows) ∙ ground (arith, count-by_time rows p)

abbrev pub library : Libraries ℕ ℕ
library = record (Users.library) { sort_values = by_time }

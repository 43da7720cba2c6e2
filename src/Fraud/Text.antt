-- ===== src/Fraud/Text.antt =====
-- Python's `str.strip` and `str.split(",")`, over texts as lists of code points. Which characters
-- are white space is an argument.
use ml_monitor.Prelude.{
  ℕ, ◌≡◌, refl, ap, ◌∙◌, Bool, false, List, [], ◌∷◌, ◌++◌, arith, ◌==◌, nat_eq, if◌then◌else◌,
}
use mathlib.Core.List.{reverse}

abbrev pub Text : Type 0
Text = List ℕ

abbrev pub comma : ℕ
comma = 44

-- The parts between the separators; the text with no separator is its one part.
unfoldable pub split_on : ℕ → Text → List Text
split_on c [] = [] ∷ []
split_on c (x ∷ xs) =
    let rest = split_on c xs in
    if x == c
    then [] ∷ rest
    else elim rest [ [] ↦ (x ∷ []) ∷ [] | part ∷ parts ↦ (x ∷ part) ∷ parts ]

-- `c.join(parts)`
unfoldable pub join : ℕ → List Text → Text
join c [] = []
join c (part ∷ []) = part
join c (part ∷ part' ∷ parts) = part ++ c ∷ join c (part' ∷ parts)

abbrev pub Without : ℕ → Text → Type 0
Without c [] = Unit
Without c (x ∷ xs) = ((x == c) ≡ false) × Without c xs

abbrev pub AllWithout : ℕ → List Text → Type 0
AllWithout c [] = Unit
AllWithout c (part ∷ parts) = Without c part × AllWithout c parts

split_on_part : (c : ℕ) (part : Text) → Without c part → split_on c part ≡ part ∷ []
unfolding split_on
split_on_part c [] h = refl
split_on_part c (x ∷ xs) h = rw (h.0, split_on_part c xs h.1, split_on)

split_on-append :
    (c : ℕ) (part rest : Text)
    → Without c part
    → split_on c (part ++ c ∷ rest) ≡ part ∷ split_on c rest
unfolding split_on
split_on-append c [] rest h = ground arith
split_on-append c (x ∷ xs) rest h = rw (h.0, split_on-append c xs rest h.1, split_on)

-- Splitting at a separator undoes joining by it, for parts that do not hold it.
pub split_on-join :
    (c : ℕ) (part : Text) (parts : List Text)
    → AllWithout c (part ∷ parts)
    → split_on c (join c (part ∷ parts)) ≡ part ∷ parts
unfolding join
split_on-join c part [] h = split_on_part c part h.0
split_on-join c part (part' ∷ parts) h =
    split_on-append c part (join c (part' ∷ parts)) h.0
    ∙ ap (◌∷◌ part) (split_on-join c part' parts h.1)

module _ (is_space : ℕ → Bool) where
  unfoldable pub lstrip : Text → Text
  lstrip [] = []
  lstrip (x ∷ xs) = if is_space x then lstrip xs else x ∷ xs

  unfoldable pub strip : Text → Text
  unfolding lstrip
  strip xs = reverse (lstrip (reverse (lstrip xs)))

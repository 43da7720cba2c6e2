-- ===== src/Monitoring/Concept/Adwin/Order.antt =====
-- In which order the values lie in the rows of ADWIN, and which of them a cut drops.
use mathlib.Core.Path.{subst}
use mathlib.Core.List.{append_assoc, append-nil}
use ml_monitor.Prelude.{
  ℕ, zero, suc, ◌+◌, ◌-◌, ◌≤◌, ◌<◌, ◌≡◌, refl, sym, ap, ◌∙◌, true, false, some, none, Option, List,
  [], ◌∷◌, ◌++◌, arith, length, take, drop, leb, Option-cases, inl, inr,
}
use ml_monitor.Monitoring.Concept.Adwin.Histogram.{AllSize, IsHistogram, insert-IsHistogram}
use ml_monitor.Monitoring.Concept.Adwin.{
  Bucket, Rows, merge, single, compress, insert, drop_row, drop_oldest, counts,
}

-- Buckets whose total is the list of the values that went in, in order: what `+` joins.
module _ {A : Type 0} where
  abbrev pub join : List A → List A → List A
  join xs ys = xs ++ ys

  abbrev pub values : List (Bucket (List A)) → List A
  values [] = []
  values (b ∷ bs) = b.total ++ values bs

  -- The values of all rows, with the last row first.
  abbrev pub chronicle : Rows (List A) → List A
  chronicle [] = []
  chronicle (row ∷ rows) = chronicle rows ++ values row

  values-append :
      (bs : List (Bucket (List A))) (b : Bucket (List A))
      → values (bs ++ b ∷ []) ≡ values bs ++ b.total
  values-append [] b = append-nil b.total
  values-append (a ∷ bs) b =
      ap (λ xs. a.total ++ xs) (values-append bs b) ∙ sym (append_assoc a.total (values bs) b.total)

  -- Two buckets at the front of a row, moved as one to the end of the next row.
  moved :
      (a b : Bucket (List A)) (rest next : List (Bucket (List A))) (older : List A)
      → (older ++ values (next ++ merge [] join a b ∷ [])) ++ values rest
        ≡ (older ++ values next) ++ values (a ∷ b ∷ rest)
  moved a b rest next older = simp (values-append next (merge [] join a b), append_assoc)

  chronicle-compress :
      (max : ℕ) (row : List (Bucket (List A))) (rows rows' : Rows (List A))
      → compress [] join max row rows ≡ some rows'
      → chronicle rows' ≡ chronicle rows ++ values row
  unfolding compress
  chronicle-compress max [] [] rows' h = ground arith
  chronicle-compress max (a ∷ []) [] rows' h = ground arith
  chronicle-compress max (a ∷ b ∷ rest) [] rows' h = ground (arith, moved a b rest [] [])
  chronicle-compress max [] (next ∷ rows) rows' h = ground arith
  chronicle-compress max (a ∷ []) (next ∷ rows) rows' h = ground arith
  chronicle-compress max (a ∷ b ∷ rest) (next ∷ rows) rows' h =
      let merged : Bucket (List A) = merge [] join a b in
      elim (Option-cases (compress [] join max (next ++ merged ∷ []) rows)) [
        | inl failed ↦ ground (arith, failed)
        | inr (r, done) ↦ ground (
          arith,
          done,
          chronicle-compress max (next ++ merged ∷ []) rows r done,
          moved a b rest next (chronicle rows),
        )
      ]

  -- The values of the rows, the last row first and each row from its front, are in the order in
  -- which they came: a new value goes to the end.
  chronicle-insert :
      (max : ℕ) (value : A) (rows rows' : Rows (List A))
      → insert [] join max (value ∷ []) rows ≡ some rows'
      → chronicle rows' ≡ chronicle rows ++ value ∷ []
  unfolding insert
  chronicle-insert max value [] rows' h = cc
  chronicle-insert max value (row ∷ rows) rows' h =
      let new : Bucket (List A) = single [] join (value ∷ []) in
      chronicle-compress max (row ++ new ∷ []) rows rows' h
      ∙ ap (λ xs. chronicle rows ++ xs) (values-append row new)
      ∙ sym (append_assoc (chronicle rows) (values row) (value ∷ []))

  -- Values that go in one after the other.
  unfoldable pub insert_all : ℕ → List A → Rows (List A) → Option (Rows (List A))
  insert_all max [] rows = some rows
  insert_all max (v ∷ vs) rows = elim (insert [] join max (v ∷ []) rows) [
    | none ↦ none
    | some rows' ↦ insert_all max vs rows'
  ]

  chronicle-insert_all :
      (max : ℕ) (vs : List A) (rows rows' : Rows (List A))
      → insert_all max vs rows ≡ some rows'
      → chronicle rows' ≡ chronicle rows ++ vs
  unfolding insert_all
  chronicle-insert_all max [] rows rows' h =
      let same : rows ≡ rows' = cc h in ap chronicle (sym same) ∙ sym (append-nil (chronicle rows))
  chronicle-insert_all max (v ∷ vs) rows rows' h =
      elim (Option-cases (insert [] join max (v ∷ []) rows)) [
        | inl failed ↦ absurd (ground (arith, failed, h))
        | inr (r, done) ↦
            chronicle-insert_all max vs r rows' (ground (arith, done, h))
            ∙ ap (λ xs. xs ++ vs) (chronicle-insert max v rows r done)
            ∙ append_assoc (chronicle rows) (v ∷ []) vs
      ]

  insert_all-IsHistogram :
      (max : ℕ) (vs : List A) (rows rows' : Rows (List A))
      → 0 < max
      → IsHistogram max 1 rows
      → insert_all max vs rows ≡ some rows'
      → IsHistogram max 1 rows'
  unfolding insert_all insert
  insert_all-IsHistogram max [] rows rows' pos hist h =
      let same : rows ≡ rows' = cc h in subst (IsHistogram max 1) same hist
  insert_all-IsHistogram max (v ∷ vs) [] rows' pos hist h = absurd (cc h)
  insert_all-IsHistogram max (v ∷ vs) (row ∷ rows) rows' pos hist h =
      let (r, done, hist', width) = insert-IsHistogram [] join max (v ∷ []) row rows pos hist in
      insert_all-IsHistogram max vs r rows' pos hist' (ground (arith, done, h))

  values-split :
      (k : ℕ) (row : List (Bucket (List A)))
      → values row ≡ values (take k row) ++ values (drop k row)
  values-split zero row = refl
  values-split (suc k) [] = refl
  values-split (suc k) (b ∷ row) =
      ap (λ xs. b.total ++ xs) (values-split k row)
      ∙ sym (append_assoc b.total (values (take k row)) (values (drop k row)))

abbrev pub AllPositive : {T : Type 0} → List (Bucket T) → Type 0
AllPositive [] = Unit
AllPositive (b ∷ bs) = (0 < b.count) × AllPositive bs

AllSize-AllPositive : {T : Type 0} (bs : List (Bucket T)) → AllSize 1 bs → AllPositive bs
AllSize-AllPositive [] h = tt
AllSize-AllPositive (b ∷ bs) h = (omega (arith, h.0), AllSize-AllPositive bs h.1)

module _ {T : Type 0} (zero_T : T) (plus : T → T → T) where
  drop_row_within :
      (k : ℕ) (row : List (Bucket T))
      → AllPositive row
      → k ≤ length row
      → drop_row zero_T plus (counts (take k row)) row ≡ (0, drop k row)
  unfolding drop_row
  drop_row_within zero [] pos h = refl
  drop_row_within zero (b ∷ row) pos h = refl
  drop_row_within (suc k) [] pos h = absurd (omega arith)
  drop_row_within (suc k) (b ∷ row) pos h =
      let more : leb (b.count + counts (take k row)) 0 ≡ false = ground arith in
      let whole : leb b.count (b.count + counts (take k row)) ≡ true = ground arith in
      let left : b.count + counts (take k row) - b.count ≡ counts (take k row) = omega arith in
      rw (more, whole, left, drop_row) (drop_row_within k row pos.1 (omega arith))

  drop_oldest-zero : (rows : Rows T) → drop_oldest zero_T plus 0 rows ≡ rows
  unfolding drop_oldest
  drop_oldest-zero [] = refl
  drop_oldest-zero ([] ∷ rows) = ap (◌∷◌ []) (drop_oldest-zero rows)
  drop_oldest-zero ((b ∷ row) ∷ rows) = ap (◌∷◌ (b ∷ row)) (drop_oldest-zero rows)

  -- To drop as many values as the first k buckets of the first row hold removes those k buckets, and
  -- leaves every later row as it is.
  pub drop_oldest-first_row :
      (k : ℕ) (row : List (Bucket T)) (rows : Rows T)
      → AllPositive row
      → k ≤ length row
      → drop_oldest zero_T plus (counts (take k row)) (row ∷ rows) ≡ drop k row ∷ rows
  unfolding drop_oldest
  drop_oldest-first_row k row rows pos h =
      rw (drop_row_within k row pos h, drop_oldest) (ap (◌∷◌ (drop k row)) (drop_oldest-zero rows))

-- Values that went, one after the other, into an empty histogram whose rows may hold at least one
-- bucket, and a cut at the end of the k-th bucket of its first row, as `update` makes it. What is dropped
-- is one run of those values, and when there are later rows it is not the oldest: in the order in which
-- the values came, all of the later rows come first, then the k buckets of the first row, and then its
-- other buckets; the cut leaves the first of these parts and the last.
pub chronicle-drop_oldest :
    {A : Type 0} (max k : ℕ) (vs : List A) (row : List (Bucket (List A))) (rows : Rows (List A))
    → 0 < max
    → insert_all max vs ([] ∷ []) ≡ some (row ∷ rows)
    → k ≤ length row
    → (vs ≡ chronicle rows ++ (values (take k row) ++ values (drop k row)))
      × (chronicle (drop_oldest [] join (counts (take k row)) (row ∷ rows))
          ≡ chronicle rows ++ values (drop k row))
chronicle-drop_oldest max k vs row rows pos built h =
    let (len, sized, more) =
      insert_all-IsHistogram max vs ([] ∷ []) (row ∷ rows) pos (omega arith, tt, tt) built in
    (
      sym (chronicle-insert_all max vs ([] ∷ []) (row ∷ rows) built)
          ∙ ap (λ xs. chronicle rows ++ xs) (values-split k row),
      ap chronicle (drop_oldest-first_row [] join k row rows (AllSize-AllPositive row sized) h),
    )

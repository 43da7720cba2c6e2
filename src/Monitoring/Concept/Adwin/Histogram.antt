-- ===== src/Monitoring/Concept/Adwin/Histogram.antt =====
-- The exponential histogram of ADWIN: what an insertion keeps, and in which order the values lie.
use ml_monitor.Prelude.{
  ℕ, suc, ◌+◌, ◌≤◌, ◌<◌, ◌≡◌, refl, ◌∙◌, true, some, List, [], ◌∷◌, ◌++◌, arith, length,
  length-append, leb, Bool-cases, inl, inr,
}
use ml_monitor.Monitoring.Concept.Adwin.{
  Bucket, Rows, merge, single, compress, insert, flat, counts,
}

abbrev pub AllSize : {T : Type 0} → ℕ → List (Bucket T) → Type 0
AllSize s [] = Unit
AllSize s (b ∷ bs) = (b.count ≡ s) × AllSize s bs

-- Row i holds at most `max` buckets, each of size 2^i; `s` is the size in the first row.
abbrev pub IsHistogram : {T : Type 0} → ℕ → ℕ → Rows T → Type 0
IsHistogram max s [] = Unit
IsHistogram max s (row ∷ rows) = (length row ≤ max) × AllSize s row × IsHistogram max (s + s) rows

AllSize-append :
    {T : Type 0} (s : ℕ) (bs : List (Bucket T)) (b : Bucket T)
    → AllSize s bs
    → b.count ≡ s
    → AllSize s (bs ++ b ∷ [])
AllSize-append s [] b h e = (e, tt)
AllSize-append s (a ∷ bs) b h e = (h.0, AllSize-append s bs b h.1 e)

counts-append : {T : Type 0} (xs ys : List (Bucket T)) → counts (xs ++ ys) ≡ counts xs + counts ys
counts-append [] ys = omega arith
counts-append (x ∷ xs) ys = omega (arith, counts-append xs ys)

module _ {T : Type 0} (zero_T : T) (plus : T → T → T) where
  abbrev width : Rows T → ℕ
  width rows = counts (flat zero_T plus rows)

  width-cons :
      (row : List (Bucket T)) (rows : Rows T) → width (row ∷ rows) ≡ counts row + width rows
  unfolding flat
  width-cons row rows = counts-append row (flat zero_T plus rows)

  -- A row that is not too long is left alone.
  compress_fits :
      (max : ℕ) (row : List (Bucket T)) (rows : Rows T)
      → leb (length row) max ≡ true
      → compress zero_T plus max row rows ≡ some (row ∷ rows)
  unfolding compress
  compress_fits max row [] h = rw (h, compress) refl
  compress_fits max row (next ∷ rows) h = rw (h, compress) refl

  -- The loop ends without an exception, and the rows are a histogram again, of the same width.
  compress-IsHistogram :
      (max s : ℕ) (row : List (Bucket T)) (rows : Rows T)
      → 0 < max
      → length row ≤ suc max
      → AllSize s row
      → IsHistogram max (s + s) rows
      → (rows' : Rows T) × (compress zero_T plus max row rows ≡ some rows')
        × IsHistogram max s rows'
        × (width rows' ≡ counts row + width rows)
  unfolding compress
  compress-IsHistogram max s [] rows pos len sized h = (
    [] ∷ rows,
    compress_fits max [] rows (ground arith),
    (omega arith, tt, h),
    width-cons [] rows,
  )
  compress-IsHistogram max s (a ∷ []) rows pos len sized h = (
    (a ∷ []) ∷ rows,
    compress_fits max (a ∷ []) rows (ground arith),
    (omega arith, sized, h),
    width-cons (a ∷ []) rows,
  )
  compress-IsHistogram max s (a ∷ b ∷ rest) [] pos len sized h =
      let row : List (Bucket T) = a ∷ b ∷ rest in
      elim (Bool-cases (leb (length row) max)) [
        | inl fits ↦
            (row ∷ [], compress_fits max row [] fits, (ground arith, sized, h), width-cons row [])
        | inr over ↦
            let room : leb 1 max ≡ true = ground arith in
            (
              rest ∷ (merge zero_T plus a b ∷ []) ∷ [],
              rw (over, room, compress) refl,
              (omega arith, sized.1.1, (omega arith, (omega arith, tt), tt)),
              width-cons rest ((merge zero_T plus a b ∷ []) ∷ [])
                  ∙ omega (arith, width-cons (merge zero_T plus a b ∷ []) []),
            )
      ]
  compress-IsHistogram max s (a ∷ b ∷ rest) (next ∷ rows) pos len sized h =
      let row : List (Bucket T) = a ∷ b ∷ rest in
      let merged : Bucket T = merge zero_T plus a b in
      elim (Bool-cases (leb (length row) max)) [
        | inl fits ↦ (
          row ∷ next ∷ rows,
          compress_fits max row (next ∷ rows) fits,
          (ground arith, sized, h),
          width-cons row (next ∷ rows),
        )
        | inr over ↦
            let (rows', done, h', wide) =
              compress-IsHistogram max (s + s) (next ++ merged ∷ []) rows pos
                (omega (arith, length-append next (merged ∷ [])))
                (AllSize-append (s + s) next merged h.1 (omega arith)) h.2 in
            (
              rest ∷ rows',
              rw (over, done, compress) refl,
              (omega arith, sized.1.1, h'),
              width-cons rest rows'
                  ∙ omega (arith, wide, counts-append next (merged ∷ []), width-cons next rows),
            )
      ]

  -- An insertion into a histogram whose rows may hold at least one bucket raises nothing. Row i of
  -- the result holds at most `max` buckets, each of size 2^i, and the width grows by one.
  pub insert-IsHistogram :
      (max : ℕ) (value : T) (row : List (Bucket T)) (rows : Rows T)
      → 0 < max
      → IsHistogram max 1 (row ∷ rows)
      → (rows' : Rows T) × (insert zero_T plus max value (row ∷ rows) ≡ some rows')
        × IsHistogram max 1 rows'
        × (counts (flat zero_T plus rows') ≡ counts (flat zero_T plus (row ∷ rows)) + 1)
  unfolding insert
  insert-IsHistogram max value row rows pos h =
      let new : Bucket T = single zero_T plus value in
      let (rows', done, h', wide) =
        compress-IsHistogram max 1 (row ++ new ∷ []) rows pos
          (omega (arith, length-append row (new ∷ []))) (AllSize-append 1 row new h.1 refl) h.2 in
      (rows', done, h', omega (arith, wide, counts-append row (new ∷ []), width-cons row rows))

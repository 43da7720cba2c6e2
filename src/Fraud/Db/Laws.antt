-- ===== src/Fraud/Db/Laws.antt =====
-- The table holds one row for each transaction, the first one that was scored.
use ml_monitor.Prelude.{
  ℕ, ◌+◌, ◌≡◌, refl, ◌∙◌, String, Bool, true, false, List, [], ◌∷◌, ◌++◌, any, select, length,
  length-append, arith, ◌==◌, string_eq, eq_iff, if◌then◌else◌, Option, none, some, Bool-cases, inl,
  inr, Floats,
}
use ml_monitor.Fraud.Db.{ScoredRow, insert_score, is_recent, stats_last}

module _ {Float : Type 0} where
  -- The row of a transaction.
  abbrev pub find : String → List (ScoredRow Float) → Option (ScoredRow Float)
  find id [] = none
  find id (r ∷ table) = if r.transaction_id == id then some r else find id table

  unfoldable pub insert_all :
      List (ScoredRow Float) → List (ScoredRow Float) → List (ScoredRow Float)
  insert_all [] table = table
  insert_all (row ∷ rows) table = insert_all rows (insert_score row table)

  any-find :
      (id : String) (table : List (ScoredRow Float))
      → any (λ (r : ScoredRow Float). r.transaction_id == id) table
        ≡ (elim (find id table) as (λ _. Bool) [ none ↦ false | some r ↦ true ])
  any-find id [] = refl
  any-find id (r ∷ table) = ground (arith, any-find id table)

  find-append :
      (id : String) (table : List (ScoredRow Float)) (row : ScoredRow Float)
      → find id (table ++ row ∷ []) ≡ (elim (find id table) as (λ _. Option (ScoredRow Float)) [
        | none ↦ if row.transaction_id == id then some row else none
        | some r ↦ some r
      ])
  find-append id [] row = refl
  find-append id (r ∷ table) row = ground (arith, find-append id table row)

  find-insert_score :
      (id : String) (row : ScoredRow Float) (table : List (ScoredRow Float))
      → find id (insert_score row table)
        ≡ (elim (find id table) as (λ _. Option (ScoredRow Float)) [
          | none ↦ if row.transaction_id == id then some row else none
          | some r ↦ some r
        ])
  unfolding insert_score
  find-insert_score id row table = ground (
    arith,
    any-find row.transaction_id table,
    find-append id table row,
    eq_iff row.transaction_id id,
  )

  -- The first result for a transaction is the one that stays: after any inserts, the row of a
  -- transaction is the one that the table held before, or else the first of the inserted rows that
  -- has its identifier.
  find-insert_all :
      (id : String) (rows table : List (ScoredRow Float))
      → find id (insert_all rows table) ≡ (elim (find id table) as (λ _. Option (ScoredRow Float)) [
        | none ↦ find id rows
        | some r ↦ some r
      ])
  unfolding insert_all
  find-insert_all id [] table = ground arith
  find-insert_all id (row ∷ rows) table =
      ground
        (arith, find-insert_all id rows (insert_score row table), find-insert_score id row table)

length-select-append :
    {A : Type 0} (p : A → Bool) (xs : List A) (x : A)
    → length (select p (xs ++ x ∷ [])) ≡ length (select p xs) + (if p x then 1 else 0)
length-select-append p [] x = ground arith
length-select-append p (y ∷ xs) x = ground (arith, length-select-append p xs x)

select-append :
    {A : Type 0} (p : A → Bool) (xs : List A) (x : A)
    → p x ≡ true
    → select p (xs ++ x ∷ []) ≡ select p xs ++ x ∷ []
select-append p [] x h = ground arith
select-append p (y ∷ xs) x h = ground (arith, select-append p xs x h)

module _ (fl : Floats) (avg : List fl.Float → fl.Float) where
  open fl use {Float}

  -- A transaction that is not in the table and is recorded now counts at once, in every window that
  -- reaches back any number of minutes: one more transaction, and one more fraud exactly if it was
  -- flagged. One that is in the table changes no statistic.
  stats_last-insert_score :
      (now minutes : ℕ) (row : ScoredRow Float) (table : List (ScoredRow Float))
      → row.scored_at ≡ now
      → let before = stats_last fl avg now minutes table in
        let after = stats_last fl avg now minutes (insert_score row table) in
        let known = any (λ (r : ScoredRow Float). r.transaction_id == row.transaction_id) table in
        (after.transaction_count ≡ before.transaction_count + (if known then 0 else 1))
        × (after.fraud_count
            ≡ before.fraud_count + (if known then 0 else if row.is_fraud then 1 else 0))
        × ((if known then after else before) ≡ before)
  unfolding stats_last insert_score
  stats_last-insert_score now minutes row table h =
      let recent : is_recent fl avg now minutes row ≡ true = ground arith in
      elim (Bool-cases
        (any (λ (r : ScoredRow Float). r.transaction_id == row.transaction_id) table)) [
          | inl known ↦ rw known (omega arith, omega arith, refl)
          | inr new ↦ rw new (
            rw (select-append (is_recent fl avg now minutes) table row recent) (
                length-append (select (is_recent fl avg now minutes) table) (row ∷ [])
                ∙ omega arith),
            rw (select-append (is_recent fl avg now minutes) table row recent) (
                length-select-append (λ (r : ScoredRow Float). r.is_fraud)
                  (select (is_recent fl avg now minutes) table) row),
            refl,
          )
        ]

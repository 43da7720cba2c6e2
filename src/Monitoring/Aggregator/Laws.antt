-- ===== src/Monitoring/Aggregator/Laws.antt =====
-- `aggregate` of aggregator.py loses no row and counts none twice.
use ml_monitor.Prelude.{
  ℕ, ◌+◌, ◌-◌, ◌*◌, ◌/◌, ◌≡◌, refl, String, none, some, List, [], ◌∷◌, map, length, nat_eq, Floats,
  arith,
}
use ml_monitor.Prelude.Dict.{Dict, get, put}
use ml_monitor.Prelude.Sorting.{sort_by, insert_sorted}
use ml_monitor.Monitoring.Store.{Json, Prediction, PredictionRow, SqliteStore, recent_predictions}
use ml_monitor.Monitoring.Aggregator.{
  Bucket, Aggregate, bucket_seconds, bucket_or_new, one_if_some, add_row, fill, result_of,
  starts_before, aggregate,
}

module _ (fl : Floats) {V : Type 0} (numbers_of : V → List fl.Float) where
  -- The sum of the counts of the results.
  abbrev pub total : List (Aggregate fl numbers_of) → ℕ
  total [] = 0
  total (r ∷ rs) = r.count + total rs

  -- The rows with a label.
  unfoldable pub total_labeled : List (Aggregate fl numbers_of) → ℕ
  total_labeled [] = 0
  total_labeled (r ∷ rs) = r.labeled + total_labeled rs

  unfoldable pub labeled_rows : List (Prediction V) → ℕ
  labeled_rows [] = 0
  labeled_rows (p ∷ ps) = one_if_some fl numbers_of p.label + labeled_rows ps

  -- Any sum over the buckets, of which `count` and `labeled` are two.
  unfoldable pub sum_of : (Bucket fl numbers_of → ℕ) → Dict ℕ (Bucket fl numbers_of) → ℕ
  sum_of f [] = 0
  sum_of f ((k, b) ∷ d) = f b + sum_of f d

  sum_of-put :
      (f : Bucket fl numbers_of → ℕ) (k : ℕ) (b : Bucket fl numbers_of)
      (d : Dict ℕ (Bucket fl numbers_of))
      → f (bucket_or_new fl numbers_of none) ≡ 0
      → sum_of f (put k b d) + f (bucket_or_new fl numbers_of (get k d)) ≡ f b + sum_of f d
  unfolding sum_of put get bucket_or_new
  sum_of-put f k b [] zero_new = ground (arith, zero_new)
  sum_of-put f k b ((j, c) ∷ d) zero_new = ground (arith, sum_of-put f k b d zero_new)

  sum_of-insert_sorted :
      (f : Bucket fl numbers_of → ℕ) (x : ℕ × Bucket fl numbers_of)
      (d : Dict ℕ (Bucket fl numbers_of))
      → sum_of f (insert_sorted (starts_before fl numbers_of) x d) ≡ f x.1 + sum_of f d
  unfolding sum_of insert_sorted
  sum_of-insert_sorted f x [] = refl
  sum_of-insert_sorted f x (y ∷ d) = ground (arith, sum_of-insert_sorted f x d)

  sum_of-sort_by :
      (f : Bucket fl numbers_of → ℕ) (d : Dict ℕ (Bucket fl numbers_of))
      → sum_of f (sort_by (starts_before fl numbers_of) d) ≡ sum_of f d
  unfolding sum_of sort_by
  sum_of-sort_by f [] = refl
  sum_of-sort_by f (x ∷ d) = ground (
    arith,
    sum_of-insert_sorted f x (sort_by (starts_before fl numbers_of) d),
    sum_of-sort_by f d,
  )

  fill_lem :
      (size : ℕ) (rows : List (Prediction V)) (d : Dict ℕ (Bucket fl numbers_of))
      → (sum_of (λ b. b.count) (fill fl numbers_of size rows d)
          ≡ length rows + sum_of (λ b. b.count) d)
        × (sum_of (λ b. b.labeled) (fill fl numbers_of size rows d)
            ≡ labeled_rows rows + sum_of (λ b. b.labeled) d)
  unfolding fill labeled_rows add_row bucket_or_new
  fill_lem size [] d = (omega arith, omega arith)
  fill_lem size (row ∷ rows) d =
      let key = row.timestamp / size * size in
      let b = add_row fl numbers_of row (bucket_or_new fl numbers_of (get key d)) in
      let (counts, labels) = fill_lem size rows (put key b d) in
      (
        omega (arith, counts, sum_of-put (λ b. b.count) key b d refl),
        omega (arith, labels, sum_of-put (λ b. b.labeled) key b d refl),
      )

  total-results :
      (d : Dict ℕ (Bucket fl numbers_of))
      → (total (map (result_of fl numbers_of) d) ≡ sum_of (λ b. b.count) d)
        × (total_labeled (map (result_of fl numbers_of) d) ≡ sum_of (λ b. b.labeled) d)
  unfolding sum_of result_of total_labeled
  total-results [] = (refl, refl)
  total-results (x ∷ d) = ground (arith, total-results d)

  -- With a known granularity `aggregate` returns, the counts of its buckets add up to the number of
  -- rows that `recent_predictions` gives for the hours asked for, and the `labeled` fields to the
  -- number of those rows that have a label.
  pub aggregate-total :
      (json : Json V) (order_desc : List PredictionRow → List PredictionRow) (now : ℕ)
      (store : SqliteStore) (granularity : String) (hours size : ℕ)
      → bucket_seconds granularity ≡ some size
      → let rows =
          recent_predictions json order_desc 1_000_000 (some (now - hours * 3_600)) store in
        (result : List (Aggregate fl numbers_of)) × (aggregate fl numbers_of json order_desc now
            store granularity hours
          ≡ some result)
        × (total result ≡ length rows)
        × (total_labeled result ≡ labeled_rows rows)
  unfolding aggregate sum_of
  aggregate-total json order_desc now store granularity hours size known =
      let rows = recent_predictions json order_desc 1_000_000 (some (now - hours * 3_600)) store in
      let d = fill fl numbers_of size rows [] in
      let sorted = sort_by (starts_before fl numbers_of) d in
      let (counts, labels) = total-results sorted in
      let (filled, labeled) = fill_lem size rows [] in
      (
        map (result_of fl numbers_of) sorted,
        ground (arith, known),
        omega (arith, counts, sum_of-sort_by (λ b. b.count) d, filled),
        omega (arith, labels, sum_of-sort_by (λ b. b.labeled) d, labeled),
      )

-- ===== src/Monitoring/Concept/Adwin.antt =====
-- The class `ADWIN` of src/ml_platform/monitoring/detectors/concept_drift.py. Row i of the histogram
-- holds buckets of size 2^i; `none` is the IndexError that `_compress` raises if no bucket may stay
-- in a row.
pub mod Histogram
pub mod Order
use ml_monitor.Prelude.{
  ℕ, zero, suc, ◌+◌, ◌-◌, ◌*◌, Bool, true, false, Option, none, some, List, [], ◌∷◌, ◌++◌, length,
  leb, ltb, if◌then◌else◌, Floats,
}

-- A bucket of values of type `T`, which is `float` in the program.
pub record Bucket (T : Type 0) : Type 0 where
  pub count : ℕ
  pub total : T
  pub variance : T

abbrev pub Rows : Type 0 → Type 0
Rows T = List (List (Bucket T))

module _ {T : Type 0} (zero_T : T) (plus : T → T → T) where
  abbrev pub single : T → Bucket T
  single value = record { count = 1; total = value; variance = zero_T }

  abbrev pub merge : Bucket T → Bucket T → Bucket T
  merge a b = record {
    count = a.count + b.count;
    total = plus a.total b.total;
    variance = plus a.variance b.variance;
  }

  -- The loop of `_compress`, at a row and the rows after it.
  unfoldable pub compress : ℕ → List (Bucket T) → Rows T → Option (Rows T)
  compress max_buckets row [] = if leb (length row) max_buckets then some (row ∷ []) else elim row [
    | [] ↦ none
    | a ∷ more ↦ elim more [
      | [] ↦ none
      | b ∷ rest ↦ if leb 1 max_buckets then some (rest ∷ (merge a b ∷ []) ∷ []) else none
    ]
  ]
  compress max_buckets row (next ∷ rows) =
      if leb (length row) max_buckets then some (row ∷ next ∷ rows) else elim row [
        | [] ↦ none
        | a ∷ more ↦ elim more [
          | [] ↦ none
          | b ∷ rest ↦ elim (compress max_buckets (next ++ merge a b ∷ []) rows) [
            | none ↦ none
            | some rows' ↦ some (rest ∷ rows')
          ]
        ]
      ]

  -- `_insert`, on the rows.
  unfoldable pub insert : ℕ → T → Rows T → Option (Rows T)
  unfolding compress
  insert max_buckets value [] = none
  insert max_buckets value (row ∷ rows) = compress max_buckets (row ++ single value ∷ []) rows

  -- `_flat_buckets`
  unfoldable pub flat : Rows T → List (Bucket T)
  flat [] = []
  flat (row ∷ rows) = row ++ flat rows

  -- The inner loop of `_drop_oldest`: what remains to be dropped, and the row.
  unfoldable pub drop_row : ℕ → List (Bucket T) → ℕ × List (Bucket T)
  drop_row remaining [] = (remaining, [])
  drop_row remaining (b ∷ row) =
      let rest = drop_row (remaining - b.count) row in
      if leb remaining 0
      then (remaining, b ∷ row)
      else if leb b.count remaining
      then rest
      else (remaining, row)

  unfoldable pub drop_oldest : ℕ → Rows T → Rows T
  unfolding drop_row
  drop_oldest remaining [] = []
  drop_oldest remaining (row ∷ rows) =
      let (remaining', row') = drop_row remaining row in row' ∷ drop_oldest remaining' rows

abbrev pub counts : {T : Type 0} → List (Bucket T) → ℕ
counts [] = 0
counts (b ∷ bs) = b.count + counts bs

module _ (fl : Floats) where
  open fl use {Float, ratio, add, sub, mul, div, lt, fabs, sqrt, log}

  pub record Adwin : Type 0 where
    pub delta : Float
    pub max_buckets : ℕ
    pub buckets : Rows Float
    pub width : ℕ
    pub total : Float
    pub variance : Float
    pub drift_detected : Bool
    pub n_seen : ℕ

  unfoldable pub init : Float → ℕ → Adwin
  init delta max_buckets = record {
    delta = delta;
    max_buckets = max_buckets;
    buckets = [] ∷ [];
    width = 0;
    total = ratio 0 1;
    variance = ratio 0 1;
    drift_detected = false;
    n_seen = 0;
  }

  -- `sum(b.total for b in buckets)`
  unfoldable pub sum_totals : Float → List (Bucket Float) → Float
  sum_totals acc [] = acc
  sum_totals acc (b ∷ bs) = sum_totals (add acc b.total) bs

  -- The test at one cut point.
  unfoldable pub is_cut : Float → ℕ → Float → ℕ → Float → Bool
  is_cut delta n_total total_sum n0 sum0 =
      let n1 = n_total - n0 in
      let mean0 = div sum0 (ratio n0 1) in
      let mean1 = div (sub total_sum sum0) (ratio n1 1) in
      let m = div (ratio 1 1) (add (div (ratio 1 1) (ratio n0 1)) (div (ratio 1 1) (ratio n1 1))) in
      let eps_cut =
        sqrt (mul (div (ratio 2 1) m) (log (div (mul (ratio 4 1) (ratio n_total 1)) delta))) in
      lt eps_cut (fabs (sub mean0 mean1))

  -- The loop over `buckets[:-1]`: the size of the part before the first cut that passes the test.
  unfoldable pub find_cut : Float → ℕ → Float → ℕ → Float → List (Bucket Float) → Option ℕ
  unfolding is_cut
  find_cut delta n_total total_sum n0 sum0 [] = none
  find_cut delta n_total total_sum n0 sum0 (b ∷ []) = none
  find_cut delta n_total total_sum n0 sum0 (b ∷ b' ∷ bs) =
      let n0' = n0 + b.count in
      let sum0' = add sum0 b.total in
      let rest = find_cut delta n_total total_sum n0' sum0' (b' ∷ bs) in
      if ltb n0' 1
      then rest
      else if ltb (n_total - n0') 1
      then rest
      else if is_cut delta n_total total_sum n0' sum0'
      then some n0'
      else rest

  -- `update`; `none` is an exception of `_insert`.
  unfoldable pub update : Adwin → Float → Option (Bool × Adwin)
  unfolding insert flat drop_oldest sum_totals find_cut
  update d value = elim (insert (ratio 0 1) add d.max_buckets value d.buckets) [
    | none ↦ none
    | some rows ↦
        let buckets = flat (ratio 0 1) add rows in
        let n_total = counts buckets in
        let cut = find_cut d.delta n_total (sum_totals (ratio 0 1) buckets) 0 (ratio 0 1) buckets in
        let drift : Bool = elim cut [ none ↦ false | some n0 ↦ true ] in
        let rows' : Rows Float = elim cut [
          | none ↦ rows
          | some n0 ↦ drop_oldest (ratio 0 1) add n0 rows
        ] in
        some (
          drift,
          record d {
            n_seen = d.n_seen + 1;
            drift_detected = drift;
            buckets = rows';
            width = counts (flat (ratio 0 1) add rows');
            total = sum_totals (ratio 0 1) (flat (ratio 0 1) add rows');
          },
        )
  ]

-- ===== src/Samples/Numbers.antt =====
-- numpy, scipy, pandas and json over natural numbers as values.
use ml_monitor.Prelude.{ℕ, true, false, List, map, length, select, ◌==◌, nat_eq, string_eq}
use ml_monitor.Monitoring.DataDrift.{Column, Numerics}
use ml_monitor.Samples.Fixed.{Fixed, fixed_ratio, fixed_mean}

abbrev pub numerics : Numerics Fixed ℕ
numerics = record {
  as_floats = map (λ n. fixed_ratio n 1);
  ks_2samp = λ xs ys. (fixed_ratio 1 2, fixed_ratio 1 100);
  chi2_contingency = λ xs ys. (fixed_ratio 0 1, fixed_ratio 1 1);
  wasserstein_distance = λ xs ys. fixed_ratio 1 4;
  std = λ xs. fixed_ratio 1 1;
  mean = fixed_mean;
  categories = λ xs ys. xs;
  count_of = λ x xs. length (select (λ y. y == x) xs);
  quantile_edges = λ xs n. xs;
  even_edges = λ xs n. xs;
  open_ends = λ xs. xs;
  histogram = λ xs edges. map (λ e. 1) edges;
}

abbrev pub column_of : List ℕ → Column ℕ
column_of values = record { values = values; is_numeric = true; is_bool = false }

-- ===== src/Monitoring/DataDrift.antt =====
-- src/ml_platform/monitoring/detectors/data_drift.py and prediction_drift.py: the tests on one
-- feature and the report over all of them. numpy, scipy and pandas are an interface.
pub mod Laws
use ml_monitor.Prelude.{
  ℕ, ◌+◌, String, Bool, true, false, not, ◌&&◌, ◌||◌, Option, none, some, List, [], ◌∷◌, map, any,
  length, leb, ltb, ◌==◌, string_eq, Eq, if◌then◌else◌, select, Floats,
}
use ml_monitor.Prelude.Dict.{Dict}

pub data Severity : Type 0 where
  info warning critical : Severity

-- A column of values, and what pandas says of its dtype.
pub record Column (V : Type 0) : Type 0 where
  pub values : List V
  pub is_numeric : Bool
  pub is_bool : Bool

pub record TestResult (Float : Type 0) : Type 0 where
  pub statistic : Float
  pub p_value : Option Float
  pub drift_score : Float

pub record FeatureDrift (Float : Type 0) : Type 0 where
  pub statistic : Float
  pub p_value : Option Float
  pub drift_score : Float
  pub is_drifted : Bool
  pub severity : Option Severity
  pub method : String

-- What the detectors call of numpy, scipy and pandas.
pub record Numerics (Float V : Type 0) : Type 0 where
  pub as_floats : List V → List Float
  pub ks_2samp : List Float → List Float → Float × Float
  pub chi2_contingency : List Float → List Float → Float × Float
  pub wasserstein_distance : List Float → List Float → Float
  pub std : List Float → Float
  pub mean : List Float → Float
  -- The values of both columns in the order of their texts, without repetition.
  pub categories : List V → List V → List V
  -- `value_counts()` at a value
  pub count_of : V → List V → ℕ
  -- `np.unique(np.quantile(values, np.linspace(0, 1, bins + 1)))`
  pub quantile_edges : List Float → ℕ → List Float
  -- `np.linspace(min, max + 1e-9, bins + 1)`
  pub even_edges : List Float → ℕ → List Float
  -- The edges with the first and the last made infinite.
  pub open_ends : List Float → List Float
  pub histogram : List Float → List Float → List ℕ

pub data DriftError : Type 0 where
  value_error : DriftError

pub data Checked (A : Type 0) : Type 0 where
  ok : A → Checked A
  raise : DriftError → Checked A

abbrev pub sum : List ℕ → ℕ
sum [] = 0
sum (x ∷ xs) = x + sum xs

module _ (fl : Floats) {V : Type 0} (np : Numerics fl.Float V) where
  open fl use {Float, ratio, add, sub, mul, div, lt, le, log, fabs}

  -- The loop over SEVERITY_BANDS.
  unfoldable pub severity_for_score : Float → Option Severity
  severity_for_score score =
      if le (ratio 3 10) score
      then some critical
      else if le (ratio 2 10) score
      then some warning
      else if le (ratio 1 10) score
      then some info
      else none

  unfoldable pub is_categorical : Column V → Bool
  is_categorical c = not c.is_numeric || c.is_bool

  unfoldable pub ks_test : Column V → Column V → TestResult Float
  ks_test reference current =
      let (statistic, p_value) =
        np.ks_2samp (np.as_floats reference.values) (np.as_floats current.values) in
      record { statistic = statistic; p_value = some p_value; drift_score = statistic }

  unfoldable pub chi2_test : Column V → Column V → TestResult Float
  chi2_test reference current =
      let categories = np.categories reference.values current.values in
      let ref_counts = map (λ c. np.count_of c reference.values) categories in
      let cur_counts = map (λ c. np.count_of c current.values) categories in
      if ltb (length categories) 2 || leb (sum ref_counts) 0 || leb (sum cur_counts) 0
      then record { statistic = ratio 0 1; p_value = some (ratio 1 1); drift_score = ratio 0 1 }
      else (let cell = λ (n : ℕ). add (ratio n 1) (ratio 1 1_000_000_000) in
          let (statistic, p_value) =
            np.chi2_contingency (map cell ref_counts) (map cell cur_counts) in
          record {
            statistic = statistic;
            p_value = some p_value;
            drift_score = sub (ratio 1 1) p_value;
          })

  unfoldable pub wasserstein : Column V → Column V → TestResult Float
  wasserstein reference current =
      let distance =
        np.wasserstein_distance (np.as_floats reference.values) (np.as_floats current.values) in
      let scale = add (np.std (np.as_floats reference.values)) (ratio 1 1_000_000_000) in
      record { statistic = distance; p_value = none; drift_score = div distance scale }

  -- `counts / max(counts.sum(), 1) + 1e-6`
  abbrev pub shares : List ℕ → List Float
  shares counts =
      let total = if leb (sum counts) 0 then ratio 1 1 else ratio (sum counts) 1 in
      map (λ n. add (div (ratio n 1) total) (ratio 1 1_000_000)) counts

  -- `np.sum((cur - ref) * np.log(cur / ref))`
  unfoldable pub psi_sum : Float → List Float → List Float → Float
  psi_sum acc [] cur = acc
  psi_sum acc (r ∷ ref) [] = acc
  psi_sum acc (r ∷ ref) (c ∷ cur) = psi_sum (add acc (mul (sub c r) (log (div c r)))) ref cur

  -- The counts of reference and current, by category or by bin.
  unfoldable pub psi_counts : Column V → Column V → ℕ → List ℕ × List ℕ
  psi_counts reference current bins =
      if is_categorical reference
      then (let categories = np.categories reference.values current.values in
          (
            map (λ c. np.count_of c reference.values) categories,
            map (λ c. np.count_of c current.values) categories,
          ))
      else (let ref_vals = np.as_floats reference.values in
          let cur_vals = np.as_floats current.values in
          let quantiles = np.quantile_edges ref_vals bins in
          let edges =
            np.open_ends
              (if ltb (length quantiles) 3 then np.even_edges ref_vals bins else quantiles) in
          (np.histogram ref_vals edges, np.histogram cur_vals edges))

  unfoldable pub psi : Column V → Column V → ℕ → TestResult Float
  unfolding psi_counts psi_sum is_categorical
  psi reference current bins =
      let (ref_counts, cur_counts) = psi_counts reference current bins in
      let value = psi_sum (ratio 0 1) (shares ref_counts) (shares cur_counts) in
      record { statistic = value; p_value = none; drift_score = value }

  -- The `if`/`elif` over the method.
  unfoldable pub run_test : String → Column V → Column V → Checked (TestResult Float)
  run_test method reference current =
      if method == "ks"
      then ok (ks_test reference current)
      else if method == "chi2"
      then ok (chi2_test reference current)
      else if method == "wasserstein"
      then ok (wasserstein reference current)
      else if method == "psi"
      then ok (psi reference current 10)
      else raise value_error

  -- The verdict on the result of a test.
  unfoldable pub verdict : String → Float → TestResult Float → FeatureDrift Float
  unfolding severity_for_score
  verdict method drift_threshold r = record {
    statistic = r.statistic;
    p_value = r.p_value;
    drift_score = r.drift_score;
    is_drifted = elim r.p_value [
      | some p ↦ lt p drift_threshold
      | none ↦ le (ratio 1 10) r.drift_score
    ];
    severity = severity_for_score r.drift_score;
    method = method;
  }

  unfoldable pub detect_feature_drift :
      Column V → Column V → String → String → Float → Checked (FeatureDrift Float)
  unfolding verdict
  detect_feature_drift reference current numerical_method categorical_method drift_threshold =
      let method = if is_categorical reference then categorical_method else numerical_method in
      elim (run_test method reference current) [
        | raise e ↦ raise e
        | ok r ↦ ok (verdict method drift_threshold r)
      ]

-- A data frame: its columns by name.
abbrev pub Frame : Type 0 → Type 0
Frame V = List (String × Column V)

abbrev pub column : {V : Type 0} → String → Frame V → Option (Column V)
column name [] = none
column name ((n, c) ∷ df) = if n == name then some c else column name df

module _ (fl : Floats) {V : Type 0} (np : Numerics fl.Float V) where
  open fl use {Float}

  -- The loop of `detect_data_drift` over the reference's columns.
  unfoldable pub detect_data_drift :
      Frame V → Frame V → String → String → Float → Checked (Dict String (FeatureDrift Float))
  detect_data_drift [] current_df num cat threshold = ok []
  detect_data_drift ((name, reference) ∷ reference_df) current_df num cat threshold =
      let rest = detect_data_drift reference_df current_df num cat threshold in
      elim (column name current_df) [
        | none ↦ rest
        | some current ↦
            if leb (length current.values) 0
            then rest
            else elim (detect_feature_drift fl np reference current num cat threshold) [
              | raise e ↦ raise e
              | ok drift ↦ elim rest [
                | raise e ↦ raise e
                | ok results ↦ ok ((name, drift) ∷ results)
              ]
            ]
      ]

  pub record PredictionDrift : Type 0 where
    pub statistic : Float
    pub drift_score : Float
    pub is_drifted : Bool
    pub severity : Option Severity
    pub reference_mean : Float
    pub current_mean : Float
    pub mean_shift_pct : Float
    pub mean_shifted : Bool

  -- prediction_drift.py, over two columns of floats.
  unfoldable pub detect_prediction_drift : Column V → Column V → ℕ → Float → PredictionDrift
  detect_prediction_drift reference current bins mean_shift_threshold =
      let psi_result = psi fl np reference current bins in
      let ref_mean = np.mean (np.as_floats reference.values) in
      let cur_mean = np.mean (np.as_floats current.values) in
      let denom =
        if fl.lt (fl.ratio 1 1_000_000_000) (fl.fabs ref_mean)
        then fl.fabs ref_mean
        else fl.ratio 1 1 in
      let mean_shift_pct = fl.div (fl.sub cur_mean ref_mean) denom in
      let mean_shifted = fl.lt mean_shift_threshold (fl.fabs mean_shift_pct) in
      record {
        statistic = psi_result.statistic;
        drift_score = psi_result.drift_score;
        is_drifted = fl.le (fl.ratio 1 10) psi_result.drift_score || mean_shifted;
        severity = severity_for_score fl np psi_result.drift_score;
        reference_mean = ref_mean;
        current_mean = cur_mean;
        mean_shift_pct = mean_shift_pct;
        mean_shifted = mean_shifted;
      }

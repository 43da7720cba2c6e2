-- ===== src/Features/Schema.antt =====
-- The gates of an ingest: src/ml_platform/features/registry/validator.py and
-- src/ml_platform/features/quality/validator.py. The order in which Python sorts or prints a set of names
-- is not modelled: an error carries its names in the order of the columns.
pub mod Laws
use ml_monitor.Prelude.{
  ℕ, ◌+◌, String, Bool, true, false, not, ◌&&◌, Option, none, some, List, [], ◌∷◌, ◌++◌, map, any,
  select, length, leb, ltb, ◌==◌, string_eq, if◌then◌else◌, Floats,
}
use ml_monitor.Prelude.Dict.{Dict, get}
use ml_monitor.Features.Registry.{Feature}
use ml_monitor.Features.Frame.{Frame, Row, is_in}

abbrev pub required_cols : List String
required_cols = "entity_id" ∷ "event_timestamp" ∷ []

pub data SchemaError : Type 0 where
  missing_required : List String → SchemaError
  -- missing registered features and unregistered columns
  mismatch : List String → List String → SchemaError

-- `xs - ys` on sets of names
abbrev pub without : List String → List String → List String
without ys xs = select (λ x. not (is_in ys x)) xs

-- `none` is that nothing is raised.
unfoldable pub validate_schema : List String → List Feature → Option SchemaError
validate_schema columns features =
    let registered = map (λ (f : Feature). f.name) features in
    let given = without required_cols columns in
    let absent_required = without columns required_cols in
    if ltb 0 (length absent_required)
    then some (missing_required absent_required)
    else (let missing = without given registered in
        let unknown = without registered given in
        if leb (length missing + length unknown) 0 then none else some (mismatch missing unknown))

-- What `check_quality` asks of pandas.
pub record Dtypes (V : Type 0) : Type 0 where
  pub is_na : V → Bool
  pub is_integer : List V → Bool
  pub is_float : List V → Bool
  pub is_bool : List V → Bool
  pub is_object : List V → Bool

pub data Problem : Type 0 where
  null_rate dtype_mismatch : String → Problem

module _ (fl : Floats) {V : Type 0} (pd : Dtypes V) where
  open fl use {Float, ratio, div, lt}

  -- `_DTYPE_CHECKS.get(dtype)`
  unfoldable pub dtype_check : String → Option (List V → Bool)
  dtype_check dtype =
      if dtype == "int32"
      then some pd.is_integer
      else if dtype == "int64"
      then some pd.is_integer
      else if dtype == "float32"
      then some pd.is_float
      else if dtype == "float64"
      then some pd.is_float
      else if dtype == "bool"
      then some pd.is_bool
      else if dtype == "string"
      then some pd.is_object
      else none

  -- `float(col.isna().mean()) if len(col) else 0.0`
  abbrev pub rate_of_null : List V → Float
  rate_of_null col =
      if leb (length col) 0
      then ratio 0 1
      else div (ratio (length (select pd.is_na col)) 1) (ratio (length col) 1)

  unfoldable pub check_feature : (String → Option (List V)) → Feature → List Problem
  unfolding dtype_check
  check_feature df f = elim (df f.name) [
    | none ↦ []
    | some col ↦
        let non_null = select (λ v. not (pd.is_na v)) col in
        let nulls : List Problem =
          if lt (ratio 20 100) (rate_of_null col) then null_rate f.name ∷ [] else [] in
        let types : List Problem = elim (dtype_check f.dtype) [
          | none ↦ []
          | some checker ↦
              if ltb 0 (length non_null) && not (checker non_null)
              then dtype_mismatch f.name ∷ []
              else []
        ] in
        nulls ++ types
  ]

  -- The problems; DataQualityError is raised if there is any.
  unfoldable pub check_quality : (String → Option (List V)) → List Feature → List Problem
  unfolding check_feature
  check_quality df [] = []
  check_quality df (f ∷ features) = check_feature df f ++ check_quality df features

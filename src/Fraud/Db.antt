-- ===== src/Fraud/Db.antt =====
-- src/ml_platform/fraud/api/db.py: the table of scored transactions, in order of insertion. Times
-- are seconds. The order of rows under ORDER BY is an argument, since SQL leaves ties open; the
-- connection pool is not modelled.
pub mod Laws
use ml_monitor.Prelude.{
  ℕ, ◌+◌, ◌*◌, ◌≤◌, String, Bool, true, false, List, [], ◌∷◌, ◌++◌, map, any, select, take, length,
  leb, ◌==◌, string_eq, if◌then◌else◌, Floats,
}

pub record ScoredRow (Float : Type 0) : Type 0 where
  pub transaction_id : String
  pub user_id : String
  pub amount : Float
  pub merchant_category : String
  pub fraud_score : Float
  pub is_fraud : Bool
  pub shap_explanation : List (String × Float)
  pub scored_at : ℕ

pub record Stats (Float : Type 0) : Type 0 where
  pub transaction_count : ℕ
  pub fraud_count : ℕ
  pub fraud_rate : Float
  pub avg_score : Float

-- INSERT ... ON CONFLICT (transaction_id) DO NOTHING; the row carries the time of the insertion.
unfoldable pub insert_score :
    {Float : Type 0} → ScoredRow Float → List (ScoredRow Float) → List (ScoredRow Float)
insert_score row table =
    if any (λ (r : ScoredRow _). r.transaction_id == row.transaction_id) table
    then table
    else table ++ row ∷ []

module _ (fl : Floats) (avg : List fl.Float → fl.Float) where
  open fl use {Float, ratio, div}

  -- `scored_at >= now() - minutes`
  abbrev pub is_recent : ℕ → ℕ → ScoredRow Float → Bool
  is_recent now minutes r = leb now (r.scored_at + minutes * 60)

  unfoldable pub stats_last : ℕ → ℕ → List (ScoredRow Float) → Stats Float
  stats_last now minutes table =
      let rows = select (is_recent now minutes) table in
      let count = length rows in
      let fraud_count = length (select (λ (r : ScoredRow Float). r.is_fraud) rows) in
      record {
        transaction_count = count;
        fraud_count = fraud_count;
        fraud_rate = if leb count 0 then ratio 0 1 else div (ratio fraud_count 1) (ratio count 1);
        avg_score =
            if leb count 0
            then ratio 0 1
            else avg (map (λ (r : ScoredRow Float). r.fraud_score) rows);
      }

-- `fetch_recent`: the rows in descending order of time, at most `limit` of them.
unfoldable pub fetch_recent : {Row : Type 0} → (List Row → List Row) → ℕ → List Row → List Row
fetch_recent order limit table = take limit (order table)

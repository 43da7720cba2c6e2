-- ===== src/Fraud/Service.antt =====
-- The scoring service: POST /score of src/ml_platform/fraud/api/main.py and the Kafka consumer of
-- src/ml_platform/fraud/scorer/stream_consumer.py, over the scorer, the table and the counters of
-- src/ml_platform/fraud/api/metrics.py. Log messages and latencies are not modelled; the database
-- accepts or refuses a write as the argument `db_up` says.
pub mod Laws
use ml_monitor.Prelude.{
  ℕ, ◌+◌, String, Bool, true, false, Option, none, some, List, [], ◌∷◌, if◌then◌else◌, Floats,
}
use ml_monitor.Fraud.Features.{Transaction}
use ml_monitor.Fraud.Redis.{RedisClient}
use ml_monitor.Fraud.Scorer.{Bundle, ScoreResult, score}
use ml_monitor.Fraud.Db.{ScoredRow, insert_score}

-- The counters for one source, "http" or "stream".
pub record Counters : Type 0 where
  pub ok_requests : ℕ
  pub error_requests : ℕ
  pub fraud_flagged : ℕ

pub record Metrics : Type 0 where
  pub http : Counters
  pub stream : Counters
  pub db_insert_failures : ℕ

abbrev pub count_ok : Counters → Counters
count_ok m = record m { ok_requests = m.ok_requests + 1 }

abbrev pub count_error : Counters → Counters
count_error m = record m { error_requests = m.error_requests + 1 }

abbrev pub count_flagged : Bool → Counters → Counters
count_flagged is_fraud m = if is_fraud then record m { fraud_flagged = m.fraud_flagged + 1 } else m

-- A transaction as a request holds it.
pub record Message (Float : Type 0) : Type 0 where
  pub transaction_id : String
  pub transaction : Transaction Float

-- The JSON value of a Kafka record. A field is `none` where it is missing; the transaction is `none` if
-- one of its fields is missing or of a type that the features refuse.
pub data StreamValue (Float : Type 0) : Type 0 where
  dict : Option String → Option (Transaction Float) → StreamValue Float
  not_a_dict : StreamValue Float

-- A record with what it meets: the time, and whether Redis and the database answer.
pub record Delivery (Float : Type 0) : Type 0 where
  pub redis_up : Bool
  pub db_up : Bool
  pub now : ℕ
  pub value : StreamValue Float

pub data Response (Float : Type 0) : Type 0 where
  scored : String → ScoreResult Float → Response Float
  scoring_failed : Response Float

module _ (fl : Floats) (m : Bundle fl.Float) (r : RedisClient fl.Float) (ttl_sec : ℕ) where
  open fl use {Float}

  pub record Service : Type 0 where
    pub redis : r.State
    pub table : List (ScoredRow Float)
    pub metrics : Metrics

  abbrev pub row_of : ℕ → Message Float → ScoreResult Float → ScoredRow Float
  row_of now msg result = record {
    transaction_id = msg.transaction_id;
    user_id = msg.transaction.user_id;
    amount = msg.transaction.amount;
    merchant_category = msg.transaction.merchant_category;
    fraud_score = result.fraud_score;
    is_fraud = result.is_fraud;
    shap_explanation = result.shap_explanation;
    scored_at = now;
  }

  -- The handler `score`: a failed write is counted, and the caller gets the score all the same.
  unfoldable pub handle_score : Bool → ℕ → Message Float → Service → Response Float × Service
  handle_score db_up now msg s = elim (score fl m r ttl_sec now msg.transaction s.redis) [
    | none ↦ (
      scoring_failed,
      record s { metrics = record (s.metrics) { http = count_error s.metrics.http } },
    )
    | some (result, redis') ↦
        let counted = count_flagged result.is_fraud (count_ok s.metrics.http) in
        (
          scored msg.transaction_id result,
          record {
            redis = redis';
            table = if db_up then insert_score (row_of now msg result) s.table else s.table;
            metrics = record {
              http = counted;
              stream = s.metrics.stream;
              db_insert_failures =
                  if db_up then s.metrics.db_insert_failures else s.metrics.db_insert_failures + 1;
            };
          },
        )
  ]

  abbrev stream_error : Service → Service
  stream_error s = record s {
    metrics = record (s.metrics) { stream = count_error s.metrics.stream };
  }

  -- What stands after the score in the `try`: the write, whose fields are read first.
  unfoldable pub store_result :
      Bool → ℕ → Option String → Transaction Float → ScoreResult Float → Service → Service
  store_result db_up now none tx result s = stream_error s
  store_result db_up now (some transaction_id) tx result s =
      let msg : Message Float = record { transaction_id = transaction_id; transaction = tx } in
      if db_up
      then record s { table = insert_score (row_of now msg result) s.table }
      else stream_error s

  -- The body of the innermost loop of `run_stream_consumer`, and whether it ends: for what is not a
  -- dict `tx.get` raises in the `except` clause.
  unfoldable pub consume : Delivery Float → Service → Bool × Service
  unfolding store_result
  consume d s = elim (d.value) [
    | not_a_dict ↦ (false, stream_error s)
    | dict transaction_id none ↦ (true, stream_error s)
    | dict transaction_id (some tx) ↦
        let result : Option (ScoreResult Float × r.State) =
          if d.redis_up then score fl m r ttl_sec d.now tx s.redis else none in
        elim result [
          | none ↦ (true, stream_error s)
          | some (result, redis') ↦
              let counted = count_flagged result.is_fraud (count_ok s.metrics.stream) in
              (
                true,
                store_result d.db_up d.now transaction_id tx result (record {
                  redis = redis';
                  table = s.table;
                  metrics = record (s.metrics) { stream = counted };
                }),
              )
        ]
  ]

  -- The loop over the records of a batch, and whether the consumer lives on; every record whose body
  -- ends is followed by one call of `on_message`, which is counted here.
  unfoldable pub consume_all : List (Delivery Float) → Service × ℕ → Bool × (Service × ℕ)
  consume_all [] s = (true, s)
  consume_all (d ∷ batch) (s, noted) =
      let (ended, s') = consume d s in
      elim ended [ true ↦ consume_all batch (s', noted + 1) | false ↦ (false, (s', noted)) ]

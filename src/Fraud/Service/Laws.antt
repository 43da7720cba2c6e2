-- ===== src/Fraud/Service/Laws.antt =====
-- What one request and a batch of stream records do to the counters, the table and the history.
use ml_monitor.Prelude.{
  ℕ, ◌+◌, ◌≡◌, Bool, true, false, refl, not, ◌&&◌, Bool-cases, inl, inr, none, some, List, [], ◌∷◌,
  arith, if◌then◌else◌, length, Floats,
}
use ml_monitor.Fraud.Redis.{RedisClient, get_history, update}
use ml_monitor.Fraud.Features.{Transaction}
use ml_monitor.Fraud.Scorer.{Bundle, assess, score}
use ml_monitor.Fraud.Vector.{features_to_vector-compute_features, vector}
use ml_monitor.Fraud.Service.{
  Message, Service, StreamValue, Delivery, dict, not_a_dict, handle_score, consume, consume_all,
}

abbrev pub bit : Bool → ℕ
bit true = 1
bit false = 0

module _ (fl : Floats) (m : Bundle fl.Float) (r : RedisClient fl.Float) (ttl : ℕ) where
  open fl use {Float}

  -- A request and a failing database: the answer and the recorded history do not depend on whether
  -- the write succeeds; a failed write leaves the table as it was and is counted, once; and every
  -- request counts once, as ok or as an error.
  pub handle_score-db_up :
      (now : ℕ) (msg : Message Float) (s : Service fl m r ttl)
      → let (answer, up) = handle_score fl m r ttl true now msg s in
        let (answer', down) = handle_score fl m r ttl false now msg s in
        (answer ≡ answer')
        × (up.redis ≡ down.redis)
        × (up.metrics.http ≡ down.metrics.http)
        × (down.table ≡ s.table)
        × (down.metrics.db_insert_failures + down.metrics.http.error_requests
            ≡ s.metrics.db_insert_failures + s.metrics.http.error_requests + 1)
        × (up.metrics.db_insert_failures ≡ s.metrics.db_insert_failures)
        × (up.metrics.http.ok_requests + up.metrics.http.error_requests
            ≡ s.metrics.http.ok_requests + s.metrics.http.error_requests + 1)
  unfolding handle_score
  handle_score-db_up now msg s = ground arith

  score_lem :
      (now : ℕ) (tx : Transaction Float) (s : r.State)
      → score fl m r ttl now tx s
        ≡ some (
          assess fl m (vector fl tx (get_history fl r ttl now tx.user_id s)),
          update fl r ttl now tx.user_id tx.amount tx.device_id s,
        )
  unfolding score
  score_lem now tx s =
      rw (features_to_vector-compute_features fl tx (get_history fl r ttl now tx.user_id s), score)

  -- A record that is scored, and one whose row is stored.
  abbrev pub is_scored : Delivery Float → Bool
  is_scored d = d.redis_up && is_known d.value
    where
      is_known : StreamValue Float → Bool
      is_known not_a_dict = false
      is_known (dict transaction_id none) = false
      is_known (dict transaction_id (some tx)) = true

  abbrev pub is_stored : Delivery Float → Bool
  is_stored d = is_scored d && (d.db_up && has_id d.value)
    where
      has_id : StreamValue Float → Bool
      has_id not_a_dict = false
      has_id (dict none tx) = false
      has_id (dict (some transaction_id) tx) = true

  abbrev pub is_dict : Delivery Float → Bool
  is_dict d = test d.value
    where
      test : StreamValue Float → Bool
      test not_a_dict = false
      test (dict transaction_id tx) = true

  -- The records before the first that is no dict.
  abbrev pub readable : List (Delivery Float) → List (Delivery Float)
  readable [] = []
  readable (d ∷ batch) = if is_dict d then d ∷ readable batch else []

  abbrev pub count : (Delivery Float → Bool) → List (Delivery Float) → ℕ
  count p [] = 0
  count p (d ∷ batch) = bit (p d) + count p batch

  abbrev pub all_dicts : List (Delivery Float) → Bool
  all_dicts [] = true
  all_dicts (d ∷ batch) = is_dict d && all_dicts batch

  -- One record, of a value.
  consume-counts :
      (value : StreamValue Float) (d : Delivery Float) (s : Service fl m r ttl)
      → d.value ≡ value
      → let (ended, s') = consume fl m r ttl d s in
        (ended ≡ is_dict d)
        × (s'.metrics.stream.ok_requests ≡ s.metrics.stream.ok_requests + bit (is_scored d))
        × (s'.metrics.stream.error_requests
            ≡ s.metrics.stream.error_requests + bit (not (is_stored d)))
        × (s'.metrics.db_insert_failures ≡ s.metrics.db_insert_failures)
        × (s'.metrics.http ≡ s.metrics.http)
  unfolding consume
  consume-counts not_a_dict d s h = ground (arith, h)
  consume-counts (dict transaction_id none) d s h = ground (arith, h)
  consume-counts (dict none (some tx)) d s h = ground (arith, h, score_lem d.now tx s.redis)
  consume-counts (dict (some transaction_id) (some tx)) d s h =
      ground (arith, h, score_lem d.now tx s.redis)

  -- A batch of stream records. The consumer lives on exactly if all of them are dicts; `on_message` is
  -- called once for each record before the first that is no dict. Of these, those with a full
  -- transaction that come while Redis answers are counted as ok, and those that are not stored are
  -- counted as errors: a scored record with a failing write or without an id is counted as both. The record
  -- that kills the consumer is counted as an error. No insert failure is counted, and no http request.
  pub consume_all-counts :
      (batch : List (Delivery Float)) (s : Service fl m r ttl) (noted : ℕ)
      → let (lives, (s', noted')) = consume_all fl m r ttl batch (s, noted) in
        (lives ≡ all_dicts batch)
        × (noted' ≡ noted + length (readable batch))
        × (s'.metrics.stream.ok_requests
            ≡ s.metrics.stream.ok_requests + count is_scored (readable batch))
        × (s'.metrics.stream.error_requests
            ≡ s.metrics.stream.error_requests
              + count (λ d. not (is_stored d)) (readable batch)
              + bit (not (all_dicts batch)))
        × (s'.metrics.db_insert_failures ≡ s.metrics.db_insert_failures)
        × (s'.metrics.http ≡ s.metrics.http)
  unfolding consume_all
  consume_all-counts [] s noted = ground arith
  consume_all-counts (d ∷ batch) s noted =
      let s' : Service fl m r ttl = (consume fl m r ttl d s).1 in
      elim (Bool-cases (is_dict d)) [
        | inl readable_value ↦ ground (
          arith,
          readable_value,
          consume-counts d.value d s refl,
          consume_all-counts batch s' (noted + 1),
        )
        | inr dead ↦ ground (arith, dead, consume-counts d.value d s refl)
      ]

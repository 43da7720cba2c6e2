-- ===== src/Fraud/Tests.antt =====
-- The theorems on the fraud service, each applied to concrete values.
use ml_monitor.Prelude.{
  ℕ, ◌≡◌, refl, true, false, not, ◌&&◌, ◌||◌, Option, none, some, List, [], ◌∷◌, ◌++◌, arith, map,
  length, string_eq, nat_eq, if◌then◌else◌, select, ltb, ◌+◌,
}
use ml_monitor.Samples.Fixed.{Fixed, fixed, fixed_ratio}
use ml_monitor.Samples.Servers.{redis, redis_laws, empty_memory, counter, counter_up}
use ml_monitor.Fraud.Features.{Transaction}
use ml_monitor.Fraud.Redis.{get_history}
use ml_monitor.Fraud.Scorer.{Bundle, assess}
use ml_monitor.Fraud.Training.{build_feature_matrix}
use ml_monitor.Fraud.Skew.Stream.{Event, labelled, serve, serve-build_feature_matrix}
use ml_monitor.Fraud.Trigger.{Trigger, ok, observe}
use ml_monitor.Fraud.Trigger.Streak.{
  Step, window, restart, run, windows, fresh, decide, observe-decide,
}
use ml_monitor.Fraud.Watch.{Backends, posted, is_posted, is_raised, run_once}
use ml_monitor.Fraud.Watch.Laws.{
  is_alert, is_recovery, is_latest_html, is_latest_json, is_failed, bit, run_once_lem,
}
use ml_monitor.Fraud.RateLimiter.Laws.{check_all, verdicts, check_all-verdicts}
use ml_monitor.Fraud.Service.{
  Service, Message, StreamValue, Delivery, dict, not_a_dict, Counters, handle_score, consume_all,
}
use ml_monitor.Fraud.Service.Laws.{handle_score-db_up, consume_all-counts}

abbrev tx : Transaction Fixed
tx = record {
  user_id = "u1";
  amount = fixed_ratio 25 2;
  hour = 3;
  user_age_days = 40;
  merchant_category = "fuel";
  device_id = "d1";
}

abbrev bundle : Bundle Fixed
bundle = record {
  predict_proba = λ x. fixed_ratio 1 2;
  score_samples = λ x. fixed_ratio 1 4;
  transform = λ x. x;
  shap_values = λ x. x;
  xgb_weight = fixed_ratio 1 2;
  threshold = fixed_ratio 1 2;
}

abbrev stream : List (Event Fixed)
stream = (tx, 0, 10) ∷ (tx, 1, 20) ∷ []

serve-build_feature_matrix_example :
    (xs : List (List Fixed)) × (ys : List ℕ) × (build_feature_matrix fixed (map labelled stream)
      ≡ some (xs, ys))
    × (serve fixed bundle redis 100 stream empty_memory ≡ some (map (assess fixed bundle) xs))
unfolding get_history
serve-build_feature_matrix_example =
    serve-build_feature_matrix fixed bundle redis 100 redis_laws stream empty_memory (λ u t. refl)
      (tt, ((omega arith, omega arith), tt))

abbrev share : Option Fixed
share = some (fixed_ratio 1 2)

abbrev steps : List (Step fixed (fixed_ratio 3 10) 2)
steps = window share ∷ restart ∷ []

observe-decide_example :
    (t : Trigger fixed) × (run fixed (fixed_ratio 3 10) 2 steps (fresh fixed (fixed_ratio 3 10) 2)
      ≡ ok t)
    × ((observe fixed t share).1
        ≡ decide fixed (fixed_ratio 3 10) 2 (windows fixed (fixed_ratio 3 10) 2 steps []) share)
observe-decide_example = observe-decide fixed (fixed_ratio 3 10) 2 (omega arith) steps share

abbrev backends : Backends Fixed ℕ ℕ
backends = record {
  evidently = λ rows. some (length rows);
  dataset_drift = λ r. some true;
  drift_share = λ r. share;
  fraud_rate = λ rows. fixed_ratio 1 10;
  avg_score = λ rows. fixed_ratio 1 5;
  ml_monitor = λ rows. none;
  slack = λ now. posted;
}

abbrev trigger : Trigger fixed
trigger = fresh fixed (fixed_ratio 3 10) 1

abbrev ten : List ℕ
ten = 1 ∷ 2 ∷ 3 ∷ 4 ∷ 5 ∷ 6 ∷ 7 ∷ 8 ∷ 9 ∷ 10 ∷ []

run_once_lem_example :
    let recent = ten ++ ten ++ ten in
    let few = ltb (length recent) 30 in
    let (trigger', decision) = observe fixed trigger (backends.drift_share 30) in
    let recovery = not decision.should_alert && decision.recovered in
    let raised = (decision.should_alert || recovery) && is_raised (backends.slack 5) in
    let (after, outcome, effects) = run_once fixed backends 5 recent (some trigger) in
    (after ≡ some (if few then trigger else trigger'))
    × (length (select is_latest_html effects) ≡ bit (not few))
    × (length (select is_alert effects)
        ≡ bit (not few && decision.should_alert && is_posted (backends.slack 5)))
    × (length (select is_recovery effects)
        ≡ bit (not few && recovery && is_posted (backends.slack 5)))
    × (is_failed fixed backends outcome ≡ (not few && raised))
    × (length (select is_latest_json effects) ≡ bit (not few && not raised))
    × ((if few then length effects else 0) ≡ 0)
run_once_lem_example = run_once_lem fixed backends 5 (ten ++ ten ++ ten) trigger 30 refl

check_all-verdicts_example :
    check_all counter 1 ((3, "k") ∷ (70, "k") ∷ (80, "k") ∷ []) (λ b. 0)
    ≡ verdicts counter 1 [] ((3, "k") ∷ (70, "k") ∷ (80, "k") ∷ [])
check_all-verdicts_example =
    check_all-verdicts counter 1 counter_up (omega arith) ((3, "k") ∷ (70, "k") ∷ (80, "k") ∷ [])
      (λ b. 0) (λ t b. refl) (omega arith, (omega arith, (omega arith, tt)))

abbrev zero_counters : Counters
zero_counters = record { ok_requests = 0; error_requests = 0; fraud_flagged = 0 }

abbrev service : Service fixed bundle redis 100
service = record {
  redis = empty_memory;
  table = [];
  metrics = record { http = zero_counters; stream = zero_counters; db_insert_failures = 0 };
}

abbrev message : Message Fixed
message = record { transaction_id = "t1"; transaction = tx }

handle_score-db_up_example :
    let (answer, up) = handle_score fixed bundle redis 100 true 10 message service in
    let (answer', down) = handle_score fixed bundle redis 100 false 10 message service in
    (answer ≡ answer')
    × (up.redis ≡ down.redis)
    × (up.metrics.http ≡ down.metrics.http)
    × (down.table ≡ service.table)
    × (down.metrics.db_insert_failures + down.metrics.http.error_requests
        ≡ service.metrics.db_insert_failures + service.metrics.http.error_requests + 1)
    × (up.metrics.db_insert_failures ≡ service.metrics.db_insert_failures)
    × (up.metrics.http.ok_requests + up.metrics.http.error_requests
        ≡ service.metrics.http.ok_requests + service.metrics.http.error_requests + 1)
handle_score-db_up_example = handle_score-db_up fixed bundle redis 100 10 message service

abbrev delivery : StreamValue Fixed → Delivery Fixed
delivery value = record { redis_up = true; db_up = true; now = 10; value = value }

abbrev batch : List (Delivery Fixed)
batch =
    delivery (dict (some "t1") (some tx))
    ∷ delivery (dict none (some tx))
    ∷ delivery not_a_dict
    ∷ delivery (dict (some "t2") (some tx))
    ∷ []

consume_all-counts_example :
    let (lives, (s', noted')) = consume_all fixed bundle redis 100 batch (service, 0) in
    (lives ≡ false)
    × (noted' ≡ 2)
    × (s'.metrics.stream.ok_requests ≡ 2)
    × (s'.metrics.stream.error_requests ≡ 2)
    × (s'.metrics.db_insert_failures ≡ 0)
    × (s'.metrics.http ≡ service.metrics.http)
consume_all-counts_example = consume_all-counts fixed bundle redis 100 batch service 0

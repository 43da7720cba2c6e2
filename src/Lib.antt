-- ===== src/Lib.antt =====
-- ml_platform: drift monitoring, a feature store and a fraud scoring service in one Python package. The
-- paths below are from the repository's root, under src/ml_platform.
--
-- The fraud service (fraud/) scores transactions with two models over features of a user's history. The
-- history lives in Redis online and is replayed from rows in training. The API checks a key and a rate
-- limit, records each score in a table, and a monitor process compares recent rows with the training
-- reference and alerts through a trigger that survives restarts.
--   Fraud.Features    common/features.py: window_stats, compute_features, features_to_vector
--   Fraud.Redis       scorer/redis_store.py: get_history, update
--   Fraud.Scorer      scorer/model.py: score
--   Fraud.Training    training/train.py: build_feature_matrix, and in Fraud.Training.Main the rest of it
--   Fraud.Registry    common/registry.py, and the constructor of FraudScorer in scorer/model.py
--   Fraud.Vector, Fraud.Skew, Fraud.Skew.Stream: the features and the two histories compared
--   Fraud.Trigger     monitor/alerting.py: DriftTrigger, with the streaks in Fraud.Trigger.Streak
--   Fraud.Watch       monitor/main.py: run_once, with how send_slack of monitor/alerting.py ends
--   Fraud.Reports     the loop of monitor/main.py, and the reading endpoints of api/main.py
--   Fraud.Keys, Fraud.Text, Fraud.RateLimiter   api/security.py: _load_keys, require_api_key, RateLimiter
--   Fraud.Backend     monitor/ml_monitor_backend.py: run_once
--   Fraud.Db          api/db.py: insert_score, stats_last, fetch_recent
--   Fraud.Service     api/main.py: score; scorer/stream_consumer.py; the counters of api/metrics.py
-- The monitoring package (monitoring/) keeps a window and a log of predictions, computes drift reports on
-- demand, and alerts with a cooldown for each key.
--   Monitoring.Window       core/window_manager.py
--   Monitoring.Dedup        alerts/deduplicator.py
--   Monitoring.Concept      detectors/concept_drift.py: Ddm, PageHinkley, Adwin, Detect
--   Monitoring.DataDrift    detectors/data_drift.py and detectors/prediction_drift.py
--   Monitoring.Correlation  detectors/correlation_drift.py
--   Monitoring.Report       core/report.py
--   Monitoring.Store        store/sqlite_store.py
--   Monitoring.Aggregator   store/aggregator.py
--   Monitoring.Monitor      core/monitor.py: _fire_alerts, and in Monitoring.Monitor.Drift the class;
--                           Monitoring.Monitor.Drift.Open is the constructor with its defaults, and
--                           Monitoring.Monitor.Cooldown is about reports that come twice
--   Monitoring.Api          api.py: the routes over one monitor
--   Monitoring.Cli          cli.py: report, status
-- The feature store (features/) registers groups of features, gates what is ingested, and serves it.
--   Features.Registry     registry/registry.py
--   Features.Schema       registry/validator.py and quality/validator.py
--   Features.Online       stores/online/sqlite_store.py
--   Features.Store        core/feature_store.py and stores/offline/parquet_store.py, over Features.Frame
--                         Features.Store.Serving is its serving and discovery half, with the base class
--                         of the offline stores
--   Features.RedisOnline  stores/online/redis_store.py; Agreement compares it with Features.Online
--   Features.Duckdb       stores/offline/duckdb_store.py
--   Features.Config       core/config.py and the choice of the stores in core/feature_store.py
--   Features.Api          api.py: the routes and their errors
--   Features.Cli          cli.py: the commands as their output and exit
--   Features.Materialize  materialization/materializer.py
--   Features.Stats        registry/stats.py and quality/profiler.py
--   Features.GroupDrift   quality/drift_detector.py
--   Features.PitJoin      core/pit_join.py
-- The reference pipeline ties the three together: history is ingested as a feature group of the fraud
-- features, a monitor is built from it, and live rows are scored against it.
--   Pipeline            pipeline.py
--   Pipeline.Reference  monitoring/adapters/featurestore.py
-- Prelude holds what the modules share: tests on numbers, lists, dictionaries, sorting, equality, and the
-- interface Floats. Samples and the Tests modules hold concrete values for the theorems.
--
-- Conventions. A function of the source keeps its name without the leading underscore. A Python exception
-- is a constructor of a result type, or none where a comment says so. A float is of an abstract type with
-- the operations that the code calls; a law of floats that a theorem needs is a hypothesis. Times are
-- natural numbers of seconds, and a difference of times is written as a sum on the other side
-- (in aggregate it stops at 0, before which no row is). Redis,
-- PostgreSQL's and SQLite's orders of rows, numpy, scipy, pandas, Evidently and the fitted models are
-- arguments. The loop of materialize runs on fuel, one unit for each record, since every batch
-- takes at least one; nothing else needs fuel. What leaves a process is a list of effects. An
-- error value of detect_concept_drift is a natural number, and the sizes are such that its float is finite.
--
-- Not modelled: the parsing of arguments and of HTTP, the dashboard, the adapters of model libraries, data
-- generation, the producer, text formatting (HTML, Slack tables, JSON of a report), the metrics that the
-- training prints and logs, connection pools, threads, startup and shutdown.
pub mod Prelude
pub mod Fraud
pub mod Monitoring
pub mod Features
pub mod Pipeline
pub mod Samples

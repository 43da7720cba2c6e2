-- ===== src/Monitoring/Store.antt =====
-- src/ml_platform/monitoring/store/sqlite_store.py: the tables of predictions and alerts. A table is
-- its rows in the order of insertion with the next AUTOINCREMENT id; `json` and the order that SQLite
-- gives rows of one timestamp are arguments. Times are seconds of the clock.
pub mod Laws
use ml_monitor.Prelude.{
  ℕ, ◌+◌, ◌*◌, String, Bool, true, false, not, Option, none, some, List, [], ◌∷◌, ◌++◌, map, length,
  ltb, leb, select, take, if◌then◌else◌,
}
use mathlib.Core.List.{reverse}

-- `json.dumps(v, default=str)` and `json.loads`.
pub record Json (V : Type 0) : Type 0 where
  pub dumps : V → String
  pub loads : String → V

pub record PredictionRow : Type 0 where
  pub id : ℕ
  pub timestamp : ℕ
  pub features : String
  pub prediction : String
  pub label : Option String
  pub drift_scores : Option String

pub record AlertRow : Type 0 where
  pub id : ℕ
  pub timestamp : ℕ
  pub feature : Option String
  pub severity : String
  pub message : String
  pub drift_type : String

pub record SqliteStore : Type 0 where
  pub retention_days : ℕ
  pub predictions : List PredictionRow
  pub next_prediction : ℕ
  pub alerts : List AlertRow
  pub next_alert : ℕ

-- The row as `_row_to_dict` gives it back.
pub record Prediction (V : Type 0) : Type 0 where
  pub id : ℕ
  pub timestamp : ℕ
  pub features : V
  pub prediction : V
  pub label : Option V
  pub drift_scores : Option V

abbrev pub map_option : {A B : Type 0} → (A → B) → Option A → Option B
map_option f none = none
map_option f (some a) = some (f a)

-- `WHERE timestamp >= since`, when a `since` is given.
abbrev pub is_since : Option ℕ → ℕ → Bool
is_since none timestamp = true
is_since (some since) timestamp = leb since timestamp

-- `timestamp < now - days * 86400`, without the subtraction.
abbrev pub is_expired : ℕ → ℕ → ℕ → Bool
is_expired now days timestamp = ltb (timestamp + days * 86_400) now

unfoldable pub init : ℕ → SqliteStore
init retention_days = record {
  retention_days = retention_days;
  predictions = [];
  next_prediction = 1;
  alerts = [];
  next_alert = 1;
}

unfoldable pub log_alert :
    String → String → String → Option String → ℕ → SqliteStore → ℕ × SqliteStore
log_alert severity message drift_type feature timestamp s = (
  s.next_alert,
  record s {
    alerts =
        s.alerts
        ++ record {
          id = s.next_alert;
          timestamp = timestamp;
          feature = feature;
          severity = severity;
          message = message;
          drift_type = drift_type;
        }
          ∷ [];
    next_alert = s.next_alert + 1;
  },
)

unfoldable pub recent_alerts :
    (List AlertRow → List AlertRow) → ℕ → Option ℕ → SqliteStore → List AlertRow
recent_alerts order_desc limit since s =
    take limit (order_desc (select (λ (r : AlertRow). is_since since r.timestamp) s.alerts))

unfoldable pub count : SqliteStore → ℕ
count s = length s.predictions

-- `rowcount` is of the first DELETE: it counts the predictions.
unfoldable pub purge_old : Option ℕ → ℕ → SqliteStore → ℕ × SqliteStore
purge_old retention_days now s =
    let days : ℕ = elim retention_days [ none ↦ s.retention_days | some days ↦ days ] in
    (
      length (select (λ (r : PredictionRow). is_expired now days r.timestamp) s.predictions),
      record s {
        predictions =
            select (λ (r : PredictionRow). not (is_expired now days r.timestamp)) s.predictions;
        alerts = select (λ (r : AlertRow). not (is_expired now days r.timestamp)) s.alerts;
      },
    )

module _ {V : Type 0} (json : Json V) where
  unfoldable pub log_prediction : V → V → Option V → Option V → ℕ → SqliteStore → ℕ × SqliteStore
  log_prediction features prediction label drift_scores timestamp s = (
    s.next_prediction,
    record s {
      predictions =
          s.predictions
          ++ record {
            id = s.next_prediction;
            timestamp = timestamp;
            features = json.dumps features;
            prediction = json.dumps prediction;
            label = map_option json.dumps label;
            drift_scores = map_option json.dumps drift_scores;
          }
            ∷ [];
      next_prediction = s.next_prediction + 1;
    },
  )

  unfoldable pub row_to_dict : PredictionRow → Prediction V
  row_to_dict r = record {
    id = r.id;
    timestamp = r.timestamp;
    features = json.loads r.features;
    prediction = json.loads r.prediction;
    label = map_option json.loads r.label;
    drift_scores = map_option json.loads r.drift_scores;
  }

  unfoldable pub recent_predictions :
      (List PredictionRow → List PredictionRow) → ℕ → Option ℕ → SqliteStore → List (Prediction V)
  unfolding row_to_dict
  recent_predictions order_desc limit since s = reverse (
      map row_to_dict (
        take limit
          (order_desc (select (λ (r : PredictionRow). is_since since r.timestamp) s.predictions))))

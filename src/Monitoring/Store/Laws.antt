-- ===== src/Monitoring/Store/Laws.antt =====
-- The prediction log of sqlite_store.py reads back what was logged, and a purge removes exactly the
-- expired rows.
use ml_monitor.Prelude.{
  ℕ, ◌+◌, ◌<◌, ◌≡◌, refl, sym, ap, ◌∙◌, Bool, true, not, Option, none, some, List, [], ◌∷◌, ◌++◌,
  map, length, take, take_last, reverse-take, map-take_last, map-reverse, select, All, arith,
  Bool-cases, inl, inr,
}
use mathlib.Core.List.{reverse, reverse-reverse, append_assoc, append-nil}
use ml_monitor.Monitoring.Store.{
  Json, PredictionRow, AlertRow, SqliteStore, Prediction, map_option, is_expired, init,
  log_prediction, row_to_dict, recent_predictions, count, purge_old,
}

select-all : {A : Type 0} (xs : List A) → select (λ x. true) xs ≡ xs
select-all [] = refl
select-all (x ∷ xs) = ap (◌∷◌ x) (select-all xs)

-- The arguments of one `log_prediction`.
pub record Entry (V : Type 0) : Type 0 where
  pub features : V
  pub prediction : V
  pub label : Option V
  pub drift_scores : Option V
  pub timestamp : ℕ

-- Each timestamp is later than the one before it.
abbrev pub IsRising : List ℕ → Type 0
IsRising [] = Unit
IsRising (t ∷ []) = Unit
IsRising (t ∷ u ∷ ts) = (t < u) × IsRising (u ∷ ts)

abbrev pub row_times : List PredictionRow → List ℕ
row_times rows = map (λ (r : PredictionRow). r.timestamp) rows

-- ORDER BY timestamp DESC turns round rows that were inserted in the order of distinct timestamps.
abbrev pub IsOrderDesc : (List PredictionRow → List PredictionRow) → Type 0
IsOrderDesc order_desc =
    (rows : List PredictionRow) → IsRising (row_times rows) → order_desc rows ≡ reverse rows

module _ {V : Type 0} (json : Json V) where
  abbrev pub entry_times : List (Entry V) → List ℕ
  entry_times entries = map (λ (e : Entry V). e.timestamp) entries

  unfoldable pub log_all : List (Entry V) → SqliteStore → SqliteStore
  log_all [] s = s
  log_all (e ∷ entries) s =
      log_all entries
        (log_prediction json e.features e.prediction e.label e.drift_scores e.timestamp s).1

  -- What was logged, with ids counted from `i`.
  abbrev pub numbered : ℕ → List (Entry V) → List (Prediction V)
  numbered i [] = []
  numbered i (e ∷ entries) =
      record {
        id = i;
        timestamp = e.timestamp;
        features = e.features;
        prediction = e.prediction;
        label = e.label;
        drift_scores = e.drift_scores;
      }
      ∷ numbered (i + 1) entries

  abbrev rows : ℕ → List (Entry V) → List PredictionRow
  rows i [] = []
  rows i (e ∷ entries) =
      record {
        id = i;
        timestamp = e.timestamp;
        features = json.dumps e.features;
        prediction = json.dumps e.prediction;
        label = map_option json.dumps e.label;
        drift_scores = map_option json.dumps e.drift_scores;
      }
      ∷ rows (i + 1) entries

  predictions-log_all :
      (entries : List (Entry V)) (s : SqliteStore)
      → (log_all entries s).predictions ≡ s.predictions ++ rows s.next_prediction entries
  unfolding log_all log_prediction
  predictions-log_all [] s = sym (append-nil s.predictions)
  predictions-log_all (e ∷ entries) s =
      predictions-log_all entries
        (log_prediction json e.features e.prediction e.label e.drift_scores e.timestamp s).1
      ∙ append_assoc s.predictions (_ ∷ []) (rows (s.next_prediction + 1) entries)

  row_times-rows :
      (i : ℕ) (entries : List (Entry V)) → row_times (rows i entries) ≡ entry_times entries
  row_times-rows i [] = refl
  row_times-rows i (e ∷ entries) = ap (◌∷◌ e.timestamp) (row_times-rows (i + 1) entries)

  module _ (loads-dumps : (v : V) → json.loads (json.dumps v) ≡ v) where
    map_option-loads : (o : Option V) → map_option json.loads (map_option json.dumps o) ≡ o
    map_option-loads none = refl
    map_option-loads (some v) = ap some (loads-dumps v)

    map-rows :
        (i : ℕ) (entries : List (Entry V))
        → map (row_to_dict json) (rows i entries) ≡ numbered i entries
    unfolding row_to_dict
    map-rows i [] = refl
    map-rows i (e ∷ entries) =
        rw
          (
            loads-dumps e.features,
            loads-dumps e.prediction,
            map_option-loads e.label,
            map_option-loads e.drift_scores,
            map-rows (i + 1) entries,
          )
          refl

    -- If `json` reads back what it writes and SQLite orders rows of distinct timestamps, then after any
    -- entries were logged to a new store, in the order of their times, `recent_predictions` gives the
    -- last `limit` of them, oldest first, with ids counted from 1 and every value as it was logged.
    pub recent_predictions-log_all :
        (order_desc : List PredictionRow → List PredictionRow)
        → IsOrderDesc order_desc
        → (limit days : ℕ) (entries : List (Entry V)) → IsRising (entry_times entries)
        → recent_predictions json order_desc limit none (log_all entries (init days))
          ≡ take_last limit (numbered 1 entries)
    unfolding recent_predictions init
    recent_predictions-log_all order_desc ordered limit days entries rising =
        let all : List PredictionRow = rows 1 entries in
        let stored : select (λ (r : PredictionRow). true) (log_all entries (init days)).predictions
            ≡ all =
          select-all _ ∙ predictions-log_all entries (init days) in
        let desc : order_desc all ≡ reverse all =
          ordered all (rw (row_times-rows 1 entries) rising) in
        ap (λ rs. reverse (map (row_to_dict json) (take limit (order_desc rs)))) stored
        ∙ ap (λ rs. reverse (map (row_to_dict json) (take limit rs))) desc
        ∙ sym (map-reverse (row_to_dict json) (take limit (reverse all)))
        ∙ ap (map (row_to_dict json)) (reverse-take limit (reverse all))
        ∙ ap (λ rs. map (row_to_dict json) (take_last limit rs)) (reverse-reverse all)
        ∙ map-take_last (row_to_dict json) limit all
        ∙ ap (take_last limit) (map-rows 1 entries)

module _ {A : Type 0} where
  length-select-not :
      (p : A → Bool) (xs : List A)
      → length (select p xs) + length (select (λ x. not (p x)) xs) ≡ length xs
  length-select-not p [] = refl
  length-select-not p (x ∷ xs) = ground (arith, length-select-not p xs)

  All-select : (p : A → Bool) (xs : List A) → All (λ x. p x ≡ true) (select p xs)
  All-select p [] = tt
  All-select p (x ∷ xs) = elim (Bool-cases (p x)) [
    | inl holds ↦ rw holds (holds, All-select p xs)
    | inr fails ↦ rw fails (All-select p xs)
  ]

abbrev pub days_or : Option ℕ → ℕ → ℕ
days_or none days = days
days_or (some d) days = d

-- `purge_old` returns the number of predictions that it removed; no prediction and no alert older than
-- the retention is left, and the ids to come are not disturbed.
purge_old_lem :
    (retention_days : Option ℕ) (now : ℕ) (s : SqliteStore)
    → let (removed, s') = purge_old retention_days now s in
      let days = days_or retention_days s.retention_days in
      (removed + count s' ≡ count s)
      × All (λ (r : PredictionRow). not (is_expired now days r.timestamp) ≡ true) s'.predictions
      × All (λ (r : AlertRow). not (is_expired now days r.timestamp) ≡ true) s'.alerts
      × (s'.next_prediction ≡ s.next_prediction)
      × (s'.next_alert ≡ s.next_alert)
unfolding purge_old count
purge_old_lem none now s = (
  length-select-not _ s.predictions,
  All-select _ s.predictions,
  All-select _ s.alerts,
  refl,
  refl,
)
purge_old_lem (some days) now s = (
  length-select-not _ s.predictions,
  All-select _ s.predictions,
  All-select _ s.alerts,
  refl,
  refl,
)

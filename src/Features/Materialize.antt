-- ===== src/Features/Materialize.antt =====
-- src/ml_platform/features/materialization/materializer.py: from the offline to the online store, in
-- batches.
pub mod Laws
use ml_monitor.Prelude.{
  ℕ, zero, suc, ◌+◌, String, Bool, true, false, Option, none, some, List, [], ◌∷◌, map, length,
  take, drop, leb, if◌then◌else◌, Floats,
}
use ml_monitor.Features.Frame.{Row}
use ml_monitor.Features.Registry.{Group}
use ml_monitor.Features.Online.{OnlineRow, OnlineStore, write_batch}
use ml_monitor.Features.Store.{
  StoreError, not_registered, key_error, nothing_offline, bad_batch_size, Outcome, ok, raise,
  Libraries, FeatureStore, latest_per_entity, online_rows, feature_names, group_of, offline_read,
}

module _ (fl : Floats) {S V : Type 0} (lib : Libraries S V) where
  -- The loop over `range(0, len(records), batch_size)`, on fuel: the number of batches still to come
  -- is at most the number of records left. Batch i is written at the time `clock i`.
  unfoldable pub write_chunks :
      ℕ → Group → ℕ → (ℕ → ℕ) → ℕ → List (Row V) → ℕ → OnlineStore V → Outcome (ℕ × OnlineStore V)
  write_chunks zero g batch_size clock i records written s = ok (written, s)
  write_chunks (suc fuel) g batch_size clock i [] written s = ok (written, s)
  write_chunks (suc fuel) g batch_size clock i (r ∷ records) written s =
      elim (online_rows (feature_names g) (take batch_size (r ∷ records))) [
        | none ↦ raise key_error
        | some rows ↦
            write_chunks fuel g batch_size clock (i + 1) (drop batch_size (r ∷ records))
              (written + length rows) (write_batch g.name rows g.ttl_hours (clock i) s).1
      ]

  -- `range` raises on a step of 0, after the checks.
  unfoldable pub materialize :
      String → ℕ → (ℕ → ℕ) → FeatureStore fl lib → Outcome (ℕ × FeatureStore fl lib)
  unfolding write_chunks
  materialize name batch_size clock fs = elim (group_of fl lib name fs) [
    | none ↦ raise not_registered
    | some g ↦
        if g.offline
        then elim (offline_read fl lib name fs) [
          | [] ↦ ok (0, fs)
          | row ∷ history ↦
              if leb batch_size 0
              then raise bad_batch_size
              else (let records = latest_per_entity fl lib (row ∷ history) in
                  elim (write_chunks (length records) g batch_size clock 0 records 0 fs.online) [
                    | raise e ↦ raise e
                    | ok (written, online) ↦ ok (written, record fs { online = online })
                  ])
        ]
        else raise nothing_offline
  ]

-- ===== src/Features/RedisOnline/Tests.antt =====
-- The theorems on the Redis online store, each applied to concrete values.
use ml_monitor.Prelude.{ℕ, ◌≡◌, refl, arith, string_eq, ltb, ◌*◌, All, some, none, List, [], ◌∷◌}
use ml_monitor.Prelude.Dict.{get}
use ml_monitor.Samples.KeyValue.{server, packing, server-StoreLaws}
use ml_monitor.Features.Online as Sqlite
use ml_monitor.Features.Online.{OnlineRow, OnlineStore}
use ml_monitor.Features.Online.Read.{cell}
use ml_monitor.Features.RedisOnline.{Hours, seconds_of, RedisOnlineStore, read_batch, write_batch}
use ml_monitor.Features.RedisOnline.Laws.{get-read_batch-write_batch}
use ml_monitor.Features.RedisOnline.Agreement.{WholeHours, Gives, read_batch-Agrees}

abbrev rows : List (OnlineRow ℕ)
rows = ("u1", ("age", 3) ∷ []) ∷ ("u2", ("age", 8) ∷ []) ∷ ("u1", ("age", 4) ∷ []) ∷ []

abbrev hours : Hours ℕ
hours = record { is_set = λ h. ltb 0 h; whole_seconds = λ h. h * 3_600 }

abbrev whole_hours : WholeHours hours
whole_hours = record { whole = λ n. n; is_set_whole = λ n. refl; seconds_whole = λ n. refl }

abbrev redis : RedisOnlineStore server packing hours
redis = record { default_ttl_hours = 24; client = λ k. none }

abbrev sqlite : OnlineStore ℕ
sqlite = record { default_ttl_hours = 24; table = [] }

get-read_batch-write_batch_example :
    get "u1" (
      read_batch server packing hours "users"
        ("u1" ∷ [])
        3_000
        (write_batch server packing hours "users" rows (some 1) 100 redis).1)
    ≡ some (("age", 4) ∷ [])
unfolding seconds_of
get-read_batch-write_batch_example =
    get-read_batch-write_batch server packing hours server-StoreLaws "users" "u1" ("u1" ∷ []) rows
      (some 1) 100 3_000 redis (omega arith)

rows-Gives : All (Gives server packing hours server-StoreLaws "age") rows
unfolding get
rows-Gives = ((3, refl, refl), ((8, refl, refl), ((4, refl, refl), tt)))

read_batch-Agrees_example :
    cell {V = ℕ} "u1" "age" (
      read_batch server packing hours "users"
        ("u1" ∷ [])
        9_000
        (write_batch server packing hours "users" rows (some 1) 100 redis).1)
    ≡ cell {V = ℕ} "u1" "age" (
        Sqlite.read_batch
          (λ table. table)
          "users"
          ("u1" ∷ [])
          9_000
          (Sqlite.write_batch "users" rows (some 1) 100 sqlite).1)
unfolding get
read_batch-Agrees_example =
    read_batch-Agrees server packing hours server-StoreLaws (λ table. table)
      (λ table g unique same. (unique, same, λ k. refl)) whole_hours "users" "u1" "age" ("u1" ∷ [])
      rows (some 1) 24 100 9_000 (λ k. none) rows-Gives refl (omega arith) (omega arith)

-- ===== src/Pool/Examples.antt =====
-- The theorems at concrete pools and histories.
use ormpp.Base.{◌+◌, ◌≤◌, true, List, [], ◌∷◌, ◌≡◌, refl, length, replicate}
use ormpp.Pool.Async.Defs.{PoolOptions, Pool, init_done, Answer, init, resume, wait_time}
use ormpp.Pool.Async.Steps.{Event, init_called, get_called, resumed, fresh}
use ormpp.Pool.Async.Counts.{total, held, held_dynamic, run-counts}
use ormpp.Pool.Async.Ownership.{count, owns, run-one_owner}
use ormpp.Pool.Async.Init.{finish, init_fills}
use ormpp.Pool.Async.Steps as A
use ormpp.Pool.Sync as S
use ormpp.Pool.Sync.Size.{size, dead, run-init-size-le}

abbrev options : PoolOptions
options = record { enable_dynamic_expansion = true; max_dynamic_connections = 1 }

abbrev up : Answer
up = record { succeeds = true; now = 0 }

-- One connection is made; two clients ask for one each, and the second gets a dynamic one.
abbrev history : List Event
history =
    init_called 1
    ∷ resumed 0 up
    ∷ get_called 0 100
    ∷ resumed 0 up
    ∷ resumed 0 up
    ∷ resumed 0 up
    ∷ get_called 0 100
    ∷ resumed 0 up
    ∷ resumed 0 up
    ∷ resumed 0 up
    ∷ []

history_counts : (A.run history (fresh options)).0.in_use_count ≡ 2
unfolding A.run A.step A.resume_at fresh resume init
history_counts = refl

run-counts_example :
    let (p, ts) = A.run history (fresh options) in
    (p.in_use_count ≡ total held ts)
    × (p.dynamic_connection_count ≡ total held_dynamic ts)
    × (p.dynamic_connection_count ≤ options.max_dynamic_connections)
run-counts_example = run-counts options history

run-one_owner_example :
    let (p, ts) = A.run history (fresh options) in
    count 0 p.available_connections + total (owns 0) ts ≤ 1
run-one_owner_example = run-one_owner options history 0

init_fills_example :
    let (p, ts) = A.run (init_called 3 ∷ finish [] 3) (fresh options) in
    (p.initialized ≡ true)
    × (p.pool_size ≡ 3)
    × (length p.available_connections ≡ 3)
    × (ts ≡ init_done true ∷ [])
init_fills_example = init_fills options 2

waits : (wait_time 1 ≡ 50) × (wait_time 9 ≡ 400)
unfolding wait_time
waits = (refl, refl)

abbrev closing_pool : Pool
closing_pool = record {
  options = options;
  initialized = true;
  closing = true;
  pool_size = 1;
  in_use_count = 0;
  dynamic_connection_count = 0;
  available_connections = 0 ∷ [];
  next_connection = 1;
}

abbrev answering : S.Answers
answering = record { ping = true; connects = true; now = 0 }

run-init-size-le_example :
    size (
      S.run
        (S.gets answering ∷ S.gets dead ∷ S.returns 0 ∷ [])
        (S.init (replicate 2 true) S.new_pool).0)
    ≤ 2
run-init-size-le_example = run-init-size-le 2 (S.gets answering ∷ S.gets dead ∷ S.returns 0 ∷ [])

-- ===== src/Pool/Async/Steps.antt =====
-- Histories of the pool: calls by clients, and suspended tasks that go on in any order.
use ormpp.Base.{ℕ, zero, suc, ◌+◌, Bool, false, List, [], ◌∷◌, ◌++◌}
use ormpp.Pool.Async.Defs.{PoolOptions, Pool, Task, close_posted, Answer, get_test, init, resume}

abbrev pub System : Type 0
System = Pool × List Task

abbrev pub add_task : Task → System → System
add_task t (p, ts) = (p, t ∷ ts)

-- The n-th task goes on.
unfoldable pub resume_at : ℕ → Answer → Pool → List Task → System
resume_at n a p [] = (p, [])
resume_at zero a p (t ∷ ts) = let (q, out) = resume a p t in (q, out ++ ts)
resume_at (suc n) a p (t ∷ ts) = add_task t (resume_at n a p ts)

pub data Event : Type 0 where
  init_called : (pool_size : ℕ) → Event
  get_called : (now timeout : ℕ) → Event
  close_called : (wait_for_return : Bool) (max_wait : ℕ) → Event
  resumed : (n : ℕ) → Answer → Event

-- The constructor of the pool
unfoldable pub fresh : PoolOptions → System
fresh options = (
  record {
    options = options;
    initialized = false;
    closing = false;
    pool_size = 0;
    in_use_count = 0;
    dynamic_connection_count = 0;
    available_connections = [];
    next_connection = 0;
  },
  [],
)

unfoldable pub step : Event → System → System
step (init_called pool_size) (p, ts) = let (q, out) = init p pool_size in (q, out ++ ts)
step (get_called now timeout) (p, ts) = (p, get_test now (now + timeout) 0 ∷ ts)
step (close_called wait_for_return max_wait) (p, ts) =
    (p, close_posted wait_for_return max_wait ∷ ts)
step (resumed n a) (p, ts) = resume_at n a p ts

unfoldable pub run : List Event → System → System
run [] s = s
run (e ∷ es) s = run es (step e s)

-- ===== src/Pool/Async/Init.antt =====
-- What `init` reaches, alone and beside another call of `init`.
use ormpp.Base.{
  ℕ, zero, suc, ◌+◌, ◌<◌, ◌≤◌, ◌*◌, true, false, List, [], ◌∷◌, ◌++◌, length, length-append,
  replicate, ◌≡◌, refl, ap, ◌∙◌, arith,
}
use ormpp.Pool.Async.Defs.{
  PoolOptions, Pool, Task, init_connecting, init_done, Answer, init, init_test, resume,
}
use ormpp.Pool.Async.Steps.{
  System, add_task, resume_at, Event, init_called, resumed, fresh, step, run,
}

abbrev pub connected : Answer
connected = record { succeeds = true; now = 0 }

-- The pool once a run of `init` has opened `k` more connections.
record Filled (p q : Pool) (k : ℕ) : Type 0 where
  available : length q.available_connections ≡ length p.available_connections + k
  ready : q.initialized ≡ true
  size_kept : q.pool_size ≡ p.pool_size

resume_at-append :
    (before after : List Task) (t : Task) (a : Answer) (p : Pool)
    → resume_at (length before) a p (before ++ t ∷ after)
      ≡ ((resume a p t).0, before ++ ((resume a p t).1 ++ after))
unfolding resume_at
resume_at-append [] after t a p = refl
resume_at-append (b ∷ before) after t a p = ap (add_task b) (resume_at-append before after t a p)

abbrev pushed : Pool → ℕ → Pool
pushed p c = record p { available_connections = p.available_connections ++ c ∷ [] }

resume_more :
    (i c : ℕ) (p : Pool)
    → i + 1 < p.pool_size
    → resume connected p (init_connecting i c) ≡ (
      record (pushed p c) { next_connection = p.next_connection + 1 },
      init_connecting (i + 1) p.next_connection ∷ [],
    )
unfolding resume init_test
resume_more i c p h = ground arith

resume_last :
    (i c : ℕ) (p : Pool)
    → p.pool_size ≤ i + 1
    → resume connected p (init_connecting i c)
      ≡ (record (pushed p c) { initialized = true }, init_done true ∷ [])
unfolding resume init_test
resume_last i c p h = ground arith

abbrev RunsTo : List Task → List Task → Pool → ℕ → System → Type 0
RunsTo before after p k s = (q : Pool) × (s ≡ (q, before ++ init_done true ∷ after)) × Filled p q k

-- The events that let `init` run through its last `k` connections.
abbrev pub finish : List Task → ℕ → List Event
finish before k = replicate k (resumed (length before) connected)

fill :
    (k i c : ℕ) (before after : List Task) (p : Pool)
    → p.pool_size ≡ i + suc k
    → RunsTo before after p
        (suc k)
        (run (finish before (suc k)) (p, before ++ init_connecting i c ∷ after))
unfolding run step
fill zero i c before after p h =
    let q : Pool = record (pushed p c) { initialized = true } in
    (
      q,
      resume_at-append before after (init_connecting i c) connected p
          ∙ rw (resume_last i c p (omega arith)),
      record {
        available = length-append p.available_connections (c ∷ []);
        ready = refl;
        size_kept = refl;
      },
    )
fill (suc k) i c before after p h =
    let q : Pool = record (pushed p c) { next_connection = p.next_connection + 1 } in
    let (r, e, f) = fill k (i + 1) p.next_connection before after q (omega arith) in
    (
      r,
      ap (run (finish before (suc k))) (
            resume_at-append before after (init_connecting i c) connected p
            ∙ rw (resume_more i c p (omega arith)))
          ∙ e,
      record {
        available = omega (arith, f.available, length-append p.available_connections (c ∷ []));
        ready = f.ready;
        size_kept = f.size_kept;
      },
    )

run-append : (es fs : List Event) (s : System) → run (es ++ fs) s ≡ run fs (run es s)
unfolding run
run-append [] fs s = refl
run-append (e ∷ es) fs s = run-append es fs (step e s)

-- The pool behind the first suspensions of calls of `init`, which made `made` connections.
abbrev started : PoolOptions → ℕ → ℕ → Pool
started o n made = record {
  options = o;
  initialized = false;
  closing = false;
  pool_size = suc n;
  in_use_count = 0;
  dynamic_connection_count = 0;
  available_connections = [];
  next_connection = made;
}

module _ (o : PoolOptions) (n : ℕ) where
  first_call : step (init_called (suc n)) (fresh o) ≡ (started o n 1, init_connecting 0 0 ∷ [])
  unfolding step init init_test fresh
  first_call = ground arith

  second_call :
      step (init_called (suc n)) (started o n 1, init_connecting 0 0 ∷ [])
      ≡ (started o n 2, init_connecting 0 1 ∷ init_connecting 0 0 ∷ [])
  unfolding step init init_test
  second_call = ground arith

  call_once :
      (es : List Event)
      → run (init_called (suc n) ∷ es) (fresh o) ≡ run es (started o n 1, init_connecting 0 0 ∷ [])
  unfolding run
  call_once es = ap (run es) first_call

  call_twice :
      (es : List Event)
      → run (init_called (suc n) ∷ init_called (suc n) ∷ es) (fresh o)
        ≡ run es (started o n 2, init_connecting 0 1 ∷ init_connecting 0 0 ∷ [])
  unfolding run
  call_twice es = ap (run es) (ap (step (init_called (suc n))) first_call ∙ second_call)

-- One call of `init` on a new pool, whose connections all succeed, fills the pool: after its `n`
-- connections the pool is ready, and has `n` of them available.
pub init_fills :
    (o : PoolOptions) (n : ℕ)
    → let (p, ts) = run (init_called (suc n) ∷ finish [] (suc n)) (fresh o) in
      (p.initialized ≡ true)
      × (p.pool_size ≡ suc n)
      × (length p.available_connections ≡ suc n)
      × (ts ≡ init_done true ∷ [])
init_fills o n =
    let (q, e, f) = fill n 0 0 [] [] (started o n 1) (omega arith) in
    let all = call_once o n (finish [] (suc n)) ∙ e in
    rw all (f.ready, f.size_kept, f.available ∙ omega arith, refl)

-- `init` tests `initialized_` once, before it waits: two calls at the same time both go on, and fill
-- the pool with twice as many connections as its size.
init_twice :
    (o : PoolOptions) (n : ℕ)
    → let size = suc n in
      let calls = init_called size ∷ init_called size ∷ [] in
      let (p, ts) =
        run (calls ++ (finish [] size ++ finish (init_done true ∷ []) size)) (fresh o) in
      (p.initialized ≡ true) × (p.pool_size ≡ size) × (length p.available_connections ≡ 2 * size)
init_twice o n =
    let (q, e, f) = fill n 0 1 [] (init_connecting 0 0 ∷ []) (started o n 2) (omega arith) in
    let (r, d, g) = fill n 0 0 (init_done true ∷ []) [] q (f.size_kept ∙ omega arith) in
    let second = finish (init_done true ∷ []) (suc n) in
    let all =
      call_twice o n (finish [] (suc n) ++ second)
      ∙ run-append (finish [] (suc n)) second _
      ∙ ap (run second) e
      ∙ d in
    rw all (g.ready, g.size_kept ∙ f.size_kept, omega (arith, g.available, f.available))

-- ===== src/Pool/Async/Counts.antt =====
-- The counters of the pool against what the suspended tasks and the clients hold.
use ormpp.Base.{ℕ, zero, suc, ◌+◌, ◌≤◌, true, List, [], ◌∷◌, ◌++◌, ◌≡◌, refl, arith}
use ormpp.Pool.Async.Defs.{
  PoolOptions, Pool, Task, get_posted, get_pinging, get_connecting, get_dead, get_checked,
  dyn_connecting, dyn_failed, dyn_connected, lent, returning, Answer, get_take, init, resume,
}
use ormpp.Pool.Async.Steps.{
  System, resume_at, Event, init_called, get_called, close_called, resumed, fresh, step, run,
}

-- A task holds a connection that it took or opened for `get`, up to its return or its loss.
abbrev pub held : Task → ℕ
held (get_pinging d w c) = 1
held (get_connecting d w c) = 1
held (get_dead d w c) = 1
held (get_checked d w c) = 1
held (dyn_connecting d w c) = 1
held (dyn_failed d w c) = 1
held (dyn_connected d w c) = 1
held (lent c dynamic) = 1
held (returning c dynamic) = 1
held _ = 0

-- The same of a connection beyond the pool's size.
abbrev pub held_dynamic : Task → ℕ
held_dynamic (dyn_connecting d w c) = 1
held_dynamic (dyn_failed d w c) = 1
held_dynamic (dyn_connected d w c) = 1
held_dynamic (lent c true) = 1
held_dynamic (returning c true) = 1
held_dynamic _ = 0

abbrev pub total : (Task → ℕ) → List Task → ℕ
total f [] = 0
total f (t ∷ ts) = f t + total f ts

pub total-append : (f : Task → ℕ) (ts us : List Task) → total f (ts ++ us) ≡ total f ts + total f us
total-append f [] us = omega arith
total-append f (t ∷ ts) us = omega (arith, total-append f ts us)

-- The counters read `x` and `y`, the second within its limit.
pub record Reads (o : PoolOptions) (p : Pool) (x y : ℕ) : Type 0 where
  pub options_kept : p.options ≡ o
  pub in_use_is : p.in_use_count ≡ x
  pub dynamic_is : p.dynamic_connection_count ≡ y
  pub bounded : y ≤ o.max_dynamic_connections

-- The counters are what the tasks hold, those of the list and `x`, `y` elsewhere.
abbrev Fits : PoolOptions → Pool → List Task → ℕ → ℕ → Type 0
Fits o p ts x y = Reads o p (total held ts + x) (total held_dynamic ts + y)

get_take-Fits :
    (o : PoolOptions) (p : Pool) (now d w x y : ℕ) (l : List ℕ)
    → Reads o p x y
    → Fits o (get_take p l now d w).0 (get_take p l now d w).1 x y
unfolding get_take
get_take-Fits o p now d w x y [] h = ground arith
get_take-Fits o p now d w x y (c ∷ rest) h = ground arith

resume-Fits :
    (o : PoolOptions) (a : Answer) (p : Pool) (t : Task) (x y : ℕ)
    → Reads o p (held t + x) (held_dynamic t + y)
    → Fits o (resume a p t).0 (resume a p t).1 x y
unfolding resume
resume-Fits o a p (get_posted d w) x y h =
    ground (arith, get_take-Fits o p a.now d w x y p.available_connections)
resume-Fits o a p _ x y h = ground arith

init-Fits :
    (o : PoolOptions) (p : Pool) (n x y : ℕ) → Reads o p x y → Fits o (init p n).0 (init p n).1 x y
unfolding init
init-Fits o p n x y h = ground arith

Reads-cast :
    (o : PoolOptions) (p : Pool) (x y x' y' : ℕ) → Reads o p x y → x ≡ x' → y ≡ y' → Reads o p x' y'
Reads-cast o p x y x' y' h e f = ground arith

-- In a list with more tasks behind it.
Fits-append :
    (o : PoolOptions) (p : Pool) (out ts : List Task) (x y : ℕ)
    → Fits o p out (total held ts + x) (total held_dynamic ts + y)
    → Fits o p (out ++ ts) x y
Fits-append o p out ts x y h =
    Reads-cast o p _ _ _ _ h (omega (arith, total-append held out ts))
      (omega (arith, total-append held_dynamic out ts))

resume_at-Fits :
    (o : PoolOptions) (n : ℕ) (a : Answer) (p : Pool) (ts : List Task) (x y : ℕ)
    → Fits o p ts x y
    → Fits o (resume_at n a p ts).0 (resume_at n a p ts).1 x y
unfolding resume_at
resume_at-Fits o n a p [] x y h = h
resume_at-Fits o zero a p (t ∷ ts) x y h = Fits-append o (resume a p t).0 (resume a p t).1 ts x y (
    resume-Fits o a p t (total held ts + x) (total held_dynamic ts + y)
      (Reads-cast o p _ _ _ _ h (omega arith) (omega arith)))
resume_at-Fits o (suc n) a p (t ∷ ts) x y h =
    let ih =
      resume_at-Fits o n a p ts (held t + x) (held_dynamic t + y)
        (Reads-cast o p _ _ _ _ h (omega arith) (omega arith)) in
    Reads-cast o (resume_at n a p ts).0 _ _ _ _ ih (omega arith) (omega arith)

step-Fits :
    (o : PoolOptions) (e : Event) (s : System)
    → Fits o s.0 s.1 0 0
    → Fits o (step e s).0 (step e s).1 0 0
unfolding step
step-Fits o (init_called n) (p, ts) h =
    Fits-append o (init p n).0 (init p n).1 ts 0 0 (init-Fits o p n _ _ h)
step-Fits o (get_called now timeout) (p, ts) h = ground arith
step-Fits o (close_called b m) (p, ts) h = ground arith
step-Fits o (resumed n a) (p, ts) h = resume_at-Fits o n a p ts 0 0 h

run-Fits :
    (o : PoolOptions) (es : List Event) (s : System)
    → Fits o s.0 s.1 0 0
    → Fits o (run es s).0 (run es s).1 0 0
unfolding run
run-Fits o [] s h = h
run-Fits o (e ∷ es) s h = run-Fits o es (step e s) (step-Fits o e s h)

-- After any calls and any interleaving of the suspended tasks, with any answers of the database and
-- the clock: the count in use is that of the connections that tasks and clients hold, the dynamic
-- count is that of the dynamic ones among them, and it is within the limit of the options.
pub run-counts :
    (o : PoolOptions) (es : List Event)
    → let (p, ts) = run es (fresh o) in
      (p.in_use_count ≡ total held ts)
      × (p.dynamic_connection_count ≡ total held_dynamic ts)
      × (p.dynamic_connection_count ≤ o.max_dynamic_connections)
run-counts o es =
    let r = run-Fits o es (fresh o) (
      unfold fresh in
      record { options_kept = refl; in_use_is = refl; dynamic_is = refl; bounded = omega arith }) in
    (
      omega (arith, r.in_use_is),
      omega (arith, r.dynamic_is),
      omega (arith, r.dynamic_is, r.bounded),
    )

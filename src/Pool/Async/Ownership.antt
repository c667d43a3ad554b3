-- ===== src/Pool/Async/Ownership.antt =====
-- Who owns a connection: the deque of available ones, a task or a client.
use ormpp.Base.{
  ℕ, zero, suc, ◌+◌, ◌≤◌, true, false, List, [], ◌∷◌, ◌++◌, ◌≡◌, refl, arith, ◌==◌, if◌then◌else◌,
}
use ormpp.Pool.Async.Defs.{
  PoolOptions, Pool, Task, get_posted, get_pinging, get_connecting, get_dead, get_checked,
  get_discarding, dyn_connecting, dyn_failed, dyn_connected, dyn_disconnecting, lent, returning,
  init_connecting, Answer, get_take, init, resume,
}
use ormpp.Pool.Async.Steps.{
  System, resume_at, Event, init_called, get_called, close_called, resumed, fresh, step, run,
}
use ormpp.Pool.Async.Counts.{total, total-append}

abbrev pub is_same : ℕ → ℕ → ℕ
is_same k c = if c == k then 1 else 0

-- Whether the connection `k` is the task's.
abbrev pub owns : ℕ → Task → ℕ
owns k (get_pinging d w c) = is_same k c
owns k (get_connecting d w c) = is_same k c
owns k (get_dead d w c) = is_same k c
owns k (get_checked d w c) = is_same k c
owns k (get_discarding d w c) = is_same k c
owns k (dyn_connecting d w c) = is_same k c
owns k (dyn_failed d w c) = is_same k c
owns k (dyn_connected d w c) = is_same k c
owns k (dyn_disconnecting d w c) = is_same k c
owns k (lent c dynamic) = is_same k c
owns k (returning c dynamic) = is_same k c
owns k (init_connecting i c) = is_same k c
owns k _ = 0

abbrev pub count : ℕ → List ℕ → ℕ
count k [] = 0
count k (c ∷ cs) = is_same k c + count k cs

count-append : (k : ℕ) (xs ys : List ℕ) → count k (xs ++ ys) ≡ count k xs + count k ys
count-append k [] ys = omega arith
count-append k (x ∷ xs) ys = omega (arith, count-append k xs ys)

-- The connection `k` has one owner at most, and none before it is made; `x` counts those elsewhere.
record IsOwned (k : ℕ) (p : Pool) (x : ℕ) : Type 0 where
  one_owner : count k p.available_connections + x ≤ 1
  unmade : p.next_connection ≤ k → count k p.available_connections + x ≡ 0

get_take-IsOwned :
    (k : ℕ) (p : Pool) (now d w x : ℕ) (l : List ℕ)
    → p.available_connections ≡ l
    → IsOwned k p x
    → IsOwned k (get_take p l now d w).0 (total (owns k) (get_take p l now d w).1 + x)
unfolding get_take
get_take-IsOwned k p now d w x [] e h = ground arith
get_take-IsOwned k p now d w x (c ∷ rest) e h = ground arith

resume-IsOwned :
    (k : ℕ) (a : Answer) (p : Pool) (t : Task) (x : ℕ)
    → IsOwned k p (owns k t + x)
    → IsOwned k (resume a p t).0 (total (owns k) (resume a p t).1 + x)
unfolding resume
resume-IsOwned k a p (get_posted d w) x h =
    ground (arith, get_take-IsOwned k p a.now d w x p.available_connections refl)
resume-IsOwned k a p (returning c true) x h = ground arith
resume-IsOwned k a p (returning c false) x h =
    ground (arith, count-append k p.available_connections (c ∷ []))
resume-IsOwned k a p (init_connecting i c) x h =
    ground (arith, count-append k p.available_connections (c ∷ []))
resume-IsOwned k a p _ x h = ground arith

init-IsOwned :
    (k : ℕ) (p : Pool) (n x : ℕ)
    → IsOwned k p x
    → IsOwned k (init p n).0 (total (owns k) (init p n).1 + x)
unfolding init
init-IsOwned k p n x h = ground arith

IsOwned-cast : (k : ℕ) (p : Pool) (x y : ℕ) → IsOwned k p x → x ≡ y → IsOwned k p y
IsOwned-cast k p x y h e = ground arith

resume_at-IsOwned :
    (k n : ℕ) (a : Answer) (p : Pool) (ts : List Task) (x : ℕ)
    → IsOwned k p (total (owns k) ts + x)
    → IsOwned k (resume_at n a p ts).0 (total (owns k) (resume_at n a p ts).1 + x)
unfolding resume_at
resume_at-IsOwned k n a p [] x h = h
resume_at-IsOwned k zero a p (t ∷ ts) x h =
    let r = resume-IsOwned k a p t (total (owns k) ts + x) (IsOwned-cast k p _ _ h (omega arith)) in
    IsOwned-cast k (resume a p t).0 _ _ r (omega (arith, total-append (owns k) (resume a p t).1 ts))
resume_at-IsOwned k (suc n) a p (t ∷ ts) x h =
    let ih = resume_at-IsOwned k n a p ts (owns k t + x) (IsOwned-cast k p _ _ h (omega arith)) in
    IsOwned-cast k (resume_at n a p ts).0 _ _ ih (omega arith)

step-IsOwned :
    (k : ℕ) (e : Event) (s : System)
    → IsOwned k s.0 (total (owns k) s.1 + 0)
    → IsOwned k (step e s).0 (total (owns k) (step e s).1 + 0)
unfolding step
step-IsOwned k (init_called n) (p, ts) h =
    IsOwned-cast k (init p n).0 _ _
      (init-IsOwned k p n (total (owns k) ts + 0) (IsOwned-cast k p _ _ h (omega arith)))
      (omega (arith, total-append (owns k) (init p n).1 ts))
step-IsOwned k (get_called now timeout) (p, ts) h = ground arith
step-IsOwned k (close_called b m) (p, ts) h = ground arith
step-IsOwned k (resumed n a) (p, ts) h = resume_at-IsOwned k n a p ts 0 h

run-IsOwned :
    (k : ℕ) (es : List Event) (s : System)
    → IsOwned k s.0 (total (owns k) s.1 + 0)
    → IsOwned k (run es s).0 (total (owns k) (run es s).1 + 0)
unfolding run
run-IsOwned k [] s h = h
run-IsOwned k (e ∷ es) s h = run-IsOwned k es (step e s) (step-IsOwned k e s h)

-- After any calls and any interleaving of the suspended tasks, a connection has one owner at most:
-- it is available once, or one task or client has it, and never two of these.
pub run-one_owner :
    (o : PoolOptions) (es : List Event) (k : ℕ)
    → let (p, ts) = run es (fresh o) in count k p.available_connections + total (owns k) ts ≤ 1
run-one_owner o es k =
    let r =
      run-IsOwned k es (fresh o)
        (unfold fresh in record { one_owner = omega arith; unmade = λ h. omega arith }) in
    omega (arith, r.one_owner)

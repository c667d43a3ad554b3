-- ===== src/Pool/Sync/Size.antt =====
-- How many connections the pool and its clients have between them.
use ormpp.Base.{
  ℕ, zero, suc, ◌+◌, ◌≤◌, Bool, true, false, List, [], ◌∷◌, ◌++◌, length, length-append, replicate,
  ◌≡◌, refl, ap, ◌∙◌, arith, if◌then◌else◌,
}
use ormpp.Pool.Sync.{
  Conn, ConnectionPool, Answers, fresh_conn, init_impl, init, get_from, get, give_back, Event, gets,
  returns, step, run, new_pool,
}

abbrev pub size : ConnectionPool → ℕ
size p = length p.pool + length p.lent

give_back-length :
    (n : ℕ) (lent pool : List Conn)
    → length (give_back n lent pool).1 + length (give_back n lent pool).0
      ≡ length pool + length lent
unfolding give_back
give_back-length n [] pool = refl
give_back-length zero (c ∷ cs) pool = omega (arith, length-append pool (c ∷ []))
give_back-length (suc n) (c ∷ cs) pool = omega (arith, give_back-length n cs pool)

get_from-size-le :
    (a : Answers) (l : List Conn) (p : ConnectionPool)
    → p.pool ≡ l
    → size (get_from a l p).0 ≤ size p
unfolding get_from
get_from-size-le a [] p e = omega arith
get_from-size-le a (c ∷ rest) p e = ground arith

step-size-le : (e : Event) (p : ConnectionPool) → size (step e p) ≤ size p
unfolding step
step-size-le (gets a) p = get_from-size-le a p.pool p refl
step-size-le (returns n) p = omega (arith, give_back-length n p.lent p.pool)

run-size-le : (es : List Event) (p : ConnectionPool) → size (run es p) ≤ size p
unfolding run
run-size-le [] p = omega arith
run-size-le (e ∷ es) p = omega (arith, run-size-le es (step e p), step-size-le e p)

-- `init_impl` adds the connections that came before the first failure.
abbrev pub succeeding : List Bool → ℕ
succeeding [] = 0
succeeding (connects ∷ more) = if connects then suc (succeeding more) else 0

init_impl-size :
    (answers : List Bool) (p : ConnectionPool)
    → (length (init_impl answers p).0.pool ≡ length p.pool + succeeding answers)
      × ((init_impl answers p).0.lent ≡ p.lent)
unfolding init_impl
init_impl-size [] p = (omega arith, refl)
init_impl-size (true ∷ more) p =
    let ih =
      init_impl-size more
        (record p { pool = p.pool ++ fresh_conn p 0 ∷ []; next_id = suc p.next_id }) in
    (omega (arith, ih.0, length-append p.pool (fresh_conn p 0 ∷ [])), ih.1)
init_impl-size (false ∷ more) p = (omega arith, refl)

succeeding-replicate : (n : ℕ) → succeeding (replicate n true) ≡ n
succeeding-replicate zero = refl
succeeding-replicate (suc n) = ap suc (succeeding-replicate n)

init-size :
    (answers : List Bool) (p : ConnectionPool)
    → p.flag ≡ false
    → size (init answers p).0 ≡ size p + succeeding answers
unfolding init
init-size answers p h = ground (arith, init_impl-size answers p)

succeeding_failed : (k : ℕ) → succeeding (replicate k true ++ false ∷ []) ≡ k
succeeding_failed zero = refl
succeeding_failed (suc k) = ap suc (succeeding_failed k)

init_impl_failed :
    (k : ℕ) (p : ConnectionPool) → (init_impl (replicate k true ++ false ∷ []) p).1 ≡ false
unfolding init_impl
init_impl_failed zero p = refl
init_impl_failed (suc k) p = init_impl_failed k _

init_failed :
    (k : ℕ) (p : ConnectionPool)
    → p.flag ≡ false
    → let r = init (replicate k true ++ false ∷ []) p in (r.1 ≡ false) × (r.0.flag ≡ false)
unfolding init
init_failed k p h = ground (arith, init_impl_failed k p)

-- Each call of `init` that fails before one that succeeds adds to the pool for good: after a call
-- whose first `k` connections succeed and the next fails, a call for `n` connections that succeeds
-- leaves `k + n` in the pool.
init_again :
    (k n : ℕ)
    → let failed = init (replicate k true ++ false ∷ []) new_pool in
      (failed.1 ≡ false) × (size (init (replicate n true) failed.0).0 ≡ k + n)
init_again k n =
    let answers : List Bool = replicate k true ++ false ∷ [] in
    let (thrown, closed) = init_failed k new_pool refl in
    (
      thrown,
      omega (
        arith,
        init-size (replicate n true) (init answers new_pool).0 closed,
        init-size answers new_pool refl,
        succeeding-replicate n,
        succeeding_failed k,
      ),
    )

-- A pool of `n` connections never has more, lent ones included, whatever the clients do and the
-- database answers.
pub run-init-size-le :
    (n : ℕ) (es : List Event) → size (run es (init (replicate n true) new_pool).0) ≤ n
run-init-size-le n es = omega (
  arith,
  run-size-le es (init (replicate n true) new_pool).0,
  init-size (replicate n true) new_pool refl,
  succeeding-replicate n,
)

abbrev pub dead : Answers
dead = record { ping = false; connects = false; now = 0 }

step-dead :
    (c : Conn) (rest : List Conn) (p : ConnectionPool)
    → p.pool ≡ c ∷ rest
    → step (gets dead) p ≡ record p { pool = rest }
unfolding step get
step-dead c rest p h = rw h refl

get_empty : (a : Answers) (p : ConnectionPool) → p.pool ≡ [] → get a p ≡ (p, false)
unfolding get
get_empty a p h = rw h refl

run-dead_from :
    (l : List Conn) (p : ConnectionPool)
    → p.pool ≡ l
    → run (replicate (length l) (gets dead)) p ≡ record p { pool = [] }
unfolding run
run-dead_from [] p h = λ i. record p { pool = h i }
run-dead_from (c ∷ l) p h =
    ap (run (replicate (length l) (gets dead))) (step-dead c l p h)
    ∙ run-dead_from l (record p { pool = l }) refl

-- A connection that is found dead, and cannot be opened again at once, is lost to the pool: after
-- as many such calls of `get` as the pool has connections available, it has none, what is lent has
-- not changed, and the next `get` fails, also when the database answers again.
run-dead :
    (a : Answers) (p : ConnectionPool)
    → let q = run (replicate (length p.pool) (gets dead)) p in
      (q.pool ≡ []) × (q.lent ≡ p.lent) × ((get a q).1 ≡ false)
run-dead a p =
    let e = run-dead_from p.pool p refl in
    rw e (
      refl,
      refl,
      ap (λ (r : ConnectionPool × Bool). r.1) (get_empty a (record p { pool = [] }) refl),
    )

-- ===== src/Pool/Async/Waiting.antt =====
-- The back-off of `get`, and what a pool that is shut gives out.
use ormpp.Base.{ℕ, zero, suc, ◌-◌, min, ◌⊎◌, inl, inr, ◌≤◌, true, ◌≡◌, refl, arith}
use ormpp.Pool.Async.Defs.{Pool, Task, get_posted, lent, Answer, is_shut, resume, wait_time}
use ormpp.Pool.Async.Counts.{total}

wait_time_cases :
    (w : ℕ)
    → ((w ≤ 1) × (wait_time w ≡ 50))
      ⊎ ((w ≡ 2) × (wait_time w ≡ 100))
      ⊎ ((w ≡ 3) × (wait_time w ≡ 200))
      ⊎ ((4 ≤ w) × (wait_time w ≡ 400))
unfolding wait_time
wait_time_cases zero = inl (omega arith, refl)
wait_time_cases (suc zero) = inl (omega arith, refl)
wait_time_cases (suc (suc zero)) = inr (inl (omega arith, refl))
wait_time_cases (suc (suc (suc zero))) = inr (inr (inl (omega arith, refl)))
wait_time_cases (suc (suc (suc (suc w)))) =
    let top : min (suc (suc (suc (suc w))) - 1) 3 ≡ 3 = omega arith in
    inr (inr (inr (omega arith, rw top)))

-- `get` waits from 50 to 400 milliseconds between two attempts, and no less after more attempts.
wait_time_bounds :
    (w v : ℕ) → w ≤ v → (50 ≤ wait_time w) × (wait_time w ≤ wait_time v) × (wait_time v ≤ 400)
wait_time_bounds w v h = omega (arith, wait_time_cases w, wait_time_cases v)

abbrev pub is_lent : Task → ℕ
is_lent (lent c dynamic) = 1
is_lent _ = 0

-- A task that goes on while the pool is not initialized or is closing hands no connection out.
resume-is_shut :
    (a : Answer) (p : Pool) (t : Task) → is_shut p ≡ true → total is_lent (resume a p t).1 ≡ 0
unfolding resume
resume-is_shut a p (get_posted d w) h = ground arith
resume-is_shut a p _ h = ground arith

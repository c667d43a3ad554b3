-- ===== src/Pool/Async/Defs.antt =====
-- ormpp/async_connection_pool.hpp: the pool's fields, and where a coroutine of it can be.
use ormpp.Base.{
  ℕ, ◌+◌, ◌-◌, ◌*◌, Bool, true, false, not, ◌||◌, ◌&&◌, List, [], ◌∷◌, ◌++◌, ◌==◌, ltb, leb,
  if◌then◌else◌, length, min,
}
use Prim.Native.Nat.{◌^◌}

pub record PoolOptions : Type 0 where
  pub enable_dynamic_expansion : Bool
  pub max_dynamic_connections : ℕ

pub record Pool : Type 0 where
  pub options : PoolOptions
  pub initialized : Bool
  pub closing : Bool
  pub pool_size : ℕ
  pub in_use_count : ℕ
  pub dynamic_connection_count : ℕ
  pub available_connections : List ℕ
  pub next_connection : ℕ

-- Numbers named `d` are deadlines, `w` wait counts, `i` loop counters, `c` connections.
pub data Task : Type 0 where
  get_posted get_timer : (d w : ℕ) → Task
  get_pinging get_connecting get_dead get_checked get_discarding : (d w c : ℕ) → Task
  dyn_posted : (d w : ℕ) → Task
  dyn_connecting dyn_failed dyn_connected dyn_disconnecting : (d w c : ℕ) → Task
  refused : Task
  lent returning : (c : ℕ) (dynamic : Bool) → Task
  init_connecting : (i c : ℕ) → Task
  init_sweeping : (i : ℕ) → Task
  init_done : Bool → Task
  close_posted : (wait_for_return : Bool) (max_wait : ℕ) → Task
  close_waiting close_timer : (d : ℕ) → Task
  close_ending : Task
  close_sweeping : (i : ℕ) → Task
  close_done : Task

-- What the world answers when a task goes on: whether the awaited call succeeded, and the time.
pub record Answer : Type 0 where
  pub succeeds : Bool
  pub now : ℕ

-- `if (x > 0) { --x; }`
abbrev pub guarded_dec : ℕ → ℕ
guarded_dec x = if ltb 0 x then x - 1 else x

-- `x--` on a `size_t`
abbrev pub wrapping_dec : ℕ → ℕ
wrapping_dec x = if x == 0 then 2 ^ 64 - 1 else x - 1

abbrev pub is_shut : Pool → Bool
is_shut p = not p.initialized || p.closing

-- The back-off of `get` in milliseconds; the source's `1 << n` is `2 ^ n`.
unfoldable pub wait_time : ℕ → ℕ
wait_time wait_count = min (50 * 2 ^ min (wait_count - 1) 3) 500

-- `while (now() < deadline)` of `get`
abbrev pub get_test : ℕ → ℕ → ℕ → Task
get_test now d w = if ltb now d then get_posted d w else refused

-- From the back-off on: `remaining <= 0` leaves the loop.
abbrev pub get_wait : ℕ → ℕ → ℕ → Task
get_wait now d w = if leb d now then refused else get_timer d w

abbrev pub stay : Pool → Task → Pool × List Task
stay p t = (p, t ∷ [])

-- `get` behind its first post
unfoldable pub get_take : Pool → List ℕ → ℕ → ℕ → ℕ → Pool × List Task
get_take p [] now d w =
    if p.options.enable_dynamic_expansion
      && ltb p.dynamic_connection_count p.options.max_dynamic_connections
    then stay p (dyn_posted d (w + 1))
    else stay p (get_wait now d (w + 1))
get_take p (c ∷ rest) now d w =
    stay (record p { available_connections = rest; in_use_count = p.in_use_count + 1 })
      (get_pinging d w c)

abbrev pub get_release : Pool → Pool
get_release p = record p { in_use_count = guarded_dec p.in_use_count }

abbrev pub dyn_release : Pool → Pool
dyn_release p = record p {
  dynamic_connection_count = guarded_dec p.dynamic_connection_count;
  in_use_count = guarded_dec p.in_use_count;
}

-- `create_dynamic_connection` behind its first post
unfoldable pub create_dynamic_connection : Pool → ℕ → ℕ → ℕ → Pool × List Task
create_dynamic_connection p now d w =
    if is_shut p || leb p.options.max_dynamic_connections p.dynamic_connection_count
    then stay p (get_wait now d w)
    else stay
        (record p {
          dynamic_connection_count = p.dynamic_connection_count + 1;
          in_use_count = p.in_use_count + 1;
          next_connection = p.next_connection + 1;
        })
        (dyn_connecting d w p.next_connection)

-- `return_connection`
unfoldable pub return_connection : Pool → ℕ → Bool → Pool
return_connection p c true = dyn_release p
return_connection p c false =
    let q = get_release p in
    if is_shut p then q else record q { available_connections = q.available_connections ++ c ∷ [] }

-- The test of the loop of `init`, at loop counter `i`.
unfoldable pub init_test : Pool → ℕ → Pool × List Task
init_test p i =
    if ltb i p.pool_size
    then stay (record p { next_connection = p.next_connection + 1 })
        (init_connecting i p.next_connection)
    else stay (record p { initialized = true }) (init_done true)

-- `init` up to its first suspension
unfoldable pub init : Pool → ℕ → Pool × List Task
unfolding init_test
init p pool_size =
    if p.initialized
    then stay p (init_done true)
    else if p.closing
    then stay p (init_done false)
    else init_test (record p { pool_size = pool_size }) 0

-- `disconnect_available_connections`, at loop counter `i`, and the end of `init` that failed
unfoldable pub init_sweep : Pool → ℕ → Pool × List Task
init_sweep p i =
    if ltb i (length p.available_connections)
    then stay p (init_sweeping i)
    else stay (record p { available_connections = [] }) (init_done false)

-- The loop over the available connections at the end of `close_all`, and what follows it.
unfoldable pub close_sweep : Pool → ℕ → Pool × List Task
close_sweep p i =
    if ltb i (length p.available_connections)
    then stay p (close_sweeping i)
    else stay (record p { available_connections = []; initialized = false; closing = false })
        close_done

-- `while (now() < deadline)` of `close_all`
abbrev pub close_test : ℕ → ℕ → Task
close_test now d = if ltb now d then close_waiting d else close_ending

-- `close_all` behind its first post
unfoldable pub close_start : Pool → Bool → ℕ → ℕ → Pool × List Task
close_start p wait_for_return max_wait now =
    if is_shut p
    then stay p close_done
    else stay (record p { closing = true })
        (if wait_for_return && ltb 0 p.in_use_count
          then close_test now (now + max_wait)
          else close_ending)

-- A task that is suspended goes on to its next suspension, or ends.
unfoldable pub resume : Answer → Pool → Task → Pool × List Task
unfolding get_take create_dynamic_connection return_connection init_test init_sweep close_sweep
    close_start
resume a p (get_posted d w) =
    if is_shut p then stay p refused else get_take p p.available_connections a.now d w
resume a p (get_timer d w) = stay p (get_test a.now d w)
resume a p (get_pinging d w c) =
    stay p (if a.succeeds then get_checked d w c else get_connecting d w c)
resume a p (get_connecting d w c) =
    stay p (if a.succeeds then get_checked d w c else get_dead d w c)
resume a p (get_dead d w c) = stay (get_release p) (get_discarding d w c)
resume a p (get_checked d w c) =
    if is_shut p then stay (get_release p) (get_discarding d w c) else stay p (lent c false)
resume a p (get_discarding d w c) = stay p (get_test a.now d w)
resume a p (dyn_posted d w) = create_dynamic_connection p a.now d w
resume a p (dyn_connecting d w c) =
    stay p (if a.succeeds then dyn_connected d w c else dyn_failed d w c)
resume a p (dyn_failed d w c) =
    stay
      (record p {
        dynamic_connection_count = wrapping_dec p.dynamic_connection_count;
        in_use_count = wrapping_dec p.in_use_count;
      })
      (get_wait a.now d w)
resume a p (dyn_connected d w c) =
    if is_shut p then stay (dyn_release p) (dyn_disconnecting d w c) else stay p (lent c true)
resume a p (dyn_disconnecting d w c) = stay p (get_wait a.now d w)
resume a p refused = stay p refused
resume a p (lent c dynamic) = stay p (returning c dynamic)
resume a p (returning c dynamic) = (return_connection p c dynamic, [])
resume a p (init_connecting i c) =
    if a.succeeds
    then init_test (record p { available_connections = p.available_connections ++ c ∷ [] }) (i + 1)
    else init_sweep p 0
resume a p (init_sweeping i) = init_sweep p (i + 1)
resume a p (init_done r) = stay p (init_done r)
resume a p (close_posted wait_for_return max_wait) = close_start p wait_for_return max_wait a.now
resume a p (close_waiting d) = stay p (
    if p.in_use_count == 0
    then close_ending
    else if leb d a.now
    then close_ending
    else close_timer d)
resume a p (close_timer d) = stay p (close_test a.now d)
resume a p close_ending = close_sweep p 0
resume a p (close_sweeping i) = close_sweep p (i + 1)
resume a p close_done = stay p close_done

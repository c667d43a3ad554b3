-- ===== src/Pool/Sync.antt =====
-- ormpp/connection_pool.hpp. The mutex makes a pop and a push one step each; a thread that waits in
-- `get` goes on in the order in which the events come. Pointers in the deque are never null: the
-- deleter of a handle runs for pointers that are not null only. Times are in seconds.
pub mod Size
use ormpp.Base.{
  ℕ, zero, suc, ◌-◌, ◌*◌, ◌/◌, Bool, true, false, not, List, [], ◌∷◌, ◌++◌, ltb, if◌then◌else◌,
}

-- A connection of the pool, with what `get_latest_operate_time` gives.
pub record Conn : Type 0 where
  pub id : ℕ
  pub latest_tm : ℕ

-- `lent` holds the connections that clients have; `flag` is that of `call_once`.
pub record ConnectionPool : Type 0 where
  pub flag : Bool
  pub pool : List Conn
  pub lent : List Conn
  pub next_id : ℕ

-- What the database and the clock answer during one `get`.
pub record Answers : Type 0 where
  pub ping : Bool
  pub connects : Bool
  pub now : ℕ

abbrev pub fresh_conn : ConnectionPool → ℕ → Conn
fresh_conn p now = record { id = p.next_id; latest_tm = now }

-- The loop of `init_impl`, one answer to `connect` for each round: `false` is the exception.
unfoldable pub init_impl : List Bool → ConnectionPool → ConnectionPool × Bool
init_impl [] p = (p, true)
init_impl (connects ∷ more) p =
    let rest =
      init_impl more (record p { pool = p.pool ++ fresh_conn p 0 ∷ []; next_id = suc p.next_id }) in
    if connects then rest else (p, false)

-- `call_once`: a call that throws leaves the flag as it was.
unfoldable pub init : List Bool → ConnectionPool → ConnectionPool × Bool
unfolding init_impl
init answers p =
    if p.flag
    then (p, true)
    else let (q, done) = init_impl answers p in (record q { flag = done }, done)

-- `create_connection`: `false` is `nullptr`.
unfoldable pub create_connection : Answers → ConnectionPool → ConnectionPool × Bool
create_connection a p =
    if a.connects
    then (record p { lent = fresh_conn p a.now ∷ p.lent; next_id = suc p.next_id }, true)
    else (p, false)

-- Whole minutes since the last use, and the test against six hours.
abbrev pub idle_too_long : Conn → ℕ → Bool
idle_too_long c now = ltb (6 * 60) ((now - c.latest_tm) / 60)

-- `get` behind the pop of `c`
unfoldable pub check : Answers → Conn → ConnectionPool → ConnectionPool × Bool
unfolding create_connection
check a c p =
    if not a.ping
    then create_connection a p
    else if idle_too_long c a.now
    then create_connection a p
    else (record p { lent = record c { latest_tm = a.now } ∷ p.lent }, true)

-- `get` on the deque that it finds; on an empty one its wait times out.
unfoldable pub get_from : Answers → List Conn → ConnectionPool → ConnectionPool × Bool
unfolding check
get_from a [] p = (p, false)
get_from a (c ∷ rest) p = check a c (record p { pool = rest })

unfoldable pub get : Answers → ConnectionPool → ConnectionPool × Bool
unfolding get_from
get a p = get_from a p.pool p

-- The deleter of the n-th handle; there is none out of range.
unfoldable pub give_back : ℕ → List Conn → List Conn → List Conn × List Conn
give_back n [] pool = ([], pool)
give_back zero (c ∷ cs) pool = (cs, pool ++ c ∷ [])
give_back (suc n) (c ∷ cs) pool = let (lent, pool') = give_back n cs pool in (c ∷ lent, pool')

pub data Event : Type 0 where
  gets : Answers → Event
  returns : ℕ → Event

unfoldable pub step : Event → ConnectionPool → ConnectionPool
unfolding get give_back
step (gets a) p = (get a p).0
step (returns n) p =
    let (lent, pool) = give_back n p.lent p.pool in record p { lent = lent; pool = pool }

unfoldable pub run : List Event → ConnectionPool → ConnectionPool
run [] p = p
run (e ∷ es) p = run es (step e p)

abbrev pub new_pool : ConnectionPool
new_pool = record { flag = false; pool = []; lent = []; next_id = 0 }

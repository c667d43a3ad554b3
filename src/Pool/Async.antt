-- ===== src/Pool/Async.antt =====
-- ormpp/async_connection_pool.hpp. A coroutine runs from one `co_await` to the next in one step: its
-- tasks below are the places where it is suspended, and what it hands out. Time is an argument of a
-- step. A connection is a number, counted up at each `make_unique<DB>`. Log lines are left out.
pub mod Defs
pub mod Steps
pub mod Counts
pub mod Ownership
pub mod Init
pub mod Waiting

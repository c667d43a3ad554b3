-- ===== src/Pool.antt =====
-- The two connection pools.
pub mod Async
pub mod Sync
mod Examples

-- ===== src/Utility.antt =====
-- ormpp/utility.hpp: the text of the statements that need no builder.
pub mod Escape
pub mod Keys
pub mod Insert
pub mod Update
pub mod Select
pub mod Types
mod Examples

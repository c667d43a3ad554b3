-- ===== src/Query.antt =====
-- ormpp/query.hpp: conditions, placeholders and the statement builders.
pub mod Placeholder
pub mod Where
pub mod Partition
pub mod Delete
pub mod Alter
pub mod Builder
pub mod Create
pub mod Update
mod Examples

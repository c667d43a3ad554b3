-- ===== src/MysqlAsync.antt =====
-- ormpp/mysql_async.hpp: the driver that speaks the protocol of MySQL itself.
pub mod Reader
pub mod Packets
pub mod Frames
pub mod Response
pub mod Arguments
pub mod Auth
pub mod Handshake
pub mod Connect
pub mod Insert
pub mod Rows
mod Examples

-- ===== src/Mysql.antt =====
-- include/chx/sql/mysql/: the client side of the MySQL protocol.
pub mod Result
pub mod Basic
pub mod Encode
pub mod Packet
pub mod Packets
pub mod ErrorCode
pub mod Query
pub mod Connection
mod Tests

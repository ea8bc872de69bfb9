-- ===== src/Postgres.antt =====
-- include/chx/sql/postgresql/: the client side of the PostgreSQL protocol.
pub mod Outcome
pub mod Basic
pub mod Turn
pub mod ErrorCode
pub mod Rows
pub mod Message
pub mod Msg
pub mod Frame
pub mod Variant
pub mod MessageParser
pub mod Connect
pub mod Builders
pub mod Operation
pub mod Execute
pub mod ParseQuery
pub mod SimpleQuery
pub mod Requests
mod Tests

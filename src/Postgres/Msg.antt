-- ===== src/Postgres/Msg.antt =====
-- include/chx/sql/postgresql/detail/msg/: the parsers of the backend's messages.
pub mod Fixed
pub mod RowDescription
pub mod DataRow
pub mod Authentication
pub mod Status
pub mod Report
pub mod RoundTrip
pub mod Streaming

-- ===== src/Mysql/Packets.antt =====
-- include/chx/sql/mysql/detail/packets/: a parser for each packet. A stage holds the alternative of
-- `__M_parsers` that it uses.
pub mod Ok
pub mod Err
pub mod Eof
pub mod Resultset
pub mod ColumnDefinition
pub mod Handshake

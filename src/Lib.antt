-- ===== src/Lib.antt =====
-- chxsql: asynchronous clients of SQL servers for the chx::net library, header-only C++. This library
-- models the client side of the PostgreSQL protocol, include/chx/sql/postgresql/, and that of the MySQL
-- protocol, include/chx/sql/mysql/. Below, a path that does not begin with include/ is from the former
-- for the files of Postgres/ and from the latter for those of Mysql/.
--
-- How the PostgreSQL client works. An operation of a connection (async_execute, async_oneshot,
-- async_parse, async_simple_query, async_connect) writes a request and reads replies into the
-- connection's buffer. Its loop (`do_parse`) looks at the type of the next message, puts the parser of
-- that message into a variant, runs it, and acts on the message. A parser is a basic_parser<Message>:
-- it reads the type and the length and hands the body, piece by piece, to the message's `on_body`,
-- which keeps a parser of a basic type between the pieces. Every level answers with a ParseResult.
--
-- Base.antt, Base/Tests.antt, Base/Lists.antt, Base/Buffers.antt: numbers, Boolean tests, lists,
--   literals of the source, and the vectors that it writes.
-- Postgres/Outcome.antt: detail/result.hpp, detail/make_success.hpp, and what it means that a
--   parser does not see how its input is cut.
-- Postgres/Basic.antt: detail/basic_type.hpp: integer, integer_array, string, byte, nop_container,
--   integer_to_network, string_to_network. An integer's state is the list of the bytes it has.
-- Postgres/Turn.antt: the shape of the loops in detail/msg/: one turn is one pass through a switch,
--   falls into the next case included.
-- Postgres/Message.antt: what a frame asks of a message, and the laws the messages owe it.
-- Postgres/Msg/: one parser for each message of detail/msg/. Fixed.antt has those of fixed size,
--   Status.antt backend_key_data, command_complete and parameter_status, Report.antt error_response
--   and notice_response. DataRow/Layout.antt has the layout of a row.
-- Postgres/Frame.antt: detail/basic_parser.hpp.
-- Postgres/Variant.antt, Postgres/MessageParser.antt: detail/message_parser.hpp, the frame of one of
--   several messages, which the type on the wire chooses.
-- Postgres/ErrorCode.antt: error_code.hpp, with the enumeration, the messages and the SQLSTATE table.
-- Postgres/Rows.antt: the data of result.hpp. Postgres/Rows/Access.antt: its accessors and iterators.
-- Postgres/Operation.antt: the loop that the operations share, and the buffer they hand on.
-- Postgres/Execute.antt: detail/execute.ipp and detail/oneshot.ipp.
-- Postgres/ParseQuery.antt: detail/parse_query.ipp. Postgres/SimpleQuery.antt:
--   detail/simple_query.ipp. Postgres/Requests.antt: the layout of what the two send.
-- Postgres/Builders.antt: detail/create_msg.hpp, detail/encode_param.hpp, and the requests that
--   async_execute and async_execute_oneshot write with them.
-- Postgres/Connect.antt: detail/connect.ipp, with the parameters of connection.hpp.
-- Postgres/Tests.antt: whole replies of a server, run, and the theorems at concrete inputs.
--
-- How the MySQL client works. An operation (connecting, a query in text) is a state machine of which
-- `on_payload_data` is the transition. Bytes that are read go to `feed` of a basic_packet, which reads
-- the length and the sequence number of each packet and hands its payload on, piece by piece. The
-- operation keeps the parser of the packet it expects in its state, and completes, or goes to the next
-- state, when that parser has the packet.
--
-- Mysql/Result.antt: detail/result.hpp. Mysql/ErrorCode.antt: error_code.hpp, the client's own codes.
-- Mysql/Basic.antt: detail/packets/basic_types.hpp. Mysql/Encode.antt: detail/fixed_integer.hpp and
--   detail/length_encoded.hpp.
-- Mysql/Packet.antt: detail/basic_packet.hpp, over any handler of payloads.
-- Mysql/Packets/: one file for each packet of detail/packets/: OK, ERR, EOF, a row of a result set,
--   a column definition and HandshakeV10.
-- Mysql/Query.antt: detail/com_query2.ipp. Mysql/Connection.antt: detail/connection2.ipp.
-- Mysql/Tests.antt: the theorems at concrete inputs.
--
-- Conventions. A C++ parser takes `begin` by reference and advances it; here it returns the bytes it
-- left. Bytes are natural numbers; an integer of w bytes is read modulo 256 ^ w. A uint16_t or
-- uint32_t that the source computes keeps its wrap-around, and so do the sizes of the requests. An
-- assertion that fails, an empty optional that is read and a loop without fuel are values of their
-- own (`fault`, `crash`, `stuck`, `unhandled`, `undefined`). The digest of OpenSSL that hash_ctx.hpp
-- calls is an argument, `hash`.
--
-- Fuel. A body parser has one turn for each byte and one more: a turn that goes round again has taken
-- a byte. An operation of the PostgreSQL client has two rounds for each byte and two more: a round
-- either chooses a parser or takes a byte. `feed` of the MySQL client has two turns for each byte and
-- two more: only an empty payload takes no byte, and its header has taken one.
--
-- What is not modelled. The sockets and the scheduling of chx::net: reads are the arguments of the
-- handlers, and one operation runs at a time on a connection. The dereference of
-- const_row_iterator, which the source declares and does not define. The accessors of the MySQL
-- result_set, and last.hpp, a completion token. The list of the MySQL server's error codes and the
-- registration of categories with std::error_code. The wrappers of libpq and
-- hiredis, which only call third-party libraries.
pub mod Base
pub mod Mysql
pub mod Postgres

-- ===== src/Mysql/Tests.antt =====
-- The MySQL client at concrete inputs.
use chxsql.Base.{
  codes, allocated, ℕ, ◌+◌, Bytes, List, [], ◌∷◌, ◌++◌, ◌≡◌, refl, arith, Option, some, none, false,
  replicate,
}
use chxsql.Mysql.Basic.RoundTrip.{
  length_read, length_encoded_integer-lenenc, length_encoded_integer-large,
}
use chxsql.Mysql.Basic.{new_length_integer, length_encoded_integer}
use chxsql.Mysql.Connection.Answer.{awaiting, read_first-err, read_second-err}
use chxsql.Mysql.Connection.Password.{IsSha1, Accepted, generate_pw-Accepted, response_fits}
use chxsql.Mysql.Connection.{
  ConnectParameters, new_connection, generate_pw, response_length, response_bytes, read_first,
  read_second, completed, crashed,
}
use chxsql.Mysql.Encode.{lenenc_integer, lenenc_str, fixed_length_integer_to_network}
use chxsql.Mysql.ErrorCode.{no_error, make_ec}
use chxsql.Mysql.Packet.Framing.{packet_layout}
use chxsql.Mysql.Packet.Progress.{Runs, Keeps, feed-Runs}
use chxsql.Mysql.Packet.{new_packet, feed}
use chxsql.Mysql.Packets.ColumnDefinition.RoundTrip.{
  ColumnNames, column_packet, encode_column, column_parser-encode,
}
use chxsql.Mysql.Packets.ColumnDefinition.{
  ColumnPacket, column_at, new_column, unused, column_parser,
}
use chxsql.Mysql.Packets.Handshake.{HandshakePacket}
use chxsql.Mysql.Packets.Ok.{has_flag, session_track}
use chxsql.Mysql.Packets.Resultset.{new_row, row_at, guess, row_parser}
use chxsql.Mysql.Packets.Err.RoundTrip.{encode_err}
use chxsql.Mysql.Packets.Resultset.RoundTrip.{encode_row, row_parser-encode}
use chxsql.Mysql.Query.Answer.{answer_packets, query_read-answer}
use chxsql.Mysql.Query.Completion.{
  Column, ValidColumns, ValidRows, EndPacket, ValidEnd, column_names,
}
use chxsql.Mysql.Query.{new_query, query_sent, query_read, query_handler}
use chxsql.Mysql.Query as Query
use chxsql.Mysql.Result.{parsed, payload_success, undefined}

-- The flags that the client asks for.
abbrev flags : ℕ
flags = 0x012ea207

untracked : has_flag session_track flags ≡ false
unfolding has_flag
untracked = refl

abbrev names : ColumnNames
names = record {
  schema = codes "test";
  table = codes "t";
  org_table = codes "t";
  org_name = codes "id";
}

abbrev column : ColumnPacket
column = column_packet (codes "id") 63 11 3 0 0

abbrev columns : List Column
columns = (names, column) ∷ []

abbrev rows : List (List (Option Bytes))
rows = (some (codes "1") ∷ []) ∷ (none ∷ []) ∷ []

abbrev ending : EndPacket
ending = (0, 0, 2, 0, [])

columns_valid : ValidColumns columns
unfolding lenenc_str lenenc_integer fixed_length_integer_to_network
columns_valid = omega arith

rows_valid : ValidRows 1 rows
unfolding lenenc_str lenenc_integer
rows_valid = omega arith

ending_valid : ValidEnd ending
unfolding lenenc_integer fixed_length_integer_to_network
ending_valid = omega arith

query_read-answer_example :
    query_read flags no_error new_packet (query_sent new_query) (answer_packets columns rows ending)
    ≡ Query.completed no_error (column_names columns) rows
query_read-answer_example =
    query_read-answer flags columns rows ending untracked (omega arith) (omega arith) columns_valid
      rows_valid ending_valid

-- An OK packet that answers a query, and a byte after it.
abbrev ok_answer : Bytes
ok_answer = 7 ∷ 0 ∷ 0 ∷ 1 ∷ 0 ∷ 0 ∷ 0 ∷ 2 ∷ 0 ∷ 0 ∷ 0 ∷ 9 ∷ []

feed-Runs_example :
    Runs
      (query_handler flags)
      new_packet
      (query_sent new_query)
      ok_answer
      (feed (query_handler flags) new_packet (query_sent new_query) ok_answer)
    × Keeps (feed (query_handler flags) new_packet (query_sent new_query) ok_answer)
feed-Runs_example =
    feed-Runs (query_handler flags) new_packet (query_sent new_query) ok_answer (omega arith)

length_encoded_integer-lenenc_example :
    length_encoded_integer new_length_integer (lenenc_integer 300 ++ 9 ∷ [])
    ≡ parsed payload_success (length_read 300) (9 ∷ [])
length_encoded_integer-lenenc_example = length_encoded_integer-lenenc 300 (9 ∷ []) (omega arith)

length_encoded_integer-large_example :
    length_encoded_integer new_length_integer (lenenc_integer 16777216 ++ []) ≡ undefined
length_encoded_integer-large_example = length_encoded_integer-large 16777216 [] (omega arith)

row_parser-encode_example :
    row_parser 2 new_row (encode_row (some (codes "a") ∷ none ∷ []) ++ 1 ∷ [])
    ≡ parsed payload_success (row_at guess (some (codes "a") ∷ none ∷ [])) (1 ∷ [])
row_parser-encode_example = row_parser-encode (some (codes "a") ∷ none ∷ []) (1 ∷ []) (omega arith)

column_parser-encode_example :
    column_parser new_column (encode_column names column [])
    ≡ parsed payload_success (column_at (unused (record { result = 0; digits = 0 })) column) []
column_parser-encode_example = column_parser-encode names (codes "id") 63 11 3 0 0 [] (omega arith)

abbrev user : ConnectParameters
user = record { username = codes "root"; password = codes "pw"; database = [] }

-- A function of the shape of the digest.
abbrev shape : Bytes → Bytes
shape text = replicate 20 7

shape-IsSha1 : IsSha1 shape
shape-IsSha1 = record { twenty = λ text. refl; bytes = λ text. omega arith }

generate_pw-Accepted_example :
    Accepted shape
      (codes "12345678" ++ codes "abcdefghijkl")
      (codes "pw")
      (generate_pw (λ t. some (shape t)) (codes "12345678") (codes "abcdefghijkl") (codes "pw"))
generate_pw-Accepted_example =
    generate_pw-Accepted shape shape-IsSha1 (codes "12345678") (codes "abcdefghijkl") (codes "pw")

response_fits_example :
    allocated (4 + response_length user) (response_bytes user 1 (shape []))
    ≡ some (response_bytes user 1 (shape []))
response_fits_example = response_fits user 1 (shape []) refl

read_first-err_example :
    read_first
      (λ t. some (shape t))
      user
      no_error
      new_packet
      new_connection
      (packet_layout 0 (encode_err 1040 (codes "08004") (codes "Too many connections")) [])
    ≡ crashed
read_first-err_example =
    read_first-err (λ t. some (shape t)) user (codes "08004") (codes "Too many connections") 1040
      (omega arith) refl (omega arith)

read_second-err_example :
    read_second
      (λ t. some (shape t))
      user
      no_error
      new_packet
      (awaiting (λ t. some (shape t)) user [])
      (packet_layout 2 (encode_err 1045 (codes "28000") (codes "Access denied")) [])
    ≡ completed (make_ec 1045)
read_second-err_example =
    read_second-err (λ t. some (shape t)) user [] (codes "28000") (codes "Access denied") 1045
      (omega arith) refl (omega arith)

abbrev greeting : HandshakePacket
greeting = record {
  server_version = codes "8.0";
  thread_id = 11;
  auth_plugin_data_part_1 = codes "12345678";
  capability_flags_1 = 0xffff;
  character_set = 255;
  status_flags = 2;
  capability_flags_2 = 0xdfff;
  auth_plugin_data_len = 21;
  auth_plugin_data_part_2 = codes "abcdefghijkl" ++ 0 ∷ [];
  auth_plugin_name = codes "mysql";
}

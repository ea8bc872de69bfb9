-- ===== src/Postgres/Tests.antt =====
-- Replies of a server, and the theorems of the operations and parsers at concrete inputs.
mod Runs
mod Startup
mod Accessors
use mathlib.Core.List.{Mem, mem-cons}
use mathlib.Core.Logic.Or
use chxsql.Postgres.ErrorCode.Lookup.{sqlstate_map-lookup}
use chxsql.Postgres.ErrorCode.Sqlstates.{sqlstate_map}
use chxsql.Postgres.ErrorCode.Values.{Errc}
use chxsql.Postgres.Execute.Streaming.{execute_parse-resumes, oneshot_parse-resumes}
use chxsql.Postgres.SimpleQuery.Streaming.{query_parse-resumes}
use chxsql.Postgres.ParseQuery.Streaming.{prepare_parse-resumes}
use chxsql.Postgres.Operation.Streaming.{shown, resume_round}
use chxsql.Postgres.Msg.DataRow.{Values, data_row, data_row_body, new_row}
use chxsql.Postgres.Msg.DataRow.Layout.{encode_row, parsed_row}
use chxsql.Postgres.Msg.DataRow.RoundTrip.{data_row-encode_row, basic_parser-encode_row}
use chxsql.Base.{
  codes, ℕ, ◌+◌, ◌*◌, ◌<◌, ◌≡◌, ◌^◌, Bytes, [], ◌∷◌, ◌++◌, refl, arith, Option, some, none, length,
}
use chxsql.Postgres.Basic.{
  integer, integer_value, integer_to_network, string, insert_bytes, string_to_network,
  integer_array, IntegerArray,
}
use chxsql.Postgres.Basic.Arrays.{Wants, integer_array-Streams}
use chxsql.Postgres.Basic.Counted.{integer-Streams}
use chxsql.Postgres.Basic.RoundTrip.{integer_value-to_network32, string-to_network}
use chxsql.Postgres.ErrorCode.{make_ec, sqlstate_to_errc, no_error, ErrorCode}
use chxsql.Postgres.Execute.{Execution, new_execution, execute_parse, new_oneshot, oneshot_parse}
use chxsql.Postgres.Execute.Termination.{
  ValidExecution, execute_parse-Settles, oneshot_parse-Settles,
}
use chxsql.Postgres.Frame.{
  Frame, Frame, reply, frame_at, at_body, at_length, new_frame, basic_parser,
}
use chxsql.Postgres.Frame.Answers.{Answered, basic_parser-Answered}
use chxsql.Postgres.Frame.RoundTrip.{framed, basic_parser-framed}
use chxsql.Postgres.Frame.Streaming.{observe, resume_reply, basic_parser-resumes}
use chxsql.Postgres.Msg.Fixed.{ready_for_query, ready_for_query_body}
use chxsql.Postgres.Msg.Fixed.Streaming.{ready_for_query-IsMessage}
use chxsql.Postgres.Msg.Status.{command_complete, new_command, CommandComplete}
use chxsql.Postgres.Msg.Streaming.{command_complete-IsMessage}
use chxsql.Postgres.Operation.{Round, complete, read}
use chxsql.Postgres.Operation.Termination.{Settles}
use chxsql.Postgres.Outcome.{Streams, outcome, parse_success}
use chxsql.Postgres.ParseQuery.{new_preparation, prepare_parse, parse_request}
use chxsql.Postgres.ParseQuery.Termination.{ValidPreparation, prepare_parse-Settles}
use chxsql.Postgres.Requests.{query_request_layout, parse_request_layout}
use chxsql.Postgres.Rows.{Row, ResultSet, RowDescription}
use chxsql.Postgres.SimpleQuery.{new_query, query_parse, query_request}
use chxsql.Postgres.SimpleQuery.Termination.{ValidQuery, query_parse-Settles}

-- `CommandComplete` and `ReadyForQuery` as a server sends them.
abbrev pub tag : Bytes
tag = codes "SELECT 1"

abbrev pub ready_bytes : Bytes
ready_bytes = b'Z' ∷ 0 ∷ 0 ∷ 0 ∷ 5 ∷ b'I' ∷ []

abbrev pub bind_bytes : Bytes
bind_bytes = b'2' ∷ 0 ∷ 0 ∷ 0 ∷ 4 ∷ []

abbrev pub parse_bytes : Bytes
parse_bytes = b'1' ∷ 0 ∷ 0 ∷ 0 ∷ 4 ∷ []

abbrev command_bytes : Bytes
command_bytes = b'C' ∷ 0 ∷ 0 ∷ 0 ∷ 13 ∷ (tag ++ 0 ∷ [])

-- A row description of one column named `a`, of type 25 and of text format.
abbrev pub columns_bytes : Bytes
columns_bytes =
    b'T' ∷ 0 ∷ 0 ∷ 0 ∷ 26 ∷ 0 ∷ 1 ∷ b'a' ∷ 0 ∷ 0 ∷ 0 ∷ 0 ∷ 0 ∷ 0 ∷ 0 ∷ 0 ∷ 0 ∷ 0 ∷ 25 ∷ 255 ∷ 255
    ∷ 255 ∷ 255 ∷ 255 ∷ 255 ∷ 0 ∷ 0 ∷ []

-- A row with the value `x`, and one with NULL.
abbrev row_bytes : Bytes
row_bytes = b'D' ∷ 0 ∷ 0 ∷ 0 ∷ 11 ∷ 0 ∷ 1 ∷ 0 ∷ 0 ∷ 0 ∷ 1 ∷ b'x' ∷ []

abbrev null_bytes : Bytes
null_bytes = b'D' ∷ 0 ∷ 0 ∷ 0 ∷ 10 ∷ 0 ∷ 1 ∷ 255 ∷ 255 ∷ 255 ∷ 255 ∷ []

abbrev pub select_bytes : Bytes
select_bytes = columns_bytes ++ (row_bytes ++ (null_bytes ++ (command_bytes ++ ready_bytes)))

abbrev column_a : RowDescription
column_a = record {
  field_name = b'a' ∷ [];
  table_id = 0;
  column_attribute_number = 0;
  field_data_type_id = 25;
  data_type_size = 65535;
  type_modifier = 4294967295;
  format_code = 0;
}

abbrev pub rows_of_a : ResultSet
rows_of_a = record { desc = column_a ∷ []; rows = (some (b'x' ∷ []) ∷ []) ∷ (none ∷ []) ∷ [] }

basic_parser-resumes_example :
    observe (basic_parser ready_for_query (new_frame 0) ready_bytes)
    ≡ observe (
        resume_reply
          (basic_parser ready_for_query)
          (basic_parser ready_for_query (new_frame 0) (b'Z' ∷ 0 ∷ 0 ∷ []))
          (0 ∷ 5 ∷ b'I' ∷ []))
basic_parser-resumes_example =
    basic_parser-resumes ready_for_query ready_for_query-IsMessage (new_frame 0) (b'Z' ∷ 0 ∷ 0 ∷ [])
      (0 ∷ 5 ∷ b'I' ∷ []) (tt, tt)

basic_parser-Answered_example :
    Answered ready_for_query ready_for_query-IsMessage
      (length ready_bytes)
      (basic_parser ready_for_query (new_frame 0) ready_bytes)
basic_parser-Answered_example =
    basic_parser-Answered ready_for_query ready_for_query-IsMessage (new_frame 0) ready_bytes
      (tt, tt, tt)

basic_parser-framed_example :
    basic_parser ready_for_query (new_frame 0) (framed b'Z' (b'I' ∷ []) ++ tag)
    ≡ reply parse_success (frame_at at_body 0 b'I') tag
unfolding ready_for_query_body
basic_parser-framed_example =
    basic_parser-framed ready_for_query 0 0 b'I' b'Z' (b'I' ∷ []) tag refl refl refl (omega arith)

execute_parse-Settles_example :
    Settles ValidExecution (execute_parse new_execution (bind_bytes ++ columns_bytes))
execute_parse-Settles_example = execute_parse-Settles new_execution (bind_bytes ++ columns_bytes) tt

oneshot_parse-Settles_example :
    Settles ValidExecution (oneshot_parse new_oneshot (parse_bytes ++ columns_bytes))
oneshot_parse-Settles_example = oneshot_parse-Settles new_oneshot (parse_bytes ++ columns_bytes) tt

query_parse-Settles_example : Settles ValidQuery (query_parse new_query select_bytes)
query_parse-Settles_example = query_parse-Settles new_query select_bytes (tt, tt)

prepare_parse-Settles_example : Settles ValidPreparation (prepare_parse new_preparation parse_bytes)
prepare_parse-Settles_example = prepare_parse-Settles new_preparation parse_bytes tt

query_request_layout_example : query_request tag ≡ some (framed b'Q' (string_to_network tag))
query_request_layout_example = query_request_layout tag (omega arith)

parse_request_layout_example :
    parse_request [] tag
    ≡ some (
        framed b'P' (string_to_network [] ++ (string_to_network tag ++ (0 ∷ 0 ∷ [])))
        ++ framed b'S' [])
parse_request_layout_example = parse_request_layout [] tag (omega arith)

first_entry : Mem ("00000", Errc.successful_completion) sqlstate_map
unfolding sqlstate_map
first_entry = mem-cons.1 (Or.inl refl)

sqlstate_map-lookup_example :
    make_ec (sqlstate_to_errc (codes "00000")) ≡ make_ec Errc.successful_completion
sqlstate_map-lookup_example = sqlstate_map-lookup "00000" Errc.successful_completion first_entry

execute_parse-resumes_example :
    shown (execute_parse new_execution (bind_bytes ++ select_bytes))
    ≡ shown (resume_round execute_parse (execute_parse new_execution bind_bytes) select_bytes)
execute_parse-resumes_example = execute_parse-resumes new_execution bind_bytes select_bytes tt

oneshot_parse-resumes_example :
    shown (oneshot_parse new_oneshot (parse_bytes ++ bind_bytes))
    ≡ shown (resume_round oneshot_parse (oneshot_parse new_oneshot parse_bytes) bind_bytes)
oneshot_parse-resumes_example = oneshot_parse-resumes new_oneshot parse_bytes bind_bytes tt

query_parse-resumes_example :
    shown (query_parse new_query (columns_bytes ++ row_bytes))
    ≡ shown (resume_round query_parse (query_parse new_query columns_bytes) row_bytes)
query_parse-resumes_example = query_parse-resumes new_query columns_bytes row_bytes (tt, tt)

prepare_parse-resumes_example :
    shown (prepare_parse new_preparation (parse_bytes ++ ready_bytes))
    ≡ shown (resume_round prepare_parse (prepare_parse new_preparation parse_bytes) ready_bytes)
prepare_parse-resumes_example = prepare_parse-resumes new_preparation parse_bytes ready_bytes tt

-- A row with a value, an empty value and a NULL.
abbrev mixed_row : Row
mixed_row = some tag ∷ some [] ∷ none ∷ []

basic_parser-encode_row_example :
    (f : Frame Values) × (basic_parser data_row
        (new_frame (new_row 3))
        (framed b'D' (encode_row mixed_row) ++ tag)
      ≡ reply parse_success f tag)
    × (f.result.row ≡ mixed_row)
unfolding integer_to_network
basic_parser-encode_row_example =
    basic_parser-encode_row mixed_row tag (omega arith, (omega arith, tt)) (omega arith)
      (omega arith)

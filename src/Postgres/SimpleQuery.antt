-- ===== src/Postgres/SimpleQuery.antt =====
-- include/chx/sql/postgresql/detail/simple_query.ipp: running the text of a query.
pub mod Termination
pub mod Streaming
use chxsql.Base.{
  allocated, ℕ, ◌+◌, ◌-◌, ◌%◌, ◌^◌, Bytes, [], ◌∷◌, ◌++◌, Option, none, some, length, ◌==◌,
  if◌then◌else◌,
}
use chxsql.Postgres.Basic.{integer_to_network, string_to_network}
use chxsql.Postgres.ErrorCode.Values.{Errc}
use chxsql.Postgres.ErrorCode.{ErrorCode, no_error, make_ec}
use chxsql.Postgres.Frame.{Frame, new_frame, basic_parser}
use chxsql.Postgres.Msg.DataRow.{Values, new_row, data_row}
use chxsql.Postgres.Msg.Fixed.{empty_query_response, ready_for_query}
use chxsql.Postgres.Msg.Report.{
  ErrorResponse, new_error, error_response, NoticeResponse, notice_type, notice_response,
}
use chxsql.Postgres.Msg.RowDescription.{Columns, no_columns, row_description}
use chxsql.Postgres.Msg.Status.{
  CommandComplete, new_command, command_complete, ParameterStatus, new_parameter, parameter_status,
}
use chxsql.Postgres.Operation.{
  Completion, Round, go_on, read, complete, crash, then_round, do_rounds,
}
use chxsql.Postgres.Rows.{ResultSet, ResultSets}

-- The alternatives of `__M_parsers`.
pub data Querying : Type 0 where
  idle : Querying
  row : Frame Values → Querying
  columns : Frame Columns → Querying
  empty_query : Frame (Unit {0}) → Querying
  command : Frame CommandComplete → Querying
  ready : Frame ℕ → Querying
  error : Frame ErrorResponse → Querying
  notice : Frame NoticeResponse → Querying
  parameter : Frame ParameterStatus → Querying

-- `__CurrRespType`.
pub data CurrRespType : Type 0 where
  unknown with_data_no_def with_data_with_def empty : CurrRespType

pub record Query : Type 0 where
  pub result : ResultSets
  pub curr : Option ResultSet
  pub curr_type : CurrRespType
  pub parsers : Querying

abbrev pub query_refusal : Query → Completion
query_refusal s = (make_ec Errc.malformed_message, s.result)

abbrev malformed : Query → Bytes → Round Query Completion
malformed s xs = complete (query_refusal s) xs

abbrev start : Query → Querying → Bytes → Round Query Completion
start s p xs = go_on (record s { parsers = p }) xs

-- `__M_curr->__M_desc.size()`, cast to a uint16_t.
query_row_of : Query → Option ResultSet → Bytes → Round Query Completion
query_row_of s none xs = crash
query_row_of s (some r) xs = start s (row (new_frame (new_row (length r.desc % 2 ^ 16)))) xs

-- `case 0`, a `D`, a `T` and an `I` by `__M_curr_type`.
rows_type : CurrRespType → Query → Bytes → Round Query Completion
rows_type with_data_with_def s xs = query_row_of s s.curr xs
rows_type _ s xs = malformed s xs

columns_type : CurrRespType → Query → Bytes → Round Query Completion
columns_type unknown s xs =
    go_on
      (record s {
        curr_type = with_data_no_def;
        curr = some (record { desc = []; rows = [] });
        parsers = columns (new_frame no_columns);
      })
      xs
columns_type _ s xs = malformed s xs

empty_type : CurrRespType → Query → Bytes → Round Query Completion
empty_type unknown s xs =
    go_on (record s { curr_type = empty; curr = none; parsers = empty_query (new_frame tt) }) xs
empty_type _ s xs = malformed s xs

unfoldable pub query_type : Query → ℕ → Bytes → Round Query Completion
unfolding rows_type columns_type empty_type query_row_of
query_type s type xs =
    if type == b'D'
    then rows_type s.curr_type s xs
    else if type == b'T'
    then columns_type s.curr_type s xs
    else if type == b'I'
    then empty_type s.curr_type s xs
    else if type == b'C'
    then start s (command (new_frame new_command)) xs
    else if type == b'Z'
    then start s (ready (new_frame 0)) xs
    else if type == b'E'
    then start s (error (new_frame new_error)) xs
    else if type == b'N'
    then start s (notice (new_frame notice_type)) xs
    else if type == b'S'
    then start s (parameter (new_frame new_parameter)) xs
    else malformed s xs

abbrev done : Query → Bytes → Round Query Completion
done s rest = go_on (record s { parsers = idle }) rest

-- `__M_curr->__M_data.emplace_back(…)`.
query_store_row : Query → Option ResultSet → Values → Bytes → Round Query Completion
query_store_row s none v rest = crash
query_store_row s (some r) v rest =
    done (record s { curr = some (record r { rows = r.rows ++ v.row ∷ [] }) }) rest

-- `__M_curr->__M_desc = …`.
query_store_columns : Query → Option ResultSet → Columns → Bytes → Round Query Completion
query_store_columns s none v rest = crash
query_store_columns s (some r) v rest =
    done (record s { curr = some (record r { desc = v.desc }); curr_type = with_data_with_def })
      rest

-- The switch of `do_read_till_ready`. An error ends the operation at once.
unfoldable pub query_case : Querying → Query → Bytes → Round Query Completion
unfolding query_type query_store_row query_store_columns
query_case idle s [] = read s
query_case idle s (type ∷ xs) = query_type s type (type ∷ xs)
query_case (row f) s xs =
    then_round (basic_parser data_row f xs) (λ g. record s { parsers = row g })
      (λ m rest. query_store_row s s.curr m rest) (query_refusal s)
query_case (columns f) s xs =
    then_round (basic_parser row_description f xs) (λ g. record s { parsers = columns g })
      (λ m rest. query_store_columns s s.curr m rest) (query_refusal s)
query_case (empty_query f) s xs =
    then_round (basic_parser empty_query_response f xs) (λ g. record s { parsers = empty_query g })
      (λ m rest. done s rest) (query_refusal s)
query_case (command f) s xs =
    then_round (basic_parser command_complete f xs) (λ g. record s { parsers = command g })
      (λ m rest.
        done (record s { result = s.result ++ s.curr ∷ []; curr = none; curr_type = unknown }) rest)
      (query_refusal s)
query_case (ready f) s xs =
    then_round (basic_parser ready_for_query f xs) (λ g. record s { parsers = ready g })
      (λ m rest. complete (no_error, s.result) rest) (query_refusal s)
query_case (error f) s xs =
    then_round (basic_parser error_response f xs) (λ g. record s { parsers = error g })
      (λ m rest. complete (make_ec m.ec, s.result) rest) (query_refusal s)
query_case (notice f) s xs =
    then_round (basic_parser notice_response f xs) (λ g. record s { parsers = notice g })
      (λ m rest. done s rest) (query_refusal s)
query_case (parameter f) s xs =
    then_round (basic_parser parameter_status f xs) (λ g. record s { parsers = parameter g })
      (λ m rest. done s rest) (query_refusal s)

unfoldable pub query_round : Query → Bytes → Round Query Completion
unfolding query_case
query_round s xs = query_case s.parsers s xs

-- `do_read_till_ready`.
unfoldable pub query_parse : Query → Bytes → Round Query Completion
query_parse = do_rounds query_round

-- The handlers of `ev_send_query` and `ev_read_till_ready`.
unfoldable pub query_on_bytes : ErrorCode → Query → Bytes → Round Query Completion
query_on_bytes e s xs = if e.value == 0 then query_parse s xs else complete (e, s.result) xs

abbrev pub new_query : Query
new_query = record { result = []; curr = none; curr_type = unknown; parsers = idle }

-- `operator()(cntl)`: what is sent. `raw_sz` is a uint32_t.
unfoldable pub query_request : Bytes → Option Bytes
unfolding allocated
query_request query =
    let raw_sz = (5 + length query + 1) % 2 ^ 32 in
    allocated raw_sz
      (b'Q' ∷ (integer_to_network 4 ((raw_sz + (2 ^ 32 - 1)) % 2 ^ 32) ++ string_to_network query))

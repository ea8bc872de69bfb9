-- ===== src/Postgres/Execute.antt =====
-- include/chx/sql/postgresql/detail/execute.ipp and oneshot.ipp: running a prepared statement. The
-- two differ in the answer to Parse, which only the second expects.
pub mod Termination
pub mod Streaming
use chxsql.Base.{ℕ, ◌%◌, ◌^◌, Bytes, [], ◌∷◌, ◌++◌, Option, none, some, length, ◌==◌, if◌then◌else◌}
use chxsql.Postgres.ErrorCode.Values.{Errc}
use chxsql.Postgres.ErrorCode.{ErrorCode, no_error, make_ec}
use chxsql.Postgres.Frame.{Frame, new_frame, basic_parser}
use chxsql.Postgres.Msg.DataRow.{Values, new_row, data_row}
use chxsql.Postgres.Msg.Fixed.{
  bind_complete, parse_complete, no_data, empty_query_response, ready_for_query,
}
use chxsql.Postgres.Msg.Report.{
  ErrorResponse, new_error, error_response, NoticeResponse, notice_type, notice_response,
}
use chxsql.Postgres.Msg.RowDescription.{Columns, no_columns, row_description}
use chxsql.Postgres.Msg.Status.{CommandComplete, new_command, command_complete}
use chxsql.Postgres.Operation.{
  Completion, Round, go_on, read, complete, crash, then_round, do_rounds,
}
use chxsql.Postgres.Rows.{ResultSet, ResultSets}

-- The alternatives of `parsers`; the last one is oneshot's alone.
pub data Parsers : Type 0 where
  idle : Parsers
  error : Frame ErrorResponse → Parsers
  notice : Frame NoticeResponse → Parsers
  bind : Frame (Unit {0}) → Parsers
  columns : Frame Columns → Parsers
  row : Frame Values → Parsers
  nothing : Frame (Unit {0}) → Parsers
  ready : Frame ℕ → Parsers
  command : Frame CommandComplete → Parsers
  empty_query : Frame (Unit {0}) → Parsers
  parsed : Frame (Unit {0}) → Parsers

-- `expect`.
pub data Expect : Type 0 where
  expect_parse_complete bind_complete_next row_desc_or_no_data data_row_next : Expect
  empty_query_next ready_next : Expect

abbrev pub expect_value : Expect → ℕ
expect_value expect_parse_complete = 0
expect_value bind_complete_next = 1
expect_value row_desc_or_no_data = 2
expect_value data_row_next = 3
expect_value empty_query_next = 4
expect_value ready_next = 5

pub record Execution : Type 0 where
  pub err : ErrorCode
  pub result : ResultSets
  pub curr : Option ResultSet
  pub parsers : Parsers
  pub expect : Expect

-- `cntl().complete(make_ec(errc::malformed_message), std::move(result))`.
abbrev pub refusal : Execution → Completion
refusal s = (make_ec Errc.malformed_message, s.result)

abbrev malformed : Execution → Bytes → Round Execution Completion
malformed s xs = complete (refusal s) xs

-- `if (expect == e) { … } else { return cntl().complete(malformed, …); }`.
abbrev when_expected : Execution → Expect → Bytes → Execution → Round Execution Completion
when_expected s e xs s' =
    if expect_value s.expect == expect_value e then go_on s' xs else malformed s xs

-- `__M_curr->__M_desc.size()`, cast to a uint16_t.
row_of : Execution → Option ResultSet → Bytes → Round Execution Completion
row_of s none xs = crash
row_of s (some r) xs =
    let p = row (new_frame (new_row (length r.desc % 2 ^ 16))) in
    go_on (record s { parsers = p }) xs

-- `case 0` of execute.ipp, by the type of the next message.
unfoldable pub execute_type : Execution → ℕ → Bytes → Round Execution Completion
unfolding row_of
execute_type s type xs =
    if type == b'2'
    then when_expected s bind_complete_next xs
        (record s { parsers = bind (new_frame tt); expect = row_desc_or_no_data })
    else if type == b'T'
    then when_expected s row_desc_or_no_data xs
        (record s { parsers = columns (new_frame no_columns); expect = data_row_next })
    else if type == b'D'
    then (if expect_value s.expect == expect_value data_row_next
        then row_of s s.curr xs
        else malformed s xs)
    else if type == b'C'
    then when_expected s data_row_next xs
        (record s { parsers = command (new_frame new_command); expect = ready_next })
    else if type == b'n'
    then when_expected s row_desc_or_no_data xs
        (record s { parsers = nothing (new_frame tt); expect = empty_query_next })
    else if type == b'I'
    then when_expected s empty_query_next xs
        (record s { parsers = empty_query (new_frame tt); expect = ready_next })
    else if type == b'Z'
    then when_expected s ready_next xs (record s { parsers = ready (new_frame 0) })
    else if type == b'E'
    then go_on (record s { parsers = error (new_frame new_error); expect = ready_next }) xs
    else if type == b'N'
    then go_on (record s { parsers = notice (new_frame notice_type) }) xs
    else malformed s xs

-- `case 0` of oneshot.ipp.
unfoldable pub oneshot_type : Execution → ℕ → Bytes → Round Execution Completion
unfolding execute_type
oneshot_type s type xs =
    if type == b'1'
    then when_expected s expect_parse_complete xs
        (record s { parsers = parsed (new_frame tt); expect = bind_complete_next })
    else execute_type s type xs

-- `parsers.emplace<0>(); break;`.
abbrev done : Execution → Bytes → Round Execution Completion
done s rest = go_on (record s { parsers = idle }) rest

-- `__M_curr->__M_data.emplace_back(…)`.
store_row : Execution → Option ResultSet → Values → Bytes → Round Execution Completion
store_row s none v rest = crash
store_row s (some r) v rest =
    done (record s { curr = some (record r { rows = r.rows ++ v.row ∷ [] }) }) rest

-- The other cases. Case 10 is oneshot's.
unfoldable pub parsers_case : Parsers → Execution → Bytes → Round Execution Completion
unfolding store_row
parsers_case idle s xs = crash
parsers_case (error f) s xs =
    then_round (basic_parser error_response f xs) (λ g. record s { parsers = error g })
      (λ m rest. done (record s { err = make_ec m.ec }) rest) (refusal s)
parsers_case (notice f) s xs =
    then_round (basic_parser notice_response f xs) (λ g. record s { parsers = notice g })
      (λ m rest. done s rest) (refusal s)
parsers_case (bind f) s xs =
    then_round (basic_parser bind_complete f xs) (λ g. record s { parsers = bind g })
      (λ m rest. done s rest) (refusal s)
parsers_case (columns f) s xs =
    then_round (basic_parser row_description f xs) (λ g. record s { parsers = columns g })
      (λ m rest. done (record s { curr = some (record { desc = m.desc; rows = [] }) }) rest)
      (refusal s)
parsers_case (row f) s xs =
    then_round (basic_parser data_row f xs) (λ g. record s { parsers = row g })
      (λ m rest. store_row s s.curr m rest) (refusal s)
parsers_case (nothing f) s xs =
    then_round (basic_parser no_data f xs) (λ g. record s { parsers = nothing g })
      (λ m rest. done s rest) (refusal s)
parsers_case (ready f) s xs =
    then_round (basic_parser ready_for_query f xs) (λ g. record s { parsers = ready g })
      (λ m rest. complete (s.err, s.result) rest) (refusal s)
parsers_case (command f) s xs =
    then_round (basic_parser command_complete f xs) (λ g. record s { parsers = command g })
      (λ m rest. done (record s { result = s.result ++ s.curr ∷ []; curr = none }) rest) (refusal s)
parsers_case (empty_query f) s xs =
    then_round (basic_parser empty_query_response f xs) (λ g. record s { parsers = empty_query g })
      (λ m rest. done s rest) (refusal s)
parsers_case (parsed f) s xs =
    then_round (basic_parser parse_complete f xs) (λ g. record s { parsers = parsed g })
      (λ m rest. done s rest) (refusal s)

-- The switch, over `case 0` of either operation.
switch :
    (Execution → ℕ → Bytes → Round Execution Completion)
    → Parsers
    → Execution
    → Bytes
    → Round Execution Completion
switch by_type idle s [] = read s
switch by_type idle s (type ∷ xs) = by_type s type (type ∷ xs)
switch by_type p s xs = parsers_case p s xs

unfoldable pub execute_round : Execution → Bytes → Round Execution Completion
unfolding switch
execute_round s xs = switch execute_type s.parsers s xs

unfoldable pub oneshot_round : Execution → Bytes → Round Execution Completion
unfolding switch
oneshot_round s xs = switch oneshot_type s.parsers s xs

-- `do_parse`.
unfoldable pub execute_parse : Execution → Bytes → Round Execution Completion
execute_parse = do_rounds execute_round

unfoldable pub oneshot_parse : Execution → Bytes → Round Execution Completion
oneshot_parse = do_rounds oneshot_round

-- The handlers of `ev_send` and `ev_read` of execute.ipp, and `ev_read` of oneshot.ipp.
unfoldable pub on_bytes :
    (Execution → Bytes → Round Execution Completion)
    → ErrorCode
    → Execution
    → Bytes
    → Round Execution Completion
on_bytes parse e s xs = if e.value == 0 then parse s xs else complete (e, s.result) xs

-- `ev_send` of oneshot.ipp, which has no test of the error: the operation has parsed its buffer
-- before it sends.
unfoldable pub oneshot_sent : ErrorCode → Execution → Bytes → Round Execution Completion
oneshot_sent e s xs = complete (e, s.result) xs

abbrev pub new_execution : Execution
new_execution = record {
  err = no_error;
  result = [];
  curr = none;
  parsers = idle;
  expect = bind_complete_next;
}

abbrev pub new_oneshot : Execution
new_oneshot = record new_execution { expect = expect_parse_complete }

-- ===== src/Postgres/ParseQuery.antt =====
-- include/chx/sql/postgresql/detail/parse_query.ipp: preparing a statement.
pub mod Termination
pub mod Streaming
use chxsql.Base.{
  allocated, ℕ, ◌+◌, ◌-◌, ◌%◌, ◌^◌, Bytes, [], ◌∷◌, ◌++◌, Option, length, ◌==◌, if◌then◌else◌,
}
use chxsql.Postgres.Basic.{integer_to_network, string_to_network}
use chxsql.Postgres.ErrorCode.Values.{Errc}
use chxsql.Postgres.ErrorCode.{ErrorCode, no_error, make_ec}
use chxsql.Postgres.Frame.{Frame, new_frame, basic_parser}
use chxsql.Postgres.Msg.Fixed.{parse_complete, ready_for_query}
use chxsql.Postgres.Msg.Report.{
  ErrorResponse, new_error, error_response, NoticeResponse, notice_type, notice_response,
}
use chxsql.Postgres.Operation.{Round, go_on, read, complete, then_round, do_rounds}

-- The alternatives of `parsers`.
pub data Preparing : Type 0 where
  idle : Preparing
  parsed : Frame (Unit {0}) → Preparing
  error : Frame ErrorResponse → Preparing
  notice : Frame NoticeResponse → Preparing
  ready : Frame ℕ → Preparing

-- `Stage`.
pub data PrepareStage : Type 0 where
  wait_for_parse_complete wait_for_ready_for_query : PrepareStage

pub record Preparation : Type 0 where
  pub parsers : Preparing
  pub stage : PrepareStage

abbrev malformed : Bytes → Round Preparation ErrorCode
malformed xs = complete (make_ec Errc.malformed_message) xs

abbrev start : Preparation → Preparing → Bytes → Round Preparation ErrorCode
start s p xs = go_on (record s { parsers = p }) xs

-- `case 0`, by the stage and the type.
unfoldable pub prepare_type : PrepareStage → Preparation → ℕ → Bytes → Round Preparation ErrorCode
prepare_type wait_for_parse_complete s type xs =
    if type == b'1'
    then start s (parsed (new_frame tt)) xs
    else if type == b'E'
    then start s (error (new_frame new_error)) xs
    else if type == b'N'
    then start s (notice (new_frame notice_type)) xs
    else malformed xs
prepare_type wait_for_ready_for_query s type xs =
    if type == b'E'
    then start s (error (new_frame new_error)) xs
    else if type == b'N'
    then start s (notice (new_frame notice_type)) xs
    else if type == b'Z'
    then start s (ready (new_frame 0)) xs
    else malformed xs

abbrev refusal : ErrorCode
refusal = make_ec Errc.malformed_message

-- The switch of `do_parse`. An error ends the operation at once.
unfoldable pub prepare_case : Preparing → Preparation → Bytes → Round Preparation ErrorCode
unfolding prepare_type
prepare_case idle s [] = read s
prepare_case idle s (type ∷ xs) = prepare_type s.stage s type (type ∷ xs)
prepare_case (parsed f) s xs =
    then_round (basic_parser parse_complete f xs) (λ g. record s { parsers = parsed g })
      (λ m rest. go_on (record { parsers = idle; stage = wait_for_ready_for_query }) rest) refusal
prepare_case (error f) s xs =
    then_round (basic_parser error_response f xs) (λ g. record s { parsers = error g })
      (λ m rest. complete (make_ec m.ec) rest) refusal
prepare_case (notice f) s xs =
    then_round (basic_parser notice_response f xs) (λ g. record s { parsers = notice g })
      (λ m rest. go_on (record s { parsers = idle }) rest) refusal
prepare_case (ready f) s xs =
    then_round (basic_parser ready_for_query f xs) (λ g. record s { parsers = ready g })
      (λ m rest. complete no_error rest) refusal

unfoldable pub prepare_round : Preparation → Bytes → Round Preparation ErrorCode
unfolding prepare_case
prepare_round s xs = prepare_case s.parsers s xs

-- `do_parse`.
unfoldable pub prepare_parse : Preparation → Bytes → Round Preparation ErrorCode
prepare_parse = do_rounds prepare_round

-- The handlers of `ev_send` and `ev_read`.
unfoldable pub prepare_on_bytes : ErrorCode → Preparation → Bytes → Round Preparation ErrorCode
prepare_on_bytes e s xs = if e.value == 0 then prepare_parse s xs else complete e xs

abbrev pub new_preparation : Preparation
new_preparation = record { parsers = idle; stage = wait_for_parse_complete }

-- `operator()(cntl)`: what is sent. The vector has `raw_len` zero bytes, a uint32_t, and the two
-- bytes for the number of parameter types are skipped.
unfoldable pub parse_request : Bytes → Bytes → Option Bytes
unfolding allocated
parse_request pattern_name pattern =
    let p_len = (5 + length pattern_name + length pattern + 2 + 2) % 2 ^ 32 in
    let raw_len = (p_len + 5) % 2 ^ 32 in
    allocated raw_len (
      b'P'
      ∷ (integer_to_network 4 ((p_len + (2 ^ 32 - 1)) % 2 ^ 32)
          ++ (string_to_network pattern_name
              ++ (string_to_network pattern ++ (0 ∷ 0 ∷ b'S' ∷ integer_to_network 4 4)))))

-- ===== src/Postgres/Msg/Report.antt =====
-- include/chx/sql/postgresql/detail/msg/: error_response.hpp and notice_response.hpp. Both are
-- fields, a type byte and a text each, up to a zero byte; of an error the SQLSTATE is kept.
pub mod Streaming
pub mod RoundTrip
use chxsql.Base.{ℕ, ◌-◌, Bytes, [], ◌∷◌, take, length, ◌==◌, if◌then◌else◌}
use chxsql.Postgres.Outcome.{parse_success, parse_need_more, Verdict, make_success}
use chxsql.Postgres.Basic.{IntegerArray, integer_array, string, insert_nop}
use chxsql.Postgres.ErrorCode.Values.{Errc}
use chxsql.Postgres.ErrorCode.{sqlstate_to_errc}
use chxsql.Postgres.Message.{Message, of_type, of_length, any_length}
use chxsql.Postgres.Turn.{Turn, again, stop, then_turn, body}

-- The alternatives of `__M_parsers`.
pub data ErrorParser : Type 0 where
  field_type : ErrorParser
  sqlstate : IntegerArray → ErrorParser
  skipped : ℕ → ErrorParser

pub record ErrorResponse : Type 0 where
  pub ec : Errc
  pub parsers : ErrorParser

-- `emplace<1>(6)`: five characters and a nul.
abbrev pub six : IntegerArray
six = record { result = []; target = 6; parser = [] }

-- `case 0`.
unfoldable pub error_field_turn : Errc → Bytes → Turn ErrorResponse
error_field_turn e [] = stop parse_need_more (record { ec = e; parsers = field_type })
error_field_turn e (type ∷ rest) =
    if type == b'C'
    then again (record { ec = e; parsers = sqlstate six }) rest
    else if type == 0
    then stop (make_success rest) (record { ec = e; parsers = field_type })
    else again (record { ec = e; parsers = skipped 0 }) rest

-- `case 1`: `{v.begin(), v.end() - 1}` is all but the last.
unfoldable pub sqlstate_turn : Errc → IntegerArray → Bytes → Turn ErrorResponse
sqlstate_turn e p xs =
    then_turn (integer_array 1 p xs) (λ q. record { ec = e; parsers = sqlstate q })
      (λ q rest.
        let state = take (length q.result - 1) q.result in
        again (record { ec = sqlstate_to_errc state; parsers = field_type }) rest)

-- `case 2`.
unfoldable pub skip_turn : Errc → ℕ → Bytes → Turn ErrorResponse
skip_turn e p xs =
    then_turn (string insert_nop p xs) (λ q. record { ec = e; parsers = skipped q })
      (λ q rest. again (record { ec = e; parsers = field_type }) rest)

error_turn_in : ErrorParser → Errc → Bytes → Turn ErrorResponse
error_turn_in field_type e xs = error_field_turn e xs
error_turn_in (sqlstate p) e xs = sqlstate_turn e p xs
error_turn_in (skipped p) e xs = skip_turn e p xs

unfoldable pub error_turn : ErrorResponse → Bytes → Turn ErrorResponse
unfolding error_turn_in
error_turn s xs = error_turn_in s.parsers s.ec xs

unfoldable pub error_response_body : ErrorResponse → Bytes → Verdict ErrorResponse
error_response_body = body error_turn

-- Value-initialised: `ec` is 0.
abbrev pub new_error : ErrorResponse
new_error = record { ec = Errc.successful_completion; parsers = field_type }

abbrev pub error_response : Message
error_response = record {
  State = ErrorResponse;
  on_message_type = of_type b'E';
  on_message_length = any_length;
  on_body = error_response_body;
}

-- The alternatives of a notice's `__M_parsers`.
pub data NoticeResponse : Type 0 where
  notice_type : NoticeResponse
  notice_text : ℕ → NoticeResponse

-- `case 1`.
unfoldable pub notice_text_turn : ℕ → Bytes → Turn NoticeResponse
notice_text_turn p xs =
    then_turn (string insert_nop p xs) (λ q. notice_text q) (λ q rest. again notice_type rest)

-- `case 0`, which falls into `case 1`.
unfoldable pub notice_turn : NoticeResponse → Bytes → Turn NoticeResponse
notice_turn notice_type [] = stop parse_need_more notice_type
notice_turn notice_type (type ∷ rest) =
    if type == 0 then stop (make_success rest) notice_type else notice_text_turn 0 rest
notice_turn (notice_text p) xs = notice_text_turn p xs

unfoldable pub notice_response_body : NoticeResponse → Bytes → Verdict NoticeResponse
notice_response_body = body notice_turn

abbrev pub notice_response : Message
notice_response = record {
  State = NoticeResponse;
  on_message_type = of_type b'N';
  on_message_length = any_length;
  on_body = notice_response_body;
}

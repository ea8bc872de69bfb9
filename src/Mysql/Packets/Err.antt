-- ===== src/Mysql/Packets/Err.antt =====
-- include/chx/sql/mysql/detail/packets/ERR_Packet.hpp.
pub mod RoundTrip
use chxsql.Base.{ℕ, ◌%◌, ◌^◌, Bytes, [], ◌∷◌, ◌++◌, Bool, ◌==◌, if◌then◌else◌}
use chxsql.Mysql.Basic.{Digits, no_digits, fixed_length_integer, fixed_length_string, keeping}
use chxsql.Mysql.Result.{
  Parsed, parsed, then_parsed, payload_success, payload_need_more, payload_malformed,
  payload_malformed_header,
}

pub record ErrPacket : Type 0 where
  pub error_code : ℕ
  pub sql_state : Bytes
  pub error_message : Bytes

pub data ErrStage : Type 0 where
  header error_code_stage : Digits → ErrStage
  sql_state_marker : ErrStage
  sql_state_stage : Bytes → ErrStage
  error_message_stage : ErrStage

pub record ErrParser : Type 0 where
  pub stage : ErrStage
  pub result : ErrPacket

abbrev pub err_at : ErrStage → ErrPacket → ErrParser
err_at g r = record { stage = g; result = r }

-- The constructor leaves `error_code` as it was; it is written before it is read.
abbrev pub new_err : ErrParser
new_err = err_at (header no_digits) (record { error_code = 0; sql_state = []; error_message = [] })

-- `case ErrorMessage`.
unfoldable pub error_message_case : ErrPacket → Bytes → Bool → Parsed ErrParser
error_message_case r xs is_final =
    parsed (if is_final then payload_success else payload_need_more)
      (err_at error_message_stage (record r { error_message = r.error_message ++ xs })) []

-- `case SqlState`.
unfoldable pub sql_state_case : ErrPacket → Bytes → Bytes → Bool → Parsed ErrParser
unfolding error_message_case
sql_state_case r p xs is_final =
    then_parsed (fixed_length_string keeping 5 p xs) (λ q. err_at (sql_state_stage q) r)
      (λ q rest. error_message_case (record r { sql_state = q }) rest is_final)

-- `case SqlStateMarker`.
unfoldable pub marker_case : ErrPacket → Bytes → Bool → Parsed ErrParser
unfolding sql_state_case
marker_case r [] is_final = parsed payload_need_more (err_at sql_state_marker r) []
marker_case r (marker ∷ rest) is_final =
    if marker == b'#'
    then sql_state_case r [] rest is_final
    else parsed payload_malformed (err_at sql_state_marker r) rest

-- `case ErrorCode`.
unfoldable pub error_code_case : ErrPacket → Digits → Bytes → Bool → Parsed ErrParser
unfolding marker_case
error_code_case r p xs is_final =
    then_parsed (fixed_length_integer 2 p xs) (λ q. err_at (error_code_stage q) r)
      (λ q rest. marker_case (record r { error_code = q.result % 2 ^ 16 }) rest is_final)

-- `case Header`.
unfoldable pub err_header_case : ErrPacket → Digits → Bytes → Bool → Parsed ErrParser
unfolding error_code_case
err_header_case r p xs is_final =
    then_parsed (fixed_length_integer 1 p xs) (λ q. err_at (header q) r)
      (λ q rest.
        if q.result == 0xff
        then error_code_case r no_digits rest is_final
        else parsed payload_malformed_header (err_at (header q) r) rest)

err_in : ErrStage → ErrPacket → Bytes → Bool → Parsed ErrParser
err_in (header p) r xs is_final = err_header_case r p xs is_final
err_in (error_code_stage p) r xs is_final = error_code_case r p xs is_final
err_in sql_state_marker r xs is_final = marker_case r xs is_final
err_in (sql_state_stage p) r xs is_final = sql_state_case r p xs is_final
err_in error_message_stage r xs is_final = error_message_case r xs is_final

-- `operator()`.
unfoldable pub err_parser : ErrParser → Bytes → Bool → Parsed ErrParser
unfolding err_in err_header_case
err_parser s xs is_final = err_in s.stage s.result xs is_final

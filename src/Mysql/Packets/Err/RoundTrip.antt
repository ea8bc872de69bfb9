-- ===== src/Mysql/Packets/Err/RoundTrip.antt =====
-- The layout of an ERR packet, and its parser.
use mathlib.Core.Path.{subst}
use chxsql.Base.{ℕ, ◌%◌, ◌^◌, ◌<◌, Bytes, [], ◌∷◌, ◌++◌, ◌≡◌, refl, ap, ◌∙◌, true, arith, length}
use chxsql.Mysql.Basic.RoundTrip.{
  read_one, read_two, fixed_length_string_reads, keeping-IsContainer,
}
use chxsql.Mysql.Basic.{keeping, no_digits, fixed_length_string}
use chxsql.Mysql.Encode.{fixed_length_integer_to_network}
use chxsql.Mysql.Packets.Err.{
  ErrPacket, new_err, err_at, error_message_stage, error_message_case, sql_state_case, marker_case,
  error_code_case, err_header_case, err_parser,
}
use chxsql.Mysql.Result.{parsed, payload_success}

-- The layout of an ERR packet.
abbrev pub encode_err : ℕ → Bytes → Bytes → Bytes
encode_err code state message =
    0xff ∷ (fixed_length_integer_to_network 2 code ++ b'#' ∷ (state ++ message))

abbrev pub err_packet : ℕ → Bytes → Bytes → ErrPacket
err_packet code state message = record {
  error_code = code;
  sql_state = state;
  error_message = message;
}

state_read :
    (code : ℕ) (state message : Bytes)
    → length state ≡ 5
    → sql_state_case (err_packet code [] []) [] (state ++ message) true
      ≡ parsed payload_success (err_at error_message_stage (err_packet code state message)) []
unfolding sql_state_case error_message_case
state_read code state message h =
    let five : fixed_length_string keeping 5 [] (state ++ message)
        ≡ parsed payload_success state message =
      subst
        (λ (n : ℕ).
          fixed_length_string keeping n [] (state ++ message)
          ≡ parsed payload_success state message)
        h (fixed_length_string_reads keeping keeping-IsContainer state message) in
    rw five refl

code_read :
    (code : ℕ) (state message : Bytes)
    → code < 2 ^ 16
    → length state ≡ 5
    → error_code_case
        (err_packet 0 [] [])
        no_digits
        (fixed_length_integer_to_network 2 code ++ b'#' ∷ (state ++ message))
        true
      ≡ parsed payload_success (err_at error_message_stage (err_packet code state message)) []
unfolding error_code_case marker_case
code_read code state message h k =
    let same : code % 2 ^ 16 ≡ code = omega (arith, h) in
    rw (read_two code (b'#' ∷ (state ++ message)) h, error_code_case)
      (ap (λ (c : ℕ). sql_state_case (err_packet c [] []) [] (state ++ message) true) same
        ∙ state_read code state message k)

-- A whole ERR packet with an SQLSTATE of five bytes is read back.
pub err_parser-encode :
    (code : ℕ) (state message : Bytes)
    → code < 2 ^ 16
    → length state ≡ 5
    → err_parser new_err (encode_err code state message) true
      ≡ parsed payload_success (err_at error_message_stage (err_packet code state message)) []
unfolding err_parser err_header_case
err_parser-encode code state message h k =
    rw
      (
        read_one 0xff (fixed_length_integer_to_network 2 code ++ b'#' ∷ (state ++ message))
            (omega arith),
        err_header_case,
      )
      (code_read code state message h k)

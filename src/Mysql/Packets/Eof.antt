-- ===== src/Mysql/Packets/Eof.antt =====
-- include/chx/sql/mysql/detail/packets/EOF_Packet.hpp.
use chxsql.Base.{ℕ, ◌%◌, ◌^◌, Bytes, [], ◌∷◌, ◌==◌, if◌then◌else◌}
use chxsql.Mysql.Basic.{Digits, no_digits, fixed_length_integer}
use chxsql.Mysql.Result.{
  Parsed, parsed, then_parsed, payload_success, payload_need_more, payload_malformed_header,
}

pub record EofPacket : Type 0 where
  pub warning_count : ℕ
  pub server_status : ℕ

pub data EofStage : Type 0 where
  header : EofStage
  warning_count_stage server_status_stage : Digits → EofStage

pub record EofParser : Type 0 where
  pub stage : EofStage
  pub result : EofPacket

abbrev pub eof_at : EofStage → EofPacket → EofParser
eof_at g r = record { stage = g; result = r }

abbrev pub new_eof : EofParser
new_eof = eof_at header (record { warning_count = 0; server_status = 0 })

-- `case ServerStatus`.
unfoldable pub server_status_case : EofPacket → Digits → Bytes → Parsed EofParser
server_status_case r p xs =
    then_parsed (fixed_length_integer 2 p xs) (λ q. eof_at (server_status_stage q) r)
      (λ q rest.
        parsed payload_success
          (eof_at (server_status_stage no_digits) (record r { server_status = q.result % 2 ^ 16 }))
          rest)

-- `case WarningCount`.
unfoldable pub warning_count_case : EofPacket → Digits → Bytes → Parsed EofParser
unfolding server_status_case
warning_count_case r p xs =
    then_parsed (fixed_length_integer 2 p xs) (λ q. eof_at (warning_count_stage q) r)
      (λ q rest. server_status_case (record r { warning_count = q.result % 2 ^ 16 }) no_digits rest)

-- `case Header`.
unfoldable pub eof_header_case : EofPacket → Bytes → Parsed EofParser
unfolding warning_count_case
eof_header_case r [] = parsed payload_need_more (eof_at header r) []
eof_header_case r (b ∷ rest) =
    if b == 0xfe
    then warning_count_case r no_digits rest
    else parsed payload_malformed_header (eof_at header r) rest

eof_in : EofStage → EofPacket → Bytes → Parsed EofParser
eof_in header r xs = eof_header_case r xs
eof_in (warning_count_stage p) r xs = warning_count_case r p xs
eof_in (server_status_stage p) r xs = server_status_case r p xs

-- `operator()`.
unfoldable pub eof_parser : EofParser → Bytes → Parsed EofParser
unfolding eof_in eof_header_case
eof_parser s xs = eof_in s.stage s.result xs

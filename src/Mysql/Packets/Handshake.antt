-- ===== src/Mysql/Packets/Handshake.antt =====
-- include/chx/sql/mysql/detail/packets/HandshakeV10_Packet.hpp, and the flag of
-- capabilities_flags.hpp that it looks at.
pub mod RoundTrip
use chxsql.Base.{ℕ, ◌+◌, ◌-◌, ◌*◌, ◌%◌, ◌^◌, Bytes, [], leb, ltb, ◌==◌, if◌then◌else◌}
use chxsql.Mysql.Basic.{
  Digits, no_digits, fixed_length_integer, fixed_length_string, keeping, nop_container,
  null_terminated_string, VariableString, variable_length_string,
}
use chxsql.Mysql.Packets.Ok.{has_flag}
use chxsql.Mysql.Result.{Parsed, parsed, then_parsed, payload_success, payload_malformed}

pub record HandshakePacket : Type 0 where
  pub server_version : Bytes
  pub thread_id : ℕ
  pub auth_plugin_data_part_1 : Bytes
  pub capability_flags_1 : ℕ
  pub character_set : ℕ
  pub status_flags : ℕ
  pub capability_flags_2 : ℕ
  pub auth_plugin_data_len : ℕ
  pub auth_plugin_data_part_2 : Bytes
  pub auth_plugin_name : Bytes

pub data HandshakeStage : Type 0 where
  protocol_version : Digits → HandshakeStage
  server_version_stage : Bytes → HandshakeStage
  thread_id_stage : Digits → HandshakeStage
  data_part_1 : Bytes → HandshakeStage
  filler cap_flags_1 character_set_stage status_flags_stage : Digits → HandshakeStage
  cap_flags_2 data_len : Digits → HandshakeStage
  reserved : ℕ → HandshakeStage
  data_part_2 : VariableString keeping → HandshakeStage
  plugin_name : Bytes → HandshakeStage

pub record HandshakeParser : Type 0 where
  pub stage : HandshakeStage
  pub result : HandshakePacket

abbrev pub handshake_at : HandshakeStage → HandshakePacket → HandshakeParser
handshake_at g r = record { stage = g; result = r }

abbrev pub new_handshake : HandshakeParser
new_handshake = handshake_at (protocol_version no_digits) (record {
  server_version = [];
  thread_id = 0;
  auth_plugin_data_part_1 = [];
  capability_flags_1 = 0;
  character_set = 0;
  status_flags = 0;
  capability_flags_2 = 0;
  auth_plugin_data_len = 0;
  auth_plugin_data_part_2 = [];
  auth_plugin_name = [];
})

-- CLIENT_PLUGIN_AUTH.
abbrev pub plugin_auth : ℕ
plugin_auth = 19

-- `case AuthPluginName`.
unfoldable pub plugin_name_case : HandshakePacket → Bytes → Bytes → Parsed HandshakeParser
plugin_name_case r p xs =
    then_parsed (null_terminated_string p xs) (λ q. handshake_at (plugin_name q) r)
      (λ q rest.
        parsed payload_success (handshake_at (plugin_name []) (record r { auth_plugin_name = q }))
          rest)

-- `cap`: both halves are capability_flags_1.
unfoldable pub cap_tested : HandshakePacket → ℕ
cap_tested r = (r.capability_flags_1 + r.capability_flags_1 * 2 ^ 16) % 2 ^ 32

-- `case AuthPluginDataPart2`.
unfoldable pub data_part_2_case :
    HandshakePacket → VariableString keeping → Bytes → Parsed HandshakeParser
unfolding plugin_name_case cap_tested
data_part_2_case r p xs =
    then_parsed (variable_length_string keeping p xs) (λ q. handshake_at (data_part_2 q) r)
      (λ q rest.
        let r' = record r { auth_plugin_data_part_2 = q.held } in
        if has_flag plugin_auth (cap_tested r')
        then plugin_name_case r' [] rest
        else parsed payload_success (handshake_at (data_part_2 q) r') rest)

-- `std::max(13, auth_plugin_data_len - 8)`; the length is above 9.
unfoldable pub part_2_length : ℕ → ℕ
part_2_length len = if ltb 13 (len - 8) then len - 8 else 13

-- `case Reserved`.
unfoldable pub reserved_case : HandshakePacket → ℕ → Bytes → Parsed HandshakeParser
unfolding data_part_2_case part_2_length
reserved_case r p xs =
    then_parsed (fixed_length_string nop_container 10 p xs) (λ q. handshake_at (reserved q) r)
      (λ q rest.
        data_part_2_case r
          (record { target_length = part_2_length r.auth_plugin_data_len; held = [] }) rest)

-- `case AuthPluginDataLen`.
unfoldable pub data_len_case : HandshakePacket → Digits → Bytes → Parsed HandshakeParser
unfolding reserved_case
data_len_case r p xs =
    then_parsed (fixed_length_integer 1 p xs) (λ q. handshake_at (data_len q) r)
      (λ q rest.
        if leb (q.result % 2 ^ 8) 9
        then parsed payload_malformed (handshake_at (data_len q) r) rest
        else reserved_case (record r { auth_plugin_data_len = q.result % 2 ^ 8 }) 0 rest)

-- `case CapFlags2`.
unfoldable pub cap_flags_2_case : HandshakePacket → Digits → Bytes → Parsed HandshakeParser
unfolding data_len_case
cap_flags_2_case r p xs =
    then_parsed (fixed_length_integer 2 p xs) (λ q. handshake_at (cap_flags_2 q) r)
      (λ q rest. data_len_case (record r { capability_flags_2 = q.result % 2 ^ 16 }) no_digits rest)

-- `case StatusFlags`.
unfoldable pub handshake_status_case : HandshakePacket → Digits → Bytes → Parsed HandshakeParser
unfolding cap_flags_2_case
handshake_status_case r p xs =
    then_parsed (fixed_length_integer 2 p xs) (λ q. handshake_at (status_flags_stage q) r)
      (λ q rest. cap_flags_2_case (record r { status_flags = q.result % 2 ^ 16 }) no_digits rest)

-- `case CharacterSet`.
unfoldable pub handshake_charset_case : HandshakePacket → Digits → Bytes → Parsed HandshakeParser
unfolding handshake_status_case
handshake_charset_case r p xs =
    then_parsed (fixed_length_integer 1 p xs) (λ q. handshake_at (character_set_stage q) r)
      (λ q rest.
        handshake_status_case (record r { character_set = q.result % 2 ^ 8 }) no_digits rest)

-- `case CapFlags1`.
unfoldable pub cap_flags_1_case : HandshakePacket → Digits → Bytes → Parsed HandshakeParser
unfolding handshake_charset_case
cap_flags_1_case r p xs =
    then_parsed (fixed_length_integer 2 p xs) (λ q. handshake_at (cap_flags_1 q) r)
      (λ q rest.
        handshake_charset_case (record r { capability_flags_1 = q.result % 2 ^ 16 }) no_digits rest)

-- `case Filler`.
unfoldable pub filler_case : HandshakePacket → Digits → Bytes → Parsed HandshakeParser
unfolding cap_flags_1_case
filler_case r p xs =
    then_parsed (fixed_length_integer 1 p xs) (λ q. handshake_at (filler q) r)
      (λ q rest. cap_flags_1_case r no_digits rest)

-- `case AuthPluginDataPart1`.
unfoldable pub data_part_1_case : HandshakePacket → Bytes → Bytes → Parsed HandshakeParser
unfolding filler_case
data_part_1_case r p xs =
    then_parsed (fixed_length_string keeping 8 p xs) (λ q. handshake_at (data_part_1 q) r)
      (λ q rest. filler_case (record r { auth_plugin_data_part_1 = q }) no_digits rest)

-- `case ThreadId`.
unfoldable pub thread_id_case : HandshakePacket → Digits → Bytes → Parsed HandshakeParser
unfolding data_part_1_case
thread_id_case r p xs =
    then_parsed (fixed_length_integer 4 p xs) (λ q. handshake_at (thread_id_stage q) r)
      (λ q rest. data_part_1_case (record r { thread_id = q.result % 2 ^ 32 }) [] rest)

-- `case ServerVersion`.
unfoldable pub server_version_case : HandshakePacket → Bytes → Bytes → Parsed HandshakeParser
unfolding thread_id_case
server_version_case r p xs =
    then_parsed (null_terminated_string p xs) (λ q. handshake_at (server_version_stage q) r)
      (λ q rest. thread_id_case (record r { server_version = q }) no_digits rest)

-- `case ProtocolVersion`.
unfoldable pub protocol_version_case : HandshakePacket → Digits → Bytes → Parsed HandshakeParser
unfolding server_version_case
protocol_version_case r p xs =
    then_parsed (fixed_length_integer 1 p xs) (λ q. handshake_at (protocol_version q) r)
      (λ q rest.
        if q.result == 10
        then server_version_case r [] rest
        else parsed payload_malformed (handshake_at (protocol_version q) r) rest)

handshake_in : HandshakeStage → HandshakePacket → Bytes → Parsed HandshakeParser
handshake_in (protocol_version p) r xs = protocol_version_case r p xs
handshake_in (server_version_stage p) r xs = server_version_case r p xs
handshake_in (thread_id_stage p) r xs = thread_id_case r p xs
handshake_in (data_part_1 p) r xs = data_part_1_case r p xs
handshake_in (filler p) r xs = filler_case r p xs
handshake_in (cap_flags_1 p) r xs = cap_flags_1_case r p xs
handshake_in (character_set_stage p) r xs = handshake_charset_case r p xs
handshake_in (status_flags_stage p) r xs = handshake_status_case r p xs
handshake_in (cap_flags_2 p) r xs = cap_flags_2_case r p xs
handshake_in (data_len p) r xs = data_len_case r p xs
handshake_in (reserved p) r xs = reserved_case r p xs
handshake_in (data_part_2 p) r xs = data_part_2_case r p xs
handshake_in (plugin_name p) r xs = plugin_name_case r p xs

-- `operator()`.
unfoldable pub handshake_parser : HandshakeParser → Bytes → Parsed HandshakeParser
unfolding handshake_in protocol_version_case
handshake_parser s xs = handshake_in s.stage s.result xs

-- ===== src/Mysql/Packets/Ok.antt =====
-- include/chx/sql/mysql/detail/packets/OK_Packet.hpp, and the flag of capabilities_flags.hpp that
-- it looks at.
pub mod RoundTrip
use chxsql.Base.{
  ℕ, ◌/◌, ◌%◌, ◌^◌, Bytes, [], ◌∷◌, ◌++◌, Bool, Option, none, some, ◌==◌, if◌then◌else◌,
}
use chxsql.Mysql.Basic.{
  Digits, no_digits, fixed_length_integer, LengthInteger, new_length_integer,
  length_encoded_integer, LengthString, new_length_string, length_encoded_string, string_value,
  keeping,
}
use chxsql.Mysql.Result.{
  Parsed, parsed, undefined, then_parsed, payload_success, payload_need_more,
  payload_malformed_header,
}

pub record OkPacket : Type 0 where
  pub affected_rows : ℕ
  pub last_insert_id : ℕ
  pub status_flags : ℕ
  pub warnings : ℕ
  pub info : Bytes
  pub session_state_info : Bytes

pub data OkStage : Type 0 where
  header : OkStage
  affected_rows_stage last_insert_id_stage : LengthInteger → OkStage
  status_flags_stage warnings_stage : Digits → OkStage
  session_track_info session_track_state_info : LengthString keeping → OkStage
  info_stage : OkStage

pub record OkParser : Type 0 where
  pub stage : OkStage
  pub result : OkPacket

abbrev pub ok_at : OkStage → OkPacket → OkParser
ok_at g r = record { stage = g; result = r }

abbrev pub new_ok : OkParser
new_ok = ok_at header (record {
  affected_rows = 0;
  last_insert_id = 0;
  status_flags = 0;
  warnings = 0;
  info = [];
  session_state_info = [];
})

-- `v & (1 << k)`.
unfoldable pub has_flag : ℕ → ℕ → Bool
has_flag k v = v / 2 ^ k % 2 == 1

-- CLIENT_SESSION_TRACK.
abbrev pub session_track : ℕ
session_track = 23

-- `case Info`.
unfoldable pub info_case : OkPacket → Bytes → Bool → Parsed OkParser
info_case r xs is_final =
    parsed (if is_final then payload_success else payload_need_more)
      (ok_at info_stage (record r { info = r.info ++ xs })) []

-- Under `r != PayloadSuccess` in `case SessionTrackStateInfo`.
unfoldable pub state_info_unread : OkPacket → Option Bytes → Bytes → Parsed OkParser
state_info_unread r none rest = undefined
state_info_unread r (some v) rest =
    parsed payload_success
      (ok_at (session_track_state_info (new_length_string keeping))
        (record r { session_state_info = v }))
      rest

-- The test of `case SessionTrackStateInfo`, which stores the value of a parser that did not succeed.
unfoldable pub state_info_tested : OkPacket → Parsed (LengthString keeping) → Parsed OkParser
unfolding state_info_unread
state_info_tested r (parsed payload_success q rest) =
    parsed payload_success (ok_at (session_track_state_info q) r) rest
state_info_tested r (parsed _ q rest) = state_info_unread r (string_value keeping q) rest
state_info_tested r undefined = undefined

-- `case SessionTrackStateInfo`.
unfoldable pub state_info_case : OkPacket → LengthString keeping → Bytes → Parsed OkParser
unfolding state_info_tested
state_info_case r p xs = state_info_tested r (length_encoded_string keeping p xs)

-- Under `r != PayloadSuccess` in `case SessionTrackInfo`. `1 << 14` is of the status flags.
unfoldable pub track_info_unread : OkPacket → Option Bytes → Bytes → Parsed OkParser
unfolding state_info_case
track_info_unread r none rest = undefined
track_info_unread r (some v) rest =
    if has_flag 14 r.status_flags
    then state_info_case (record r { info = v }) (new_length_string keeping) rest
    else parsed payload_success
        (ok_at (session_track_info (new_length_string keeping)) (record r { info = v })) rest

-- The test of `case SessionTrackInfo`.
unfoldable pub track_info_tested : OkPacket → Parsed (LengthString keeping) → Parsed OkParser
unfolding track_info_unread
track_info_tested r (parsed payload_success q rest) =
    parsed payload_success (ok_at (session_track_info q) r) rest
track_info_tested r (parsed _ q rest) = track_info_unread r (string_value keeping q) rest
track_info_tested r undefined = undefined

-- `case SessionTrackInfo`.
unfoldable pub track_info_case : OkPacket → LengthString keeping → Bytes → Parsed OkParser
unfolding track_info_tested
track_info_case r p xs = track_info_tested r (length_encoded_string keeping p xs)

module _ (client_cap : ℕ) (is_final : Bool) where
  -- `case Warnings`.
  unfoldable pub warnings_case : OkPacket → Digits → Bytes → Parsed OkParser
  unfolding info_case track_info_case
  warnings_case r p xs =
      then_parsed (fixed_length_integer 2 p xs) (λ q. ok_at (warnings_stage q) r)
        (λ q rest.
          let r' = record r { warnings = q.result % 2 ^ 16 } in
          if has_flag session_track client_cap
          then track_info_case r' (new_length_string keeping) rest
          else info_case r' rest is_final)

  -- `case StatusFlags`.
  unfoldable pub status_flags_case : OkPacket → Digits → Bytes → Parsed OkParser
  unfolding warnings_case
  status_flags_case r p xs =
      then_parsed (fixed_length_integer 2 p xs) (λ q. ok_at (status_flags_stage q) r)
        (λ q rest. warnings_case (record r { status_flags = q.result % 2 ^ 16 }) no_digits rest)

  -- `case LastInsertId`.
  unfoldable pub last_insert_id_case : OkPacket → LengthInteger → Bytes → Parsed OkParser
  unfolding status_flags_case
  last_insert_id_case r p xs =
      then_parsed (length_encoded_integer p xs) (λ q. ok_at (last_insert_id_stage q) r)
        (λ q rest. status_flags_case (record r { last_insert_id = q.number.result }) no_digits rest)

  -- `case AffectedRows`.
  unfoldable pub affected_rows_case : OkPacket → LengthInteger → Bytes → Parsed OkParser
  unfolding last_insert_id_case
  affected_rows_case r p xs =
      then_parsed (length_encoded_integer p xs) (λ q. ok_at (affected_rows_stage q) r)
        (λ q rest.
          last_insert_id_case (record r { affected_rows = q.number.result }) new_length_integer
            rest)

  -- `case Header`; the first argument is `HeaderCh`.
  unfoldable pub ok_header_case : ℕ → OkPacket → Bytes → Parsed OkParser
  unfolding affected_rows_case
  ok_header_case header_ch r [] = parsed payload_need_more (ok_at header r) []
  ok_header_case header_ch r (b ∷ rest) =
      if b == header_ch
      then affected_rows_case r new_length_integer rest
      else parsed payload_malformed_header (ok_at header r) rest

  ok_in : ℕ → OkStage → OkPacket → Bytes → Parsed OkParser
  ok_in header_ch header r xs = ok_header_case header_ch r xs
  ok_in header_ch (affected_rows_stage p) r xs = affected_rows_case r p xs
  ok_in header_ch (last_insert_id_stage p) r xs = last_insert_id_case r p xs
  ok_in header_ch (status_flags_stage p) r xs = status_flags_case r p xs
  ok_in header_ch (warnings_stage p) r xs = warnings_case r p xs
  ok_in header_ch (session_track_info p) r xs = track_info_case r p xs
  ok_in header_ch (session_track_state_info p) r xs = state_info_case r p xs
  ok_in header_ch info_stage r xs = info_case r xs is_final

  -- `operator()`.
  unfoldable pub ok_parser : ℕ → OkParser → Bytes → Parsed OkParser
  unfolding ok_in ok_header_case
  ok_parser header_ch s xs = ok_in header_ch s.stage s.result xs

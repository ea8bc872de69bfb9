-- ===== src/Mysql/Packet.antt =====
-- include/chx/sql/mysql/detail/basic_packet.hpp: the frame of a packet, a length of three bytes, a
-- sequence number and a payload that is handed on piece by piece.
pub mod Framing
pub mod Progress
use chxsql.Base.{
  ℕ, zero, suc, ◌+◌, ◌-◌, ◌*◌, ◌%◌, ◌^◌, min, Bytes, [], ◌∷◌, ◌++◌, length, take, drop, ◌==◌,
  if◌then◌else◌,
}
use chxsql.Mysql.Result.{
  PayloadResult, payload_success, payload_pause, payload_need_more, payload_malformed,
  payload_malformed_header, payload_trailing_data, payload_internal_error, PacketResult,
  packet_paused, packet_need_more, packet_incomplete, packet_trailing_data, packet_malformed,
  packet_internal_error,
}

-- `header` is read by its parts: the first three bytes, the length, and the fourth.
pub data PacketStage : Type 0 where
  packet_length sequence_id payload : PacketStage

pub record Packet : Type 0 where
  pub stage : PacketStage
  pub header : Bytes
  pub stage_remain : ℕ

-- The initial values, and `reset()`.
abbrev pub new_packet : Packet
new_packet = record { stage = packet_length; header = 0 ∷ 0 ∷ 0 ∷ 0 ∷ []; stage_remain = 3 }

-- The number that the first three bytes of the header are.
unfoldable pub payload_length : Bytes → ℕ
payload_length (a ∷ b ∷ c ∷ bs) = a + b * 2 ^ 8 + c * 2 ^ 16
payload_length _ = 0

-- `std::copy(begin, begin + consumed, header + n)`.
unfoldable pub copied : ℕ → Bytes → Bytes → Bytes
copied n bs header = take n header ++ (bs ++ drop (n + length bs) header)

-- What a piece of payload is answered with. `unhandled` is no C++ value: an assertion that fails,
-- or behaviour that is not defined.
pub data Handled (S : Type 0) : Type 0 where
  handled : PayloadResult → S → Handled S
  unhandled : Handled S

-- What `Impl` is asked for. `on_payload_data` may look at `remain_bytes()` and `payload_length()`,
-- the two numbers.
pub record PayloadHandler : Type 1 where
  pub State : Type 0
  pub on_packet_length_complete : State → ℕ → Handled State
  pub on_sequence_id_complete : State → ℕ → Handled State
  pub on_payload_data : State → ℕ → ℕ → Bytes → Handled State

-- The answer of `feed`: its result, the packet, the handler and the bytes left; or a fault.
pub data Fed (S : Type 0) : Type 0 where
  fed : PacketResult → Packet → S → Bytes → Fed S
  fault : Fed S

-- One turn of the loop: `continue` or `break`, or a result.
pub data PacketTurn (S : Type 0) : Type 0 where
  next : Packet → S → Bytes → PacketTurn S
  answer : PacketResult → Packet → S → Bytes → PacketTurn S
  failed : PacketTurn S

-- `if (PayloadResult r = …; r != PayloadSuccess)` after a callback on the header.
abbrev pub header_answer : {S : Type 0} → Handled S → Packet → Bytes → PacketTurn S
header_answer (handled payload_success s) p rest = next p s rest
header_answer (handled payload_malformed s) p rest = answer packet_malformed p s rest
header_answer (handled r s) p rest = answer packet_internal_error p s rest
header_answer unhandled p rest = failed

-- `switch (r)` after `on_payload_data`.
unfoldable pub payload_answer : {S : Type 0} → PayloadResult → ℕ → Packet → S → Bytes → PacketTurn S
payload_answer payload_success remain p s rest =
    if remain == 0 then next p s rest else answer packet_trailing_data p s rest
payload_answer payload_pause remain p s rest =
    if remain == 0 then answer packet_paused p s rest else answer packet_trailing_data p s rest
payload_answer payload_need_more remain p s rest =
    if remain == 0 then answer packet_incomplete p s rest else answer packet_need_more p s rest
payload_answer payload_trailing_data remain p s rest = answer packet_trailing_data p s rest
payload_answer payload_malformed remain p s rest = answer packet_malformed p s rest
payload_answer payload_malformed_header remain p s rest = answer packet_malformed p s rest
payload_answer payload_internal_error remain p s rest = answer packet_internal_error p s rest

module _ (h : PayloadHandler) where
  -- `case PacketLength`.
  unfoldable pub length_turn : Packet → h.State → Bytes → PacketTurn h.State
  unfolding copied
  length_turn p s xs =
      let consumed = min p.stage_remain (length xs) in
      let header = copied (3 - p.stage_remain) (take consumed xs) p.header in
      let remain = p.stage_remain - consumed in
      if remain == 0
      then header_answer (h.on_packet_length_complete s (payload_length header))
          (record { stage = sequence_id; header = header; stage_remain = 1 }) (drop consumed xs)
      else next (record { stage = packet_length; header = header; stage_remain = remain }) s
          (drop consumed xs)

  -- `case SequenceId`, at a byte that is there.
  unfoldable pub sequence_turn : Packet → h.State → ℕ → Bytes → PacketTurn h.State
  unfolding copied
  sequence_turn p s b rest =
      let header = copied 3 (b ∷ []) p.header in
      header_answer (h.on_sequence_id_complete s b)
        (record { stage = payload; header = header; stage_remain = payload_length header }) rest

  -- What follows the call of `on_payload_data`.
  unfoldable pub payload_handled : Handled h.State → ℕ → Packet → Bytes → PacketTurn h.State
  unfolding payload_answer
  payload_handled (handled r s) remain p rest =
      payload_answer r remain (if remain == 0 then new_packet else p) s rest
  payload_handled unhandled remain p rest = failed

  -- `case Payload`.
  unfoldable pub payload_turn : Packet → h.State → Bytes → PacketTurn h.State
  unfolding payload_handled
  payload_turn p s xs =
      let consumed = min p.stage_remain (length xs) in
      let remain = p.stage_remain - consumed in
      payload_handled (h.on_payload_data s remain (payload_length p.header) (take consumed xs))
        remain (record p { stage_remain = remain }) (drop consumed xs)

  turn_at : PacketStage → Packet → h.State → ℕ → Bytes → PacketTurn h.State
  turn_at packet_length p s b rest = length_turn p s (b ∷ rest)
  turn_at sequence_id p s b rest = sequence_turn p s b rest
  turn_at payload p s b rest = payload_turn p s (b ∷ rest)

  -- The body of the loop, and `return PacketNeedMore` after it.
  unfoldable pub packet_turn : Packet → h.State → Bytes → PacketTurn h.State
  unfolding turn_at length_turn sequence_turn payload_turn
  packet_turn p s [] = answer packet_need_more p s []
  packet_turn p s (b ∷ rest) = turn_at p.stage p s b rest

  pub packet_loop : ℕ → Packet → h.State → Bytes → Fed h.State
  packet_loop zero p s xs = fault
  packet_loop (suc fuel) p s xs = elim (packet_turn p s xs) [
    | next p' s' rest ↦ packet_loop fuel p' s' rest
    | answer r p' s' rest ↦ fed r p' s' rest
    | failed ↦ fault
  ]

  -- A turn takes a byte, but for that of an empty payload.
  unfoldable pub feed : Packet → h.State → Bytes → Fed h.State
  unfolding packet_loop packet_turn
  feed p s xs = packet_loop (2 * length xs + 2) p s xs

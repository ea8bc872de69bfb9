-- ===== src/Mysql/Result.antt =====
-- include/chx/sql/mysql/detail/result.hpp: what a payload parser and a packet parser answer.
use chxsql.Base.{Bytes, [], ◌∷◌}

pub data PayloadResult : Type 0 where
  payload_success payload_pause payload_need_more : PayloadResult
  payload_malformed payload_malformed_header payload_trailing_data : PayloadResult
  payload_internal_error : PayloadResult

pub data PacketResult : Type 0 where
  packet_paused packet_need_more packet_incomplete packet_trailing_data : PacketResult
  packet_malformed packet_internal_error : PacketResult

unfoldable pub make_success : Bytes → PayloadResult
make_success [] = payload_success
make_success (b ∷ bs) = payload_trailing_data

unfoldable pub make_pause : Bytes → PayloadResult
make_pause [] = payload_pause
make_pause (b ∷ bs) = payload_trailing_data

-- The answer of a parser that advances `begin`: the result, its state and the bytes left unread.
-- `undefined` is no C++ value: a shift past the width of an int, or an empty optional that is read.
pub data Parsed (S : Type 0) : Type 0 where
  parsed : PayloadResult → S → Bytes → Parsed S
  undefined : Parsed S

-- `if (PayloadResult r = parser(begin, end); r == PayloadSuccess) { … } else { return r; }`; `keep`
-- puts the parser's state back where it is kept.
abbrev pub then_parsed : {A S : Type 0} → Parsed A → (A → S) → (A → Bytes → Parsed S) → Parsed S
then_parsed (parsed payload_success a rest) keep next = next a rest
then_parsed (parsed r a rest) keep next = parsed r (keep a) rest
then_parsed undefined keep next = undefined

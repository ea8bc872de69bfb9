-- ===== src/Mysql/Connection.antt =====
-- include/chx/sql/mysql/detail/connection2.ipp: the handshake of a connection, with the parameters
-- of connection.hpp and the digest of hash_ctx.hpp.
pub mod Password
pub mod Answer
use Prim.Native.Nat.{bit_or, bit_xor}
use chxsql.Base.{
  codes, bytes_eq, allocated, ℕ, ◌+◌, ◌-◌, ◌%◌, ◌^◌, Bytes, [], ◌∷◌, ◌++◌, Bool, not, Option, none,
  some, length, take, replicate, ltb, ◌==◌, if◌then◌else◌,
}
use chxsql.Mysql.Encode.{fixed_length_integer_to_network}
use chxsql.Mysql.ErrorCode.{
  ErrorCode, no_error, make_ec, cr_malformed_packet, cr_auth_plugin_err, or_unknown,
}
use chxsql.Mysql.Packet.{
  Packet, new_packet, Handled, handled, unhandled, PayloadHandler, Fed, fed, fault, feed,
}
use chxsql.Mysql.Packets.Err.{ErrParser, new_err, err_parser}
use chxsql.Mysql.Packets.Handshake.{
  HandshakePacket, HandshakeParser, new_handshake, handshake_parser,
}
use chxsql.Mysql.Packets.Ok.{OkParser, new_ok, ok_parser}
use chxsql.Mysql.Query.{then_handled}
use chxsql.Mysql.Result.{
  make_pause, payload_success, payload_need_more, payload_malformed, payload_internal_error,
  packet_paused, packet_need_more, packet_internal_error,
}

pub record ConnectParameters : Type 0 where
  pub username : Bytes
  pub password : Bytes
  pub database : Bytes

-- `stage`, with the alternative of `__M_payload_parser` that it uses.
pub data ConnectionStage : Type 0 where
  initial_guess s1_handshake : HandshakeParser → ConnectionStage
  s1_err s2_err : ErrParser → ConnectionStage
  s2_guess : ConnectionStage
  s2_ok : OkParser → ConnectionStage
  finished : ConnectionStage

-- The operation, with the flags that it leaves in the connection.
pub record Connection : Type 0 where
  pub stage : ConnectionStage
  pub next_sequence_id : ℕ
  pub raw : Bytes
  pub client_cap : ℕ
  pub ec : ErrorCode

-- The flags of a new connection are not initialised; they are written before they are read.
abbrev pub new_connection : Connection
new_connection = record {
  stage = initial_guess new_handshake;
  next_sequence_id = 0;
  raw = [];
  client_cap = 0;
  ec = no_error;
}

-- `buf[i] = digest_a[i] ^ digest_c[i]`.
unfoldable pub xor_bytes : Bytes → Bytes → Bytes
xor_bytes [] bs = []
xor_bytes (a ∷ ds) [] = []
xor_bytes (a ∷ ds) (b ∷ bs) = bit_xor a b ∷ xor_bytes ds bs

-- `client_flag`, with CLIENT_CONNECT_WITH_DB where there is a database.
unfoldable pub client_flag : ConnectParameters → ℕ
client_flag para = if length para.database == 0 then 0x012ea207 else bit_or 0x012ea207 8

-- How the password ends: `bad_hash` is caught, and a digest of a wrong length fails an assertion.
pub data Scramble : Type 0 where
  scramble : Bytes → Scramble
  bad_hash wrong_length : Scramble

-- `on_sequence_id_complete`.
unfoldable pub connection_sequence : Connection → ℕ → Handled Connection
connection_sequence s sequence_id =
    let s' = record s { next_sequence_id = (s.next_sequence_id + 1) % 2 ^ 8 } in
    if s.next_sequence_id == sequence_id
    then handled payload_success s'
    else handled payload_malformed s'

abbrev pub plugin : Bytes
plugin = codes "mysql_native_password"

-- The database and its nul, if there is one.
unfoldable pub database_field : ConnectParameters → Bytes
database_field para = if length para.database == 0 then [] else para.database ++ 0 ∷ []

-- `payload_length`.
unfoldable pub response_length : ConnectParameters → ℕ
response_length para =
    4
    + 4
    + 1
    + 23
    + (length para.username + 1)
    + 21
    + 22
    + (if length para.database == 0 then 0 else length para.database + 1)

-- What is written into `raw`; the last argument is the password's scramble.
unfoldable pub response_bytes : ConnectParameters → ℕ → Bytes → Bytes
unfolding client_flag database_field response_length
response_bytes para sequence_id pw =
    fixed_length_integer_to_network 3 (response_length para)
    ++ sequence_id
      ∷ (fixed_length_integer_to_network 4 (client_flag para)
          ++ (fixed_length_integer_to_network 4 0xffffff
              ++ 0x21
                ∷ (replicate 23 0
                    ++ (para.username
                        ++ 0 ∷ 20 ∷ (pw ++ (database_field para ++ (plugin ++ 0 ∷ [])))))))

-- `hash` is the digest that hash_ctx computes by OpenSSL; `none` where it throws `bad_hash`.
module _ (hash : Bytes → Option Bytes) where
  -- `assert(ctx.finalize(digest) == 20)`, and what follows it.
  digested : Bytes → (Bytes → Scramble) → Scramble
  digested text after = elim (hash text) [
    | none ↦ bad_hash
    | some d ↦ if length d == 20 then after d else wrong_length
  ]

  -- `generate_pw`.
  unfoldable pub generate_pw : Bytes → Bytes → Bytes → Scramble
  unfolding digested xor_bytes
  generate_pw nonce1 nonce2 password = digested password (λ digest_a. digested digest_a (λ digest_b.
      digested (nonce1 ++ (nonce2 ++ digest_b))
        (λ digest_c. scramble (xor_bytes digest_a digest_c))))

module _ (hash : Bytes → Option Bytes) (para : ConnectParameters) where
  -- The assertion that `raw` is full, and the end of `do_handshake_response`.
  unfoldable pub response_written : Connection → Option Bytes → Handled Connection
  response_written s none = unhandled
  response_written s (some raw) = handled payload_success (record s { raw = raw })

  -- What follows `generate_pw`.
  unfoldable pub response_scrambled : Connection → ℕ → Scramble → Handled Connection
  unfolding response_written response_bytes response_length
  response_scrambled s sequence_id (scramble pw) =
      response_written s (allocated (4 + response_length para) (response_bytes para sequence_id pw))
  response_scrambled s sequence_id bad_hash = handled payload_internal_error s
  response_scrambled s sequence_id wrong_length = unhandled

  -- `do_handshake_response`.
  unfoldable pub do_handshake_response : Connection → HandshakePacket → Handled Connection
  unfolding response_scrambled generate_pw client_flag bytes_eq
  do_handshake_response s packet =
      if not (bytes_eq packet.auth_plugin_name plugin)
      then handled payload_internal_error (record s { ec = make_ec cr_auth_plugin_err })
      else if not (ltb 9 packet.auth_plugin_data_len)
      then unhandled
      else response_scrambled
          (record s {
            client_cap = client_flag para;
            next_sequence_id = (s.next_sequence_id + 1) % 2 ^ 8;
          })
          s.next_sequence_id
          (generate_pw hash (take 8 packet.auth_plugin_data_part_1)
            (take (packet.auth_plugin_data_len - 9) packet.auth_plugin_data_part_2) para.password)

  -- What `case S1_Handshake` does with the answer of `do_handshake_response`.
  unfoldable pub responded : HandshakeParser → Handled Connection → Bytes → Handled Connection
  responded q (handled payload_success s) rest =
      handled (make_pause rest) (record s { stage = s2_guess })
  responded q (handled r s) rest = handled r (record s { stage = s1_handshake q })
  responded q unhandled rest = unhandled

  -- `case S1_Handshake`.
  unfoldable pub handshake_case : Connection → HandshakeParser → Bytes → Handled Connection
  unfolding responded do_handshake_response
  handshake_case s p xs =
      then_handled (handshake_parser p xs) (λ q. record s { stage = s1_handshake q })
        (λ q rest. responded q (do_handshake_response s q.result) rest)

  -- `case S1_ERR` and `case S2_ERR`.
  unfoldable pub connection_err :
      (ErrParser → ConnectionStage) → Connection → ErrParser → ℕ → Bytes → Handled Connection
  connection_err at s p remain xs =
      then_handled (err_parser p xs (remain == 0)) (λ q. record s { stage = at q })
        (λ q rest.
          handled (make_pause rest)
            (record s { stage = finished; ec = make_ec q.result.error_code }))

  -- `case S2_OK`.
  unfoldable pub connection_ok : Connection → OkParser → ℕ → Bytes → Handled Connection
  connection_ok s p remain xs =
      then_handled (ok_parser s.client_cap (remain == 0) 0x00 p xs)
        (λ q. record s { stage = s2_ok q })
        (λ q rest. handled (make_pause rest) (record s { stage = finished; ec = no_error }))

  -- `case InitialGuess`.
  unfoldable pub connection_guess : Connection → HandshakeParser → ℕ → Bytes → Handled Connection
  unfolding connection_err handshake_case
  connection_guess s p remain [] = handled payload_need_more s
  connection_guess s p remain (first_byte ∷ rest) =
      if first_byte == 0xff
      then connection_err s1_err s new_err remain (first_byte ∷ rest)
      else handshake_case s p (first_byte ∷ rest)

  -- `case S2_Guess`.
  unfoldable pub answer_guess : Connection → ℕ → Bytes → Handled Connection
  unfolding connection_err connection_ok
  answer_guess s remain [] = handled payload_need_more s
  answer_guess s remain (first_byte ∷ rest) =
      if first_byte == 0x00
      then connection_ok s new_ok remain (first_byte ∷ rest)
      else if first_byte == 0xff
      then connection_err s2_err s new_err remain (first_byte ∷ rest)
      else handled payload_internal_error s

  connection_in : ConnectionStage → Connection → ℕ → Bytes → Handled Connection
  connection_in (initial_guess p) s remain xs = connection_guess s p remain xs
  connection_in (s1_handshake p) s remain xs = handshake_case s p xs
  connection_in (s1_err p) s remain xs = connection_err s1_err s p remain xs
  connection_in (s2_err p) s remain xs = connection_err s2_err s p remain xs
  connection_in s2_guess s remain xs = answer_guess s remain xs
  connection_in (s2_ok p) s remain xs = connection_ok s p remain xs
  connection_in finished s remain xs = unhandled

  -- `on_payload_data`.
  unfoldable pub connection_payload : Connection → ℕ → ℕ → Bytes → Handled Connection
  unfolding connection_in connection_guess answer_guess
  connection_payload s remain len xs = connection_in s.stage s remain xs

  abbrev pub connection_handler : PayloadHandler
  connection_handler = record {
    State = Connection;
    on_packet_length_complete = λ s len. handled payload_success s;
    on_sequence_id_complete = connection_sequence;
    on_payload_data = connection_payload;
  }

-- What a read ends with: another read, the request that is written, or the completion; or a fault.
pub data ConnectionStep : Type 0 where
  reading : Packet → Connection → ConnectionStep
  sending : Bytes → Packet → Connection → ConnectionStep
  completed : ErrorCode → ConnectionStep
  crashed : ConnectionStep

abbrev pub refused : ConnectionStep
refused = completed (make_ec cr_malformed_packet)

-- `case PacketPaused` of the handler of ev_read_stage_1, by the stage.
unfoldable pub first_paused : ConnectionStage → Packet → Connection → Bytes → ConnectionStep
first_paused s2_guess p s [] = sending s.raw p (record s { raw = [] })
first_paused s2_guess p s (b ∷ rest) = refused
first_paused (s1_err q) p s rest = completed s.ec
first_paused _ p s rest = crashed

-- The switch of the handler of ev_read_stage_1.
unfoldable pub first_fed : Fed Connection → ConnectionStep
unfolding first_paused
first_fed (fed packet_paused p s rest) = first_paused s.stage p s rest
first_fed (fed packet_need_more p s rest) = reading p s
first_fed (fed packet_internal_error p s rest) = completed (or_unknown s.ec)
first_fed (fed r p s rest) = refused
first_fed fault = crashed

-- The switch of the handler of ev_read_stage_2.
unfoldable pub second_fed : Fed Connection → ConnectionStep
second_fed (fed packet_paused p s []) = completed s.ec
second_fed (fed packet_paused p s (b ∷ rest)) = refused
second_fed (fed packet_need_more p s rest) = reading p s
second_fed (fed packet_internal_error p s rest) = completed (or_unknown s.ec)
second_fed (fed r p s rest) = refused
second_fed fault = crashed

module _ (hash : Bytes → Option Bytes) (para : ConnectParameters) where
  -- The handler of ev_read_stage_1.
  unfoldable pub read_first : ErrorCode → Packet → Connection → Bytes → ConnectionStep
  unfolding first_fed
  read_first e p s xs =
      if e.value == 0 then first_fed (feed (connection_handler hash para) p s xs) else completed e

  -- The handler of ev_read_stage_2.
  unfoldable pub read_second : ErrorCode → Packet → Connection → Bytes → ConnectionStep
  unfolding second_fed
  read_second e p s xs =
      if e.value == 0 then second_fed (feed (connection_handler hash para) p s xs) else completed e

-- The handler of ev_send_handshake_response.
unfoldable pub response_sent : ErrorCode → Packet → Connection → ConnectionStep
response_sent e p s = if e.value == 0 then reading p s else completed e

-- ===== src/Mysql/Connection/Answer.antt =====
-- What the operation does with the server's answers.
use chxsql.Base.{
  ℕ, suc, ◌+◌, ◌-◌, ◌*◌, ◌^◌, ◌≤◌, ◌<◌, Bytes, [], ◌∷◌, ◌++◌, ◌≡◌, refl, ap, ◌∙◌, false, Option,
  arith, length, length-append, ◌==◌, Bool-cases, inl, inr,
}
use chxsql.Mysql.Basic.RoundTrip.{length-to_network}
use chxsql.Mysql.Connection.{
  ConnectParameters, Connection, ConnectionStage, s2_guess, finished, s1_err, s2_err,
  new_connection, client_flag, connection_sequence, connection_err, connection_ok, connection_guess,
  answer_guess, connection_payload, connection_handler, first_fed, second_fed, first_paused,
  read_first, read_second, completed, crashed,
}
use chxsql.Mysql.Encode.{fixed_length_integer_to_network}
use chxsql.Mysql.ErrorCode.{no_error, make_ec}
use chxsql.Mysql.Packet.Framing.{packet_layout, packet_pauses}
use chxsql.Mysql.Packet.{new_packet, fed, handled, PayloadHandler, packet_loop, feed}
use chxsql.Mysql.Packets.Err.{ErrParser, new_err}
use chxsql.Mysql.Packets.Ok.{has_flag, session_track}
use chxsql.Mysql.Packets.Err.RoundTrip.{encode_err, err_parser-encode}
use chxsql.Mysql.Packets.Ok.RoundTrip.{encode_ok, ok_packet, ValidOk, ok_parser-encode}
use chxsql.Mysql.Result.{payload_success, payload_pause, packet_paused, make_pause}

-- A whole packet at which the handler pauses ends `feed`.
feed_pauses :
    (h : PayloadHandler) (s s1 s2 s3 : h.State) (sequence : ℕ) (bs : Bytes)
    → 0 < length bs
    → length bs < 2 ^ 24
    → h.on_packet_length_complete s (length bs) ≡ handled payload_success s1
    → h.on_sequence_id_complete s1 sequence ≡ handled payload_success s2
    → h.on_payload_data s2 0 (length bs) bs ≡ handled payload_pause s3
    → feed h new_packet s (packet_layout sequence bs []) ≡ fed packet_paused new_packet s3 []
unfolding feed
feed_pauses h s s1 s2 s3 sequence bs z n l q d =
    let all = packet_layout sequence bs [] in
    let long : 1 ≤ length all = omega (
      arith,
      length-append (fixed_length_integer_to_network 3 (length bs)) (sequence ∷ (bs ++ [])),
    ) in
    let e : 2 * length all + 2 ≡ suc (suc (suc (2 * length all - 1))) = omega arith in
    ap (λ (k : ℕ). packet_loop h k new_packet s all) e
    ∙ packet_pauses h s s1 s2 s3 sequence (2 * length all - 1) bs [] z n l q d

-- The client does not ask for CLIENT_SESSION_TRACK.
untracked : (para : ConnectParameters) → has_flag session_track (client_flag para) ≡ false
unfolding client_flag has_flag
untracked para = elim (Bool-cases (length para.database == 0)) [
  | inl e ↦ rw e refl
  | inr e ↦ rw e refl
]

err_small :
    (code : ℕ) (state message : Bytes)
    → length state ≡ 5
    → length message < 2 ^ 23
    → length (encode_err code state message) < 2 ^ 24
err_small code state message k l = omega (
  arith,
  length-append (fixed_length_integer_to_network 2 code) (b'#' ∷ (state ++ message)),
  length-to_network 2 code,
  length-append state message,
)

module _ (hash : Bytes → Option Bytes) (para : ConnectParameters) where
  -- An ERR packet, by the stage in which it begins.
  err_taken :
      (at : ErrParser → ConnectionStage) (s : Connection) (state message : Bytes) (code : ℕ)
      → code < 2 ^ 16
      → length state ≡ 5
      → connection_err hash para at s new_err 0 (encode_err code state message)
        ≡ handled payload_pause (record s { stage = finished; ec = make_ec code })
  unfolding connection_err make_pause
  err_taken at s state message code h k = rw (err_parser-encode code state message h k) refl

  -- Where the server begins with an ERR packet with an SQLSTATE, the handler of the first read
  -- reaches an assertion that fails: the stage is Finished by then, and the case that would report
  -- the error asks for S1_ERR.
  pub read_first-err :
      (state message : Bytes) (code : ℕ)
      → code < 2 ^ 16
      → length state ≡ 5
      → length message < 2 ^ 23
      → read_first hash para no_error new_packet new_connection
          (packet_layout 0 (encode_err code state message) [])
        ≡ crashed
  unfolding read_first first_fed first_paused connection_sequence connection_payload
      connection_guess
  read_first-err state message code h k l = ap first_fed (
      feed_pauses (connection_handler hash para) new_connection new_connection
        (record new_connection { next_sequence_id = 1 })
        (record new_connection { next_sequence_id = 1; stage = finished; ec = make_ec code }) 0
        (encode_err code state message) (omega arith) (err_small code state message k l) refl refl
        (err_taken s1_err (record new_connection { next_sequence_id = 1 }) state message code h k))

  -- The state in which the answer to the handshake is awaited.
  abbrev pub awaiting : Bytes → Connection
  awaiting raw = record {
    stage = s2_guess;
    next_sequence_id = 2;
    raw = raw;
    client_cap = client_flag para;
    ec = no_error;
  }

  -- After the response, an ERR packet with an SQLSTATE completes the operation with its code.
  pub read_second-err :
      (raw state message : Bytes) (code : ℕ)
      → code < 2 ^ 16
      → length state ≡ 5
      → length message < 2 ^ 23
      → read_second hash para no_error new_packet
          (awaiting raw)
          (packet_layout 2 (encode_err code state message) [])
        ≡ completed (make_ec code)
  unfolding read_second second_fed connection_sequence connection_payload answer_guess
  read_second-err raw state message code h k l =
      let s = record (awaiting raw) { next_sequence_id = 3 } in
      ap second_fed (
        feed_pauses (connection_handler hash para) (awaiting raw) (awaiting raw) s
          (record s { stage = finished; ec = make_ec code }) 2 (encode_err code state message)
          (omega arith) (err_small code state message k l) refl refl
          (err_taken s2_err s state message code h k))

  -- After the response, an OK packet completes the operation without an error.
  pub read_second-ok :
      (raw info : Bytes) (affected id status warned : ℕ)
      → ValidOk (ok_packet affected id status warned info)
      → suc (length (encode_ok (ok_packet affected id status warned info))) < 2 ^ 24
      → read_second hash para no_error new_packet
          (awaiting raw)
          (packet_layout 2 (0x00 ∷ encode_ok (ok_packet affected id status warned info)) [])
        ≡ completed no_error
  unfolding read_second second_fed connection_sequence connection_payload answer_guess connection_ok
      make_pause
  read_second-ok raw info affected id status warned v small =
      let s = record (awaiting raw) { next_sequence_id = 3 } in
      ap second_fed (
        feed_pauses (connection_handler hash para) (awaiting raw) (awaiting raw) s
          (record s { stage = finished }) 2
          (0x00 ∷ encode_ok (ok_packet affected id status warned info)) (omega arith) small refl
          refl
          (rw
            (ok_parser-encode (client_flag para) (untracked para) 0x00 affected id status warned
              info v)
            refl))

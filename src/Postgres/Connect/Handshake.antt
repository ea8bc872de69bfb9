-- ===== src/Postgres/Connect/Handshake.antt =====
-- Connecting to a server that keeps to the protocol.
use chxsql.Base.{
  NoNul, ℕ, zero, suc, ◌+◌, ◌*◌, ◌^◌, ◌<◌, Bytes, List, [], ◌∷◌, ◌++◌, ◌≡◌, refl, ap, ◌∙◌, arith,
  true, length, length-append, inl, inr, ◌⊎◌,
}
use chxsql.Postgres.Basic.{
  integer_to_network, string_to_network, insert_nop, integer, integer_value,
}
use chxsql.Postgres.Basic.RoundTrip.{length-integer_to_network}
use chxsql.Postgres.Connect.{
  ConnectParameters, answered, settling, connected, auth_variant, auth_messages, ReadyValue,
  ready_variant, ready_messages, auth_frame, ready_frame, answered_value, settling_value,
  connect_round, connect_parse, startup_value, startup,
}
use chxsql.Postgres.ErrorCode.{no_error}
use chxsql.Postgres.Frame.RoundTrip.{framed}
use chxsql.Postgres.Frame.{reply, at_body, frame_at}
use chxsql.Postgres.MessageParser.RoundTrip.{message_parser-framed}
use chxsql.Postgres.MessageParser.{jump_table, message_parser}
use chxsql.Postgres.Msg.Authentication.{
  auth_turn, method_turn, method_chosen, Auth, new_auth, method, trust_or_finished, method_parser,
  authentication_body, authentication_method,
}
use chxsql.Postgres.Msg.Fixed.{ready_for_query_body}
use chxsql.Postgres.Msg.RoundTrip.{
  status_layout, key_layout, parameter_status_body-layout, backend_key_data_body-layout,
}
use chxsql.Postgres.Msg.Status.{s2, new_key_data, new_parameter}
use chxsql.Postgres.Operation.Steps.{rounds_go_on, rounds_complete, do_rounds_fuel}
use chxsql.Postgres.Operation.{go_on, complete, rounds}
use chxsql.Postgres.Outcome.{parse_success, verdict, make_success}
use chxsql.Postgres.Turn.{body}
use chxsql.Postgres.Variant.{map_verdict}
use chxsql.Postgres.Requests.{length-string_to_network}

-- What the server tells before it is ready.
pub data Telling : Type 0 where
  parameter : Bytes → Bytes → Telling
  key : ℕ → ℕ → Telling

abbrev telling_layout : Telling → Bytes
telling_layout (parameter name value) = framed b'S' (status_layout name value)
telling_layout (key p s) = framed b'K' (key_layout p s)

-- Texts have no nul and fit the length of the message; numbers have 32 bits.
abbrev pub ValidTelling : Telling → Type 0
ValidTelling (parameter name value) =
    NoNul name × NoNul value × (6 + length name + length value < 2 ^ 32)
ValidTelling (key p s) = (p < 2 ^ 32) × (s < 2 ^ 32)

abbrev pub AllTellings : List Telling → Type 0
AllTellings [] = Unit
AllTellings (t ∷ ts) = ValidTelling t × AllTellings ts

-- The tellings and a ReadyForQuery with a status, in front of other bytes.
abbrev pub ready_after : List Telling → ℕ → Bytes → Bytes
ready_after [] status rest = framed b'Z' (status ∷ []) ++ rest
ready_after (t ∷ ts) status rest = telling_layout t ++ ready_after ts status rest

-- The statuses of ReadyForQuery: idle, in a transaction, in a failed one.
abbrev pub ReadyStatus : ℕ → Type 0
ReadyStatus status = (status ≡ b'I') ⊎ ((status ≡ b'T') ⊎ (status ≡ b'E'))

ready_body :
    (status : ℕ)
    → ReadyStatus status
    → ready_for_query_body 0 (status ∷ []) ≡ verdict parse_success status
unfolding ready_for_query_body make_success
ready_body status h = ground arith

module _ (para : ConnectParameters) where
  settled_round :
      (xs rest : Bytes) (v : ReadyValue)
      → message_parser ready_variant ready_messages ready_frame xs
        ≡ reply parse_success (frame_at at_body 0 v) rest
      → connect_round para (settling ready_frame) xs ≡ settling_value v rest
  unfolding connect_round
  settled_round xs rest v e = rw e

  telling_round :
      (t : Telling) (rest : Bytes)
      → ValidTelling t
      → connect_round para (settling ready_frame) (telling_layout t ++ rest)
        ≡ go_on (settling ready_frame) rest
  unfolding jump_table settling_value
  telling_round (parameter name value) rest v =
      let small : 4 + length (status_layout name value) < 2 ^ 32 = omega (
        arith,
        v.2,
        length-append (string_to_network name) (string_to_network value),
        length-string_to_network name,
        length-string_to_network value,
      ) in
      let taken : ReadyValue =
        inr (inr (inr (inl (record { stage = true; parser = insert_nop 0 value })))) in
      settled_round (framed b'S' (status_layout name value) ++ rest) rest taken (
        message_parser-framed ready_variant ready_messages (inl 0)
          (inr (inr (inr (inl new_parameter)))) (inr (inr (inr (inl new_parameter)))) taken b'S'
          (status_layout name value) rest refl refl refl
          (ap (λ w. map_verdict inr (map_verdict inr (map_verdict inr (map_verdict inl w))))
            (parameter_status_body-layout name value v.0 v.1))
          small)
  telling_round (key p s) rest v =
      let n : 4 + length (key_layout p s) ≡ 12 = omega (
        arith,
        length-append (integer_to_network 4 p) (integer_to_network 4 s),
        length-integer_to_network 4 p,
        length-integer_to_network 4 s,
      ) in
      let taken : ReadyValue = inr (
        inl (record {
          process_id = p;
          secret_key = s;
          stage = s2;
          parser = integer_to_network 4 s;
        })) in
      settled_round (framed b'K' (key_layout p s) ++ rest) rest taken (
        message_parser-framed ready_variant ready_messages (inl 0) (inr (inl new_key_data))
          (inr (inl new_key_data)) taken b'K' (key_layout p s) rest refl refl (rw n refl)
          (ap (λ w. map_verdict inr (map_verdict inl w)) (backend_key_data_body-layout p s v.0 v.1))
          (rw n (omega arith)))

  ready_round :
      (status : ℕ) (rest : Bytes)
      → ReadyStatus status
      → connect_round para (settling ready_frame) (framed b'Z' (status ∷ []) ++ rest)
        ≡ complete (connected no_error) rest
  unfolding jump_table settling_value
  ready_round status rest h = settled_round (framed b'Z' (status ∷ []) ++ rest) rest (inl status) (
      message_parser-framed ready_variant ready_messages (inl 0) (inl 0) (inl 0) (inl status) b'Z'
        (status ∷ []) rest refl refl refl (ap (map_verdict inl) (ready_body status h))
        (omega arith))

  settling_loop :
      (ts : List Telling) (fuel status : ℕ) (rest : Bytes)
      → AllTellings ts
      → ReadyStatus status
      → length ts < fuel
      → rounds (connect_round para) fuel (settling ready_frame) (ready_after ts status rest)
        ≡ complete (connected no_error) rest
  settling_loop ts zero status rest v h k = absurd (omega arith)
  settling_loop [] (suc fuel) status rest v h k =
      rounds_complete (connect_round para) fuel (settling ready_frame) (connected no_error)
        (ready_after [] status rest) rest (ready_round status rest h)
  settling_loop (t ∷ ts) (suc fuel) status rest v h k =
      rounds_go_on (connect_round para) fuel (settling ready_frame) (settling ready_frame)
        (ready_after (t ∷ ts) status rest) (ready_after ts status rest)
        (telling_round t (ready_after ts status rest) v.0)
      ∙ settling_loop ts fuel status rest v.1 h (omega arith)

telling_size : (t : Telling) (rest : Bytes) → length rest < length (telling_layout t ++ rest)
telling_size (parameter name value) rest = omega (
  arith,
  length-append
      (integer_to_network 4 (4 + length (status_layout name value)) ++ status_layout name value)
      rest,
)
telling_size (key p s) rest = omega (
  arith,
  length-append (integer_to_network 4 (4 + length (key_layout p s)) ++ key_layout p s) rest,
)

tellings_size :
    (ts : List Telling) (status : ℕ) (rest : Bytes)
    → length ts < length (ready_after ts status rest)
tellings_size [] status rest = omega arith
tellings_size (t ∷ ts) status rest =
    omega (arith, tellings_size ts status rest, telling_size t (ready_after ts status rest))

-- After a ParameterStatus or BackendKeyData for each telling and a ReadyForQuery, connecting
-- completes without an error, and leaves the bytes that follow.
pub settling-completes :
    (para : ConnectParameters) (ts : List Telling) (status : ℕ) (rest : Bytes)
    → AllTellings ts
    → ReadyStatus status
    → connect_parse para (settling ready_frame) (ready_after ts status rest)
      ≡ complete (connected no_error) rest
unfolding connect_parse
settling-completes para ts status rest v h =
    do_rounds_fuel (connect_round para) (settling ready_frame) (ready_after ts status rest)
    ∙ settling_loop para ts (suc (suc (2 * length (ready_after ts status rest)))) status rest v h
        (omega (arith, tellings_size ts status rest))

-- The message AuthenticationOk.
abbrev pub authentication_ok : Bytes
authentication_ok = framed b'R' (0 ∷ 0 ∷ 0 ∷ 0 ∷ [])

abbrev ok_value : Auth
ok_value = record { parsers = method_parser []; result = method trust_or_finished }

ok_body : authentication_body new_auth (0 ∷ 0 ∷ 0 ∷ 0 ∷ []) ≡ verdict parse_success ok_value
unfolding authentication_body body auth_turn method_turn integer integer_value method_chosen
    make_success
ok_body = refl

ok_parsed :
    (rest : Bytes)
    → message_parser auth_variant auth_messages auth_frame (authentication_ok ++ rest)
      ≡ reply parse_success (frame_at at_body 0 (inl ok_value)) rest
unfolding jump_table
ok_parsed rest =
    message_parser-framed auth_variant auth_messages (inl new_auth) (inl new_auth) (inl new_auth)
      (inl ok_value) b'R' (0 ∷ 0 ∷ 0 ∷ 0 ∷ []) rest refl refl refl (ap (map_verdict inl) ok_body)
      (omega arith)

module _ (para : ConnectParameters) where
  answered_round :
      (rest : Bytes)
      → connect_round para (answered auth_frame) (authentication_ok ++ rest)
        ≡ go_on (settling ready_frame) rest
  unfolding connect_round answered_value authentication_method
  answered_round rest = rw (ok_parsed rest)

  startup_round :
      (rest : Bytes)
      → connect_round para (startup auth_frame) (authentication_ok ++ rest)
        ≡ complete (connected no_error) rest
  unfolding connect_round startup_value authentication_method
  startup_round rest = rw (ok_parsed rest)

  -- Once the password is sent, AuthenticationOk, a ParameterStatus or BackendKeyData for each
  -- telling and a ReadyForQuery complete connecting without an error. Texts have no nul and fit
  -- their message, numbers have 32 bits, and the status of ReadyForQuery is one of the three.
  pub answered-completes :
      (ts : List Telling) (status : ℕ) (rest : Bytes)
      → AllTellings ts
      → ReadyStatus status
      → connect_parse para (answered auth_frame) (authentication_ok ++ ready_after ts status rest)
        ≡ complete (connected no_error) rest
  unfolding connect_parse
  answered-completes ts status rest v h =
      let told = ready_after ts status rest in
      let all = authentication_ok ++ told in
      do_rounds_fuel (connect_round para) (answered auth_frame) all
      ∙ rounds_go_on (connect_round para) (suc (2 * length all)) (answered auth_frame)
          (settling ready_frame) all told (answered_round told)
      ∙ settling_loop para ts (suc (2 * length all)) status rest v h
          (omega (arith, tellings_size ts status rest, length-append authentication_ok told))

  -- Where the server asks for no password, connecting completes at AuthenticationOk: what the
  -- server tells after it is left unread in the buffer, ReadyForQuery included.
  pub startup-trusted :
      (rest : Bytes)
      → connect_parse para (startup auth_frame) (authentication_ok ++ rest)
        ≡ complete (connected no_error) rest
  unfolding connect_parse
  startup-trusted rest =
      let all = authentication_ok ++ rest in
      do_rounds_fuel (connect_round para) (startup auth_frame) all
      ∙ rounds_complete (connect_round para) (suc (2 * length all)) (startup auth_frame)
          (connected no_error) all rest (startup_round rest)

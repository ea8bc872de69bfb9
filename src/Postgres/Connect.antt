-- ===== src/Postgres/Connect.antt =====
-- include/chx/sql/postgresql/detail/connect.ipp: the startup of a connection, and the parameters of
-- connection.hpp.
pub mod Requests
pub mod Laws
pub mod Handshake
use chxsql.Base.{
  codes, allocated, ℕ, ◌+◌, ◌-◌, ◌%◌, ◌^◌, Bytes, List, [], ◌∷◌, ◌++◌, Option, none, some, ◌⊎◌, inl,
  inr, length, ◌==◌, if◌then◌else◌,
}
use chxsql.Postgres.Basic.{integer_to_network, string_to_network}
use chxsql.Postgres.ErrorCode.Values.{Errc}
use chxsql.Postgres.ErrorCode.{ErrorCode, no_error, make_ec}
use chxsql.Postgres.Frame.{Frame, new_frame}
use chxsql.Postgres.Message.{Message}
use chxsql.Postgres.MessageParser.{message_parser}
use chxsql.Postgres.Msg.Authentication.{
  AuthenticationMethod, trust_or_finished, cleartext_password, Auth, new_auth, authentication,
  authentication_method,
}
use chxsql.Postgres.Msg.Fixed.{ready_for_query}
use chxsql.Postgres.Msg.Report.{
  ErrorResponse, new_error, error_response, NoticeResponse, notice_type, notice_response,
}
use chxsql.Postgres.Msg.Status.{
  BackendKeyData, new_key_data, backend_key_data, ParameterStatus, new_parameter, parameter_status,
}
use chxsql.Postgres.Operation.{Round, go_on, read, complete, crash, then_round, do_rounds}
use chxsql.Postgres.Variant.{either}

pub record ConnectParameters : Type 0 where
  pub username : Bytes
  pub password : Bytes
  pub database : Bytes

-- The messages that every message_parser knows.
abbrev pub Reports : Type 0
Reports = ErrorResponse ⊎ (ParameterStatus ⊎ NoticeResponse)

abbrev pub reports : Message
reports = either error_response (either parameter_status notice_response)

-- `message_parser<msg::authentication>`.
abbrev pub AuthValue : Type 0
AuthValue = Auth ⊎ Reports

abbrev pub auth_variant : Message
auth_variant = either authentication reports

abbrev pub auth_messages : List (ℕ × AuthValue)
auth_messages =
    (b'R', inl new_auth)
    ∷ (b'E', inr (inl new_error))
    ∷ (b'S', inr (inr (inl new_parameter)))
    ∷ (b'N', inr (inr (inr notice_type)))
    ∷ []

-- `message_parser<msg::ready_for_query, msg::backend_key_data>`.
abbrev pub ReadyValue : Type 0
ReadyValue = ℕ ⊎ (BackendKeyData ⊎ Reports)

abbrev pub ready_variant : Message
ready_variant = either ready_for_query (either backend_key_data reports)

abbrev pub ready_messages : List (ℕ × ReadyValue)
ready_messages =
    (b'Z', inl 0)
    ∷ (b'K', inr (inl new_key_data))
    ∷ (b'E', inr (inr (inl new_error)))
    ∷ (b'S', inr (inr (inr (inl new_parameter))))
    ∷ (b'N', inr (inr (inr (inr notice_type))))
    ∷ []

-- `__M_state` before `emplace<0>()`: waiting for the method, for the end of the authentication, for
-- the server to be ready.
pub data Connecting : Type 0 where
  startup : Frame AuthValue → Connecting
  answered : Frame AuthValue → Connecting
  settling : Frame ReadyValue → Connecting

abbrev pub auth_frame : Frame AuthValue
auth_frame = new_frame (inl new_auth)

abbrev pub ready_frame : Frame ReadyValue
ready_frame = new_frame (inl 0)

-- How a call ends: the operation completes, or it writes some bytes and is in a new state.
pub data ConnectEnd : Type 0 where
  connected : ErrorCode → ConnectEnd
  sending : Bytes → Connecting → ConnectEnd

abbrev pub connect_refusal : ConnectEnd
connect_refusal = connected (make_ec Errc.malformed_message)

-- The answer to CleartextPassword. `raw_sz` is a uint32_t.
unfoldable pub password_request : Bytes → Option Bytes
unfolding allocated
password_request password =
    let raw_sz = (5 + length password + 1) % 2 ^ 32 in
    allocated raw_sz (
      b'p'
      ∷ (integer_to_network 4 ((raw_sz + (2 ^ 32 - 1)) % 2 ^ 32) ++ string_to_network password))

-- `operator()(cntl)`: the startup message. The last byte of the vector stays 0.
unfoldable pub startup_request : ConnectParameters → Option Bytes
unfolding allocated
startup_request para =
    let raw_sz =
      (4 + 4 + 5 + length para.username + 1 + 9 + length para.database + 1 + 1) % 2 ^ 32 in
    allocated raw_sz (
      integer_to_network 4 raw_sz
      ++ (integer_to_network 4 196608
          ++ (string_to_network (codes "user")
              ++ (string_to_network para.username
                  ++ (string_to_network (codes "database")
                      ++ (string_to_network para.database ++ 0 ∷ []))))))

-- The switch of do_wait_for_auth_success.
unfoldable pub answer_case : AuthenticationMethod → Bytes → Round Connecting ConnectEnd
answer_case trust_or_finished rest = go_on (settling ready_frame) rest
answer_case _ rest = complete connect_refusal rest

-- do_wait_for_auth_success, after a message. It dismisses one into the first state.
unfoldable pub answered_value : AuthValue → Bytes → Round Connecting ConnectEnd
unfolding answer_case
answered_value (inl auth) rest = answer_case (authentication_method auth.result) rest
answered_value (inr (inl err)) rest = complete (connected (make_ec err.ec)) rest
answered_value (inr (inr _)) rest = go_on (startup auth_frame) rest

-- do_wait_till_ready, after a message.
unfoldable pub settling_value : ReadyValue → Bytes → Round Connecting ConnectEnd
settling_value (inl ready) rest = complete (connected no_error) rest
settling_value (inr (inl key)) rest = go_on (settling ready_frame) rest
settling_value (inr (inr (inl err))) rest = complete (connected (make_ec err.ec)) rest
settling_value (inr (inr (inr _))) rest = go_on (settling ready_frame) rest

module _ (para : ConnectParameters) where
  -- `begin may not eq end`: what is left stays in the buffer while the password is sent.
  unfoldable pub send_password : Option Bytes → Bytes → Round Connecting ConnectEnd
  send_password none rest = crash
  send_password (some raw) rest = complete (sending raw (answered auth_frame)) rest

  -- The switch of do_read_s1_v2.
  unfoldable pub method_case : AuthenticationMethod → Bytes → Round Connecting ConnectEnd
  unfolding send_password
  method_case trust_or_finished rest = complete (connected no_error) rest
  method_case cleartext_password rest = send_password (password_request para.password) rest
  method_case _ rest =
      complete (connected (make_ec Errc.sqlclient_unable_to_establish_sqlconnection)) rest

  -- do_read_s1_v2, after a message.
  unfoldable pub startup_value : AuthValue → Bytes → Round Connecting ConnectEnd
  unfolding method_case
  startup_value (inl auth) rest = method_case (authentication_method auth.result) rest
  startup_value (inr (inl err)) rest = complete (connected (make_ec err.ec)) rest
  startup_value (inr (inr _)) rest = go_on (startup auth_frame) rest

  -- do_read_s1_v2, do_wait_for_auth_success and do_wait_till_ready, up to their calls of one
  -- another.
  unfoldable pub connect_round : Connecting → Bytes → Round Connecting ConnectEnd
  connect_round (startup f) xs =
      then_round (message_parser auth_variant auth_messages f xs) startup startup_value
        connect_refusal
  connect_round (answered f) xs =
      then_round (message_parser auth_variant auth_messages f xs) answered answered_value
        connect_refusal
  connect_round (settling f) xs =
      then_round (message_parser ready_variant ready_messages f xs) settling settling_value
        connect_refusal

  unfoldable pub connect_parse : Connecting → Bytes → Round Connecting ConnectEnd
  connect_parse = do_rounds connect_round

  -- The handlers of the reads and of ev_send_oneshot_response.
  unfoldable pub connect_on_bytes : ErrorCode → Connecting → Bytes → Round Connecting ConnectEnd
  connect_on_bytes e s xs = if e.value == 0 then connect_parse s xs else complete (connected e) xs

  -- The handler of ev_send_startup_v2.
  unfoldable pub startup_sent : ErrorCode → Bytes → Round Connecting ConnectEnd
  startup_sent e xs = if e.value == 0 then read (startup auth_frame) else complete (connected e) xs

-- ===== src/Postgres/Tests/Startup.antt =====
-- The startup of a connection and the requests of an execution, at concrete inputs.
use chxsql.Base.{
  codes, ℕ, ◌+◌, ◌%◌, Bytes, List, [], ◌∷◌, ◌++◌, ◌≡◌, refl, arith, length, some, inl,
}
use chxsql.Postgres.Basic.{integer_to_network, string_to_network}
use chxsql.Postgres.Builders.Layout.{
  texts, bind_body, des_layout, execute_request_layout, oneshot_request_layout,
}
use chxsql.Postgres.Builders.{Parameter, arithmetic, buffer, execute_request, oneshot_request}
use chxsql.Postgres.Connect.Handshake.{
  Telling, parameter, key, AllTellings, authentication_ok, ready_after, answered-completes,
  startup-trusted,
}
use chxsql.Postgres.Connect.Laws.{ValidConnecting, connect_parse-Settles, connect_parse-resumes}
use chxsql.Postgres.Connect.Requests.{startup_body, startup_request_layout}
use chxsql.Postgres.Connect.{
  ConnectParameters, startup, answered, auth_frame, connected, startup_request, connect_parse,
}
use chxsql.Postgres.ErrorCode.Values.{Errc}
use chxsql.Postgres.ErrorCode.{no_error}
use chxsql.Postgres.Frame.RoundTrip.{framed}
use chxsql.Postgres.Msg.DataRow.Layout.{encode_values}
use chxsql.Postgres.Msg.Report.RoundTrip.{
  Field, encode_fields, last_code, AllValid, error_response_body-encode,
}
use chxsql.Postgres.Msg.Report.{error_response_body, new_error, field_type}
use chxsql.Postgres.Operation.Streaming.{shown, resume_round}
use chxsql.Postgres.Operation.Termination.{Settles}
use chxsql.Postgres.Operation.{complete}
use chxsql.Postgres.Outcome.{verdict, parse_success}

abbrev user : ConnectParameters
user = record { username = codes "me"; password = codes "pw"; database = codes "db" }

-- What a server tells, and a key.
abbrev told : List Telling
told = parameter (codes "TimeZone") (codes "UTC") ∷ key 7 9 ∷ []

told_valid : AllTellings told
told_valid = omega arith

abbrev digit : ℕ → Bytes
digit n = (48 + n % 10) ∷ []

abbrev values : List (Parameter ℕ)
values = arithmetic 5 ∷ buffer (codes "x") ∷ []

length-values : length (encode_values (texts digit values)) ≡ 10
unfolding integer_to_network
length-values = refl

abbrev fields : List Field
fields = (b'S', codes "ERROR") ∷ (b'C', codes "42601") ∷ []

fields_valid : AllValid fields
fields_valid = (
  (omega arith, omega arith, λ e. absurd (omega (arith, e))),
  ((omega arith, omega arith, λ e. (refl, omega arith)), tt),
)

connect_parse-Settles_example :
    Settles ValidConnecting (connect_parse user (startup auth_frame) authentication_ok)
connect_parse-Settles_example =
    connect_parse-Settles user (omega arith) (startup auth_frame) authentication_ok
      (omega arith, tt, tt)

connect_parse-resumes_example :
    shown (connect_parse user (answered auth_frame) (authentication_ok ++ b'S' ∷ 0 ∷ []))
    ≡ shown (
        resume_round
          (connect_parse user)
          (connect_parse user (answered auth_frame) authentication_ok)
          (b'S' ∷ 0 ∷ []))
connect_parse-resumes_example =
    connect_parse-resumes user (omega arith) (answered auth_frame) authentication_ok (b'S' ∷ 0 ∷ [])
      (omega arith, tt, tt)

answered-completes_example :
    connect_parse user (answered auth_frame) (authentication_ok ++ ready_after told b'I' [])
    ≡ complete (connected no_error) []
answered-completes_example = answered-completes user told b'I' [] told_valid (inl refl)

startup-trusted_example :
    connect_parse user (startup auth_frame) (authentication_ok ++ ready_after told b'I' [])
    ≡ complete (connected no_error) (ready_after told b'I' [])
startup-trusted_example = startup-trusted user (ready_after told b'I' [])

startup_request_layout_example :
    startup_request user
    ≡ some (integer_to_network 4 (4 + length (startup_body user)) ++ startup_body user)
startup_request_layout_example = startup_request_layout user (omega arith)

execute_request_layout_example :
    execute_request digit (codes "s1") values
    ≡ some (framed b'B' (bind_body digit (codes "s1") values) ++ des_layout)
execute_request_layout_example =
    execute_request_layout digit (codes "s1") values (omega arith) (omega (arith, length-values))

oneshot_request_layout_example :
    oneshot_request digit (codes "select $1") values
    ≡ some (
        framed b'P' (0 ∷ (string_to_network (codes "select $1") ++ 0 ∷ 0 ∷ []))
        ++ (framed b'B' (bind_body digit [] values) ++ des_layout))
oneshot_request_layout_example =
    oneshot_request_layout digit (codes "select $1") values (omega arith) (omega arith)
      (omega (arith, length-values))

error_response_body-encode_example :
    error_response_body new_error (encode_fields fields)
    ≡ verdict parse_success
        (record { ec = last_code Errc.successful_completion fields; parsers = field_type })
error_response_body-encode_example = error_response_body-encode fields fields_valid

-- ===== src/Postgres/Msg/Authentication.antt =====
-- include/chx/sql/postgresql/detail/msg/authentication.hpp and authentication_method.hpp: what the
-- server asks of the client, or that it is content.
pub mod Streaming
use chxsql.Base.{ℕ, Bytes, [], ◌==◌, if◌then◌else◌}
use mathlib.Core.List.{reverse}
use chxsql.Postgres.Outcome.{parse_success, parse_malformed, Verdict, make_success}
use chxsql.Postgres.Basic.{
  Integer, integer, integer_value, big_endian, integer_to_network, string, insert_bytes,
}
use chxsql.Postgres.Message.{Message, of_type, of_length, any_length}
use chxsql.Postgres.Turn.{Turn, again, stop, then_turn, body}

pub data AuthenticationMethod : Type 0 where
  trust_or_finished kerberos_v5 cleartext_password md5_password : AuthenticationMethod
  gss sspi sasl : AuthenticationMethod

-- The alternatives of `parsers`.
pub data AuthParser : Type 0 where
  method_parser salt_parser : Integer → AuthParser
  mechanism_parser : Bytes → AuthParser

-- The alternatives of `result`.
pub data AuthResult : Type 0 where
  method : AuthenticationMethod → AuthResult
  salt : ℕ → AuthResult
  mechanism : Bytes → AuthResult

pub record Auth : Type 0 where
  pub parsers : AuthParser
  pub result : AuthResult

unfoldable pub authentication_method : AuthResult → AuthenticationMethod
authentication_method (method m) = m
authentication_method (salt s) = md5_password
authentication_method (mechanism s) = sasl

-- On a little-endian host: the same four bytes read from the other end.
unfoldable pub htonl : ℕ → ℕ
unfolding big_endian integer_to_network
htonl v = big_endian (reverse (integer_to_network 4 v))

-- What follows the code of the method: `result.emplace<0>(m); return make_success(begin, end);` for
-- a method that says no more, another parser for md5 and sasl.
unfoldable pub method_chosen : AuthResult → ℕ → Bytes → Turn Auth
method_chosen r m rest =
    let says : AuthenticationMethod → Turn Auth =
      λ a. stop (make_success rest) (record { parsers = method_parser []; result = method a }) in
    if m == 0
    then says trust_or_finished
    else if m == 2
    then says kerberos_v5
    else if m == 3
    then says cleartext_password
    else if m == 5
    then again (record { parsers = salt_parser []; result = r }) rest
    else if m == 7
    then says gss
    else if m == 9
    then says sspi
    else if m == 10
    then again (record { parsers = mechanism_parser []; result = r }) rest
    else stop parse_malformed (record { parsers = method_parser []; result = r })

-- `idx == 0`.
unfoldable pub method_turn : AuthResult → Integer → Bytes → Turn Auth
method_turn r p xs =
    then_turn (integer 4 p xs) (λ q. record { parsers = method_parser q; result = r })
      (λ q rest. method_chosen r (integer_value 4 q) rest)

-- `idx == 1`.
unfoldable pub salt_turn : AuthResult → Integer → Bytes → Turn Auth
salt_turn r p xs =
    then_turn (integer 4 p xs) (λ q. record { parsers = salt_parser q; result = r })
      (λ q rest.
        stop (make_success rest)
          (record { parsers = salt_parser []; result = salt (htonl (integer_value 4 q)) }))

-- The last branch.
unfoldable pub mechanism_turn : AuthResult → Bytes → Bytes → Turn Auth
mechanism_turn r p xs =
    then_turn (string insert_bytes p xs) (λ q. record { parsers = mechanism_parser q; result = r })
      (λ q rest.
        stop (make_success rest) (record { parsers = mechanism_parser []; result = mechanism q }))

auth_turn_in : AuthParser → AuthResult → Bytes → Turn Auth
auth_turn_in (method_parser p) r xs = method_turn r p xs
auth_turn_in (salt_parser p) r xs = salt_turn r p xs
auth_turn_in (mechanism_parser p) r xs = mechanism_turn r p xs

unfoldable pub auth_turn : Auth → Bytes → Turn Auth
unfolding auth_turn_in
auth_turn a xs = auth_turn_in a.parsers a.result xs

unfoldable pub authentication_body : Auth → Bytes → Verdict Auth
authentication_body = body auth_turn

abbrev pub new_auth : Auth
new_auth = record { parsers = method_parser []; result = method trust_or_finished }

abbrev pub authentication : Message
authentication = record {
  State = Auth;
  on_message_type = of_type b'R';
  on_message_length = any_length;
  on_body = authentication_body;
}

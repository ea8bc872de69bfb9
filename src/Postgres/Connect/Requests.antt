-- ===== src/Postgres/Connect/Requests.antt =====
-- What connecting sends: the layout of the startup message and of the password.
use chxsql.Base.{
  codes, allocated_exact, ◌+◌, ◌-◌, ◌%◌, ◌^◌, ◌<◌, Bytes, [], ◌∷◌, ◌++◌, ◌≡◌, refl, arith, length,
  length-append, some,
}
use chxsql.Postgres.Basic.RoundTrip.{length-integer_to_network}
use chxsql.Postgres.Basic.{integer_to_network, string_to_network}
use chxsql.Postgres.Connect.{ConnectParameters, password_request, startup_request}
use chxsql.Postgres.Frame.RoundTrip.{framed}
use chxsql.Postgres.Requests.{length-string_to_network}

pub password_request_layout :
    (password : Bytes)
    → 6 + length password < 2 ^ 32
    → password_request password ≡ some (framed b'p' (string_to_network password))
unfolding password_request
password_request_layout password h =
    let n = length-string_to_network password in
    let a : (5 + length password + 1) % 2 ^ 32 ≡ 6 + length password = omega (arith, h) in
    let b : (6 + length password + (2 ^ 32 - 1)) % 2 ^ 32
        ≡ 4 + length (string_to_network password) =
      omega (arith, h, n) in
    rw (a, b)
      (allocated_exact (6 + length password) (framed b'p' (string_to_network password))
        (rw (length-append, length-integer_to_network, n) (omega arith)))

-- The body of the startup message: the version 3.0 and two parameters.
abbrev pub startup_body : ConnectParameters → Bytes
startup_body para =
    integer_to_network 4 196608
    ++ (string_to_network (codes "user")
        ++ (string_to_network para.username
            ++ (string_to_network (codes "database")
                ++ (string_to_network para.database ++ 0 ∷ []))))

length-startup_body :
    (para : ConnectParameters)
    → length (startup_body para) ≡ 21 + length para.username + length para.database
length-startup_body para =
    rw
      (
        length-append, length-integer_to_network, length-append, length-string_to_network,
        length-append, length-string_to_network, length-append, length-string_to_network,
        length-append, length-string_to_network,
      )
      (omega arith)

-- Unless its size wraps, the startup message fills its vector exactly and is its length, the
-- version 3.0, the user, the database and a nul.
pub startup_request_layout :
    (para : ConnectParameters)
    → 25 + length para.username + length para.database < 2 ^ 32
    → startup_request para
      ≡ some (integer_to_network 4 (4 + length (startup_body para)) ++ startup_body para)
unfolding startup_request
startup_request_layout para h =
    let n = length-startup_body para in
    let a : (4 + 4 + 5 + length para.username + 1 + 9 + length para.database + 1 + 1) % 2 ^ 32
        ≡ 4 + length (startup_body para) =
      omega (arith, h, n) in
    rw a (
      allocated_exact (4 + length (startup_body para)) _
        (rw (length-append, length-integer_to_network) refl))

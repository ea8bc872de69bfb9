-- ===== src/Postgres/Requests.antt =====
-- The messages that the operations send are frames of the protocol, unless their size, a uint32_t,
-- wraps.
use chxsql.Base.{
  allocated_exact, ◌+◌, ◌-◌, ◌%◌, ◌^◌, ◌<◌, Bytes, [], ◌∷◌, ◌++◌, ◌≡◌, refl, sym, append-nil, ap,
  ◌∙◌, arith, length, length-append, append_assoc, some,
}
use chxsql.Postgres.Basic.RoundTrip.{length-integer_to_network}
use chxsql.Postgres.Basic.{integer_to_network, string_to_network}
use chxsql.Postgres.Frame.RoundTrip.{framed}
use chxsql.Postgres.ParseQuery.{parse_request}
use chxsql.Postgres.SimpleQuery.{query_request}

pub length-string_to_network : (s : Bytes) → length (string_to_network s) ≡ length s + 1
unfolding string_to_network
length-string_to_network s = length-append s (0 ∷ [])

-- Unless its size wraps, the request of simple_query fills its vector exactly and is one Q frame
-- that holds the text.
pub query_request_layout :
    (query : Bytes)
    → 6 + length query < 2 ^ 32
    → query_request query ≡ some (framed b'Q' (string_to_network query))
unfolding query_request
query_request_layout query h =
    let n = length-string_to_network query in
    let a : (5 + length query + 1) % 2 ^ 32 ≡ 6 + length query = omega (arith, h) in
    let b : (6 + length query + (2 ^ 32 - 1)) % 2 ^ 32 ≡ 4 + length (string_to_network query) =
      omega (arith, h, n) in
    rw (a, b)
      (allocated_exact (6 + length query) (framed b'Q' (string_to_network query))
        (rw (length-append, length-integer_to_network, n) (omega arith)))

-- Unless its size wraps, the request of parse_query fills its vector exactly and is a P frame with
-- the name, the text and no parameter type, and an S frame after it.
pub parse_request_layout :
    (pattern_name pattern : Bytes)
    → 14 + length pattern_name + length pattern < 2 ^ 32
    → parse_request pattern_name pattern
      ≡ some (
          framed b'P'
            (string_to_network pattern_name ++ (string_to_network pattern ++ (0 ∷ 0 ∷ [])))
          ++ framed b'S' [])
unfolding parse_request
parse_request_layout pattern_name pattern h =
    let name = string_to_network pattern_name in
    let text = string_to_network pattern in
    let body = name ++ (text ++ (0 ∷ 0 ∷ [])) in
    let n = length-string_to_network pattern_name in
    let m = length-string_to_network pattern in
    let k : length body ≡ 4 + length pattern_name + length pattern =
      rw (length-append, length-append, n, m) (omega arith) in
    let a : (5 + length pattern_name + length pattern + 2 + 2) % 2 ^ 32
        ≡ 9 + length pattern_name + length pattern =
      omega (arith, h) in
    let b : (9 + length pattern_name + length pattern + 5) % 2 ^ 32
        ≡ 14 + length pattern_name + length pattern =
      omega (arith, h) in
    let c : (9 + length pattern_name + length pattern + (2 ^ 32 - 1)) % 2 ^ 32 ≡ 4 + length body =
      omega (arith, h, k) in
    let joined : framed b'P' body ++ framed b'S' []
        ≡ b'P'
          ∷ (integer_to_network 4 (4 + length body)
              ++ (name ++ (text ++ (0 ∷ 0 ∷ b'S' ∷ integer_to_network 4 4)))) =
      rw (append_assoc, append_assoc, append_assoc, append-nil) refl in
    rw (a, b, c)
      (allocated_exact _ _ (
          rw (length-append, length-integer_to_network, length-append, n, length-append, m)
            (omega (arith, length-integer_to_network 4 4)))
        ∙ ap some (sym joined))

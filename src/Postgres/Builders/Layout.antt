-- ===== src/Postgres/Builders/Layout.antt =====
-- The layout of the messages of an execution.
use chxsql.Base.{
  allocated_exact, ℕ, suc, Option, ◌+◌, ◌-◌, ◌%◌, ◌^◌, ◌<◌, Bytes, List, [], ◌∷◌, ◌++◌, ◌≡◌, refl,
  ap, arith, length, length-append, append_assoc, some,
}
use chxsql.Postgres.Basic.RoundTrip.{length-integer_to_network}
use chxsql.Postgres.Basic.{integer_to_network, string_to_network}
use chxsql.Postgres.Builders.{
  Parameter, arithmetic, buffer, encode_param, create_des_msg, create_parse_msg, encode_params,
  bind_header, create_bind_msg, execute_request, oneshot_request,
}
use chxsql.Postgres.Frame.RoundTrip.{framed}
use chxsql.Postgres.Msg.DataRow.Layout.{encode_value, encode_values, encode_row}
use chxsql.Postgres.Rows.{Row}
use chxsql.Postgres.Requests.{length-string_to_network}

-- Describe the portal, execute it without a limit of rows, and synchronise.
abbrev pub des_layout : Bytes
des_layout = framed b'D' (b'P' ∷ 0 ∷ []) ++ (framed b'E' (0 ∷ 0 ∷ 0 ∷ 0 ∷ 0 ∷ []) ++ framed b'S' [])

des_framed : create_des_msg ≡ des_layout
unfolding create_des_msg integer_to_network
des_framed = refl

parse_framed :
    (pattern : Bytes)
    → 9 + length pattern < 2 ^ 32
    → create_parse_msg pattern ≡ some (framed b'P' (0 ∷ (string_to_network pattern ++ 0 ∷ 0 ∷ [])))
unfolding create_parse_msg
parse_framed pattern h =
    let body = 0 ∷ (string_to_network pattern ++ 0 ∷ 0 ∷ []) in
    let n : length body ≡ 4 + length pattern = omega (
      arith,
      length-append (string_to_network pattern) (0 ∷ 0 ∷ []),
      length-string_to_network pattern,
    ) in
    let a : (5 + 1 + length pattern + 1 + 2) % 2 ^ 32 ≡ 9 + length pattern = omega (arith, h) in
    let b : (9 + length pattern + (2 ^ 32 - 1)) % 2 ^ 32 ≡ 4 + length body = omega (arith, h, n) in
    rw (a, b)
      (allocated_exact (9 + length pattern) (framed b'P' body)
        (rw (length-append, length-integer_to_network) (omega (arith, n))))

-- The values that the statement is given, as texts.
abbrev pub texts : {N : Type 0} → (N → Bytes) → List (Parameter N) → Row
texts to_string [] = []
texts to_string (arithmetic n ∷ ps) = some (to_string n) ∷ texts to_string ps
texts to_string (buffer bs ∷ ps) = some bs ∷ texts to_string ps

length-texts :
    {N : Type 0} (to_string : N → Bytes) (ps : List (Parameter N))
    → length (texts to_string ps) ≡ length ps
length-texts to_string [] = refl
length-texts to_string (arithmetic n ∷ ps) = ap suc (length-texts to_string ps)
length-texts to_string (buffer bs ∷ ps) = ap suc (length-texts to_string ps)

-- The body of a Bind: the portal and the statement, no format, the values laid out as a row is, and
-- no format of a result.
abbrev pub bind_body : {N : Type 0} → (N → Bytes) → Bytes → List (Parameter N) → Bytes
bind_body to_string name params =
    0 ∷ (string_to_network name ++ 0 ∷ 0 ∷ (encode_row (texts to_string params) ++ 0 ∷ 0 ∷ []))

abbrev head_bytes : Bytes → ℕ → ℕ → Bytes
head_bytes name count size =
    b'B'
    ∷ (integer_to_network 4 size
        ++ 0 ∷ (string_to_network name ++ 0 ∷ 0 ∷ integer_to_network 2 (count % 2 ^ 16)))

header_exact :
    (name : Bytes) (body_sz count : ℕ)
    → 13 + length name + body_sz < 2 ^ 32
    → bind_header name body_sz count ≡ some (head_bytes name count (12 + length name + body_sz))
unfolding bind_header
header_exact name body_sz count h =
    let a : (5 + 1 + length name + 1 + 2 + 2) % 2 ^ 32 ≡ 11 + length name = omega (arith, h) in
    let b : (11 + length name + (2 ^ 32 - 1) + body_sz + 2) % 2 ^ 32 ≡ 12 + length name + body_sz =
      omega (arith, h) in
    rw (a, b)
      (allocated_exact (11 + length name) (head_bytes name count (12 + length name + body_sz)) (
        omega (
          arith,
          length-append (integer_to_network 4 (12 + length name + body_sz))
              (0 ∷ (string_to_network name ++ 0 ∷ 0 ∷ integer_to_network 2 (count % 2 ^ 16))),
          length-append (string_to_network name) (0 ∷ 0 ∷ integer_to_network 2 (count % 2 ^ 16)),
          length-string_to_network name,
          length-integer_to_network 4 (12 + length name + body_sz),
          length-integer_to_network 2 (count % 2 ^ 16),
        )))

module _ {N : Type 0} (to_string : N → Bytes) where
  rest_small :
      (v : Option Bytes) (ps : List (Parameter N))
      → length (encode_values (v ∷ texts to_string ps)) < 2 ^ 32
      → length (encode_values (texts to_string ps)) < 2 ^ 32
  rest_small v ps h =
      omega (arith, h, length-append (encode_value v) (encode_values (texts to_string ps)))

  value_laid :
      (bs : Bytes) (ps : List (Parameter N))
      → encode_params to_string ps ≡ encode_values (texts to_string ps)
      → length (encode_values (some bs ∷ texts to_string ps)) < 2 ^ 32
      → (integer_to_network 4 (length bs % 2 ^ 32) ++ bs) ++ encode_params to_string ps
        ≡ encode_values (some bs ∷ texts to_string ps)
  value_laid bs ps e h =
      let small : length bs % 2 ^ 32 ≡ length bs = omega (
        arith,
        h,
        length-append (integer_to_network 4 (length bs) ++ bs) (encode_values (texts to_string ps)),
        length-append (integer_to_network 4 (length bs)) bs,
      ) in
      rw (small, e) refl

  params_laid :
      (ps : List (Parameter N))
      → length (encode_values (texts to_string ps)) < 2 ^ 32
      → encode_params to_string ps ≡ encode_values (texts to_string ps)
  unfolding encode_params encode_param
  params_laid [] h = refl
  params_laid (arithmetic n ∷ ps) h =
      value_laid (to_string n) ps (params_laid ps (rest_small (some (to_string n)) ps h)) h
  params_laid (buffer bs ∷ ps) h = value_laid bs ps (params_laid ps (rest_small (some bs) ps h)) h

  bind_framed :
      (name : Bytes) (params : List (Parameter N))
      → length params < 2 ^ 16
      → 13 + length name + length (encode_values (texts to_string params)) < 2 ^ 32
      → create_bind_msg to_string name params ≡ some (framed b'B' (bind_body to_string name params))
  unfolding create_bind_msg
  bind_framed name params k h =
      let vs = texts to_string params in
      let values = encode_values vs in
      let same : length values % 2 ^ 32 ≡ length values = omega (arith, h) in
      let count : length params % 2 ^ 16 ≡ length vs =
        omega (arith, k, length-texts to_string params) in
      let body = bind_body to_string name params in
      let n : 4 + length body ≡ 12 + length name + length values = omega (
        arith,
        length-append (string_to_network name)
            (0 ∷ 0 ∷ ((integer_to_network 2 (length vs) ++ values) ++ 0 ∷ 0 ∷ [])),
        length-append (integer_to_network 2 (length vs) ++ values) (0 ∷ 0 ∷ []),
        length-append (integer_to_network 2 (length vs)) values,
        length-string_to_network name,
        length-integer_to_network 2 (length vs),
      ) in
      let whole : head_bytes name (length params) (12 + length name + length values)
            ++ (values ++ 0 ∷ 0 ∷ [])
          ≡ framed b'B' body =
        rw (n, count) (rw (append_assoc, append_assoc, append_assoc) refl) in
      rw
        (
          params_laid params (omega (arith, h)),
          same,
          header_exact name (length values) (length params) h,
        )
        (ap some whole)

  -- Unless its size wraps, the request of async_execute with fewer than 2 ^ 16 parameters fills
  -- its buffers exactly and is a Bind of the statement and the texts of the parameters, laid out
  -- in their order as a row is, a Describe of the portal, an Execute and a Sync.
  pub execute_request_layout :
      (name : Bytes) (params : List (Parameter N))
      → length params < 2 ^ 16
      → 13 + length name + length (encode_values (texts to_string params)) < 2 ^ 32
      → execute_request to_string name params
        ≡ some (framed b'B' (bind_body to_string name params) ++ des_layout)
  unfolding execute_request
  execute_request_layout name params k h = rw (bind_framed name params k h, des_framed) refl

  -- Unless a size wraps, the request of async_execute_oneshot with fewer than 2 ^ 16 parameters
  -- fills its buffers exactly and is a Parse of a statement without a name, and an execution of it
  -- with the texts of the parameters, laid out in their order as a row is.
  pub oneshot_request_layout :
      (pattern : Bytes) (params : List (Parameter N))
      → 9 + length pattern < 2 ^ 32
      → length params < 2 ^ 16
      → 13 + length (encode_values (texts to_string params)) < 2 ^ 32
      → oneshot_request to_string pattern params
        ≡ some (
            framed b'P' (0 ∷ (string_to_network pattern ++ 0 ∷ 0 ∷ []))
            ++ (framed b'B' (bind_body to_string [] params) ++ des_layout))
  unfolding oneshot_request
  oneshot_request_layout pattern params h l k =
      rw (parse_framed pattern h, bind_framed [] params l k, des_framed) refl

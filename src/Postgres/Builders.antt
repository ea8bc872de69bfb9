-- ===== src/Postgres/Builders.antt =====
-- include/chx/sql/postgresql/detail/create_msg.hpp and encode_param.hpp: the messages that
-- async_execute of execute.ipp and async_oneshot of oneshot.ipp send.
pub mod Layout
use chxsql.Base.{
  allocated, ℕ, ◌+◌, ◌-◌, ◌%◌, ◌^◌, Bytes, List, [], ◌∷◌, ◌++◌, Option, none, some, length,
}
use chxsql.Postgres.Basic.{integer_to_network, string_to_network}

-- A parameter of a statement: a number, or what a buffer is made of.
pub data Parameter (N : Type 0) : Type 0 where
  arithmetic : N → Parameter N
  buffer : Bytes → Parameter N

-- `create_DES_msg`: an array of zeros, into which this is written.
unfoldable pub create_des_msg : Bytes
unfolding integer_to_network
create_des_msg =
    b'D'
    ∷ (integer_to_network 4 6
        ++ b'P'
          ∷ 0
          ∷ b'E'
          ∷ (integer_to_network 4 9 ++ 0 ∷ 0 ∷ 0 ∷ 0 ∷ 0 ∷ b'S' ∷ integer_to_network 4 4))

-- `create_parse_msg`. The vector has `p_len` bytes, those not written are 0.
unfoldable pub create_parse_msg : Bytes → Option Bytes
unfolding allocated
create_parse_msg pattern =
    let p_len = (5 + 1 + length pattern + 1 + 2) % 2 ^ 32 in
    allocated p_len (
      b'P'
      ∷ (integer_to_network 4 ((p_len + (2 ^ 32 - 1)) % 2 ^ 32)
          ++ 0 ∷ (string_to_network pattern ++ 0 ∷ 0 ∷ [])))

-- The header of `create_bind_msg`, `body_sz` given.
unfoldable pub bind_header : Bytes → ℕ → ℕ → Option Bytes
unfolding allocated
bind_header name body_sz count =
    let header_len = (5 + 1 + length name + 1 + 2 + 2) % 2 ^ 32 in
    allocated header_len (
      b'B'
      ∷ (integer_to_network 4 ((header_len + (2 ^ 32 - 1) + body_sz + 2) % 2 ^ 32)
          ++ 0 ∷ (string_to_network name ++ 0 ∷ 0 ∷ integer_to_network 2 (count % 2 ^ 16))))

abbrev joined : Option Bytes → Option Bytes → Option Bytes
joined (some a) (some b) = some (a ++ b)
joined _ _ = none

-- `to_string` is std::to_string.
module _ {N : Type 0} (to_string : N → Bytes) where
  -- `encode_param`, and `htonl` of the size as a uint32_t.
  unfoldable pub encode_param : Parameter N → Bytes
  encode_param (arithmetic n) = integer_to_network 4 (length (to_string n) % 2 ^ 32) ++ to_string n
  encode_param (buffer bs) = integer_to_network 4 (length bs % 2 ^ 32) ++ bs

  unfoldable pub encode_params : List (Parameter N) → Bytes
  unfolding encode_param
  encode_params [] = []
  encode_params (p ∷ ps) = encode_param p ++ encode_params ps

  -- `create_bind_msg`: header, body and a tail of two zero bytes.
  unfoldable pub create_bind_msg : Bytes → List (Parameter N) → Option Bytes
  unfolding bind_header encode_params
  create_bind_msg name params =
      let body = encode_params params in
      joined (bind_header name (length body % 2 ^ 32) (length params)) (some (body ++ 0 ∷ 0 ∷ []))

  -- `async_execute`.
  unfoldable pub execute_request : Bytes → List (Parameter N) → Option Bytes
  unfolding create_bind_msg create_des_msg
  execute_request name params = joined (create_bind_msg name params) (some create_des_msg)

  -- `async_execute_oneshot`: the statement has no name.
  unfoldable pub oneshot_request : Bytes → List (Parameter N) → Option Bytes
  unfolding create_bind_msg create_des_msg create_parse_msg
  oneshot_request pattern params =
      joined (create_parse_msg pattern) (joined (create_bind_msg [] params) (some create_des_msg))

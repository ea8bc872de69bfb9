-- ===== src/Postgres/Basic/RoundTrip.antt =====
-- The parsers of basic_type.hpp read back what its writers write, whatever follows.
use chxsql.Base.{
  NoNul, AllBytes, ℕ, zero, suc, ◌+◌, ◌-◌, ◌^◌, ◌<◌, Bytes, [], ◌∷◌, ◌++◌, ◌≡◌, refl, ap, ◌∙◌,
  arith, length, take, length-append, take-append_add, drop-append_add, append-nil, append_assoc,
}
use chxsql.Postgres.Outcome.{parse_success, Outcome, outcome}
use chxsql.Postgres.Basic.{
  big_endian, IntegerArray, integer_array, integer_array_loop, integer, integer_value, byte,
  strnlen, string, integer_to_network, string_to_network,
}
use chxsql.Postgres.Basic.Counted.{integer_enough, byte-integer}
use chxsql.Postgres.Basic.Terminated.{string_closed}

pub length-integer_to_network : (size v : ℕ) → length (integer_to_network size v) ≡ size
unfolding integer_to_network
length-integer_to_network zero v = refl
length-integer_to_network (suc size) v = ap suc (length-integer_to_network size v)

pub integer_value-to_network16 : (v : ℕ) → v < 2 ^ 16 → integer_value 2 (integer_to_network 2 v) ≡ v
unfolding integer_value integer_to_network
integer_value-to_network16 v h = omega arith

-- The value read from the four bytes that integer_to_network writes for a 32-bit number is the
-- number.
pub integer_value-to_network32 : (v : ℕ) → v < 2 ^ 32 → integer_value 4 (integer_to_network 4 v) ≡ v
unfolding integer_value integer_to_network
integer_value-to_network32 v h = omega arith

-- A prefix of the wanted length is taken whole.
pub integer_reads :
    (size : ℕ) (bs rest : Bytes)
    → length bs ≡ size
    → integer size [] (bs ++ rest) ≡ outcome parse_success bs rest
integer_reads size bs rest h =
    let e : size - 0 ≡ length bs + 0 = omega arith in
    rw (
      integer_enough size [] (bs ++ rest) (omega arith) (rw length-append (omega arith)),
      e,
      take-append_add,
      drop-append_add,
      append-nil,
    )

pub integer-to_network :
    (size v : ℕ) (rest : Bytes)
    → integer size [] (integer_to_network size v ++ rest)
      ≡ outcome parse_success (integer_to_network size v) rest
integer-to_network size v rest =
    integer_reads size (integer_to_network size v) rest (length-integer_to_network size v)

pub byte_reads :
    (bs rest : Bytes)
    → byte (record { target_length = length bs; result = [] }) (bs ++ rest)
      ≡ outcome parse_success (record { target_length = length bs; result = bs }) rest
byte_reads bs rest = byte-integer _ (bs ++ rest) ∙ rw (integer_reads (length bs) bs rest refl)

strnlen-NoNul : (s rest : Bytes) → NoNul s → strnlen (s ++ 0 ∷ rest) ≡ length s
unfolding strnlen
strnlen-NoNul [] rest h = refl
strnlen-NoNul (b ∷ bs) rest h = ground (arith, strnlen-NoNul bs rest h.1)

-- string reads back what string_to_network writes, for bytes without a nul, whatever follows.
pub string-to_network :
    {C : Type 0} (insert : C → Bytes → C) (got : C) (s rest : Bytes)
    → NoNul s
    → string insert got (string_to_network s ++ rest) ≡ outcome parse_success (insert got s) rest
unfolding string_to_network
string-to_network insert got s rest h =
    let n = strnlen-NoNul s rest h in
    let e : length s ≡ length s + 0 = omega arith in
    rw append_assoc (
      string_closed insert got (s ++ 0 ∷ rest)
        (λ q. omega (arith, n, q, length-append s (0 ∷ rest)))
      ∙ rw (n, drop-append_add)
          (ap (λ t. outcome parse_success (insert got t) rest)
            (ap (λ (k : ℕ). take k (s ++ 0 ∷ rest)) e
              ∙ take-append_add s (0 ∷ rest) 0
              ∙ append-nil s)))

byte_value : (b : ℕ) → b < 256 → integer_value 1 (b ∷ []) ≡ b
unfolding integer_value big_endian
byte_value b h = omega (arith, h)

chars_loop_reads :
    (bs rest got : Bytes) (n : ℕ)
    → AllBytes bs
    → integer_array_loop
        (length bs)
        1
        (record { result = got; target = n; parser = [] })
        (bs ++ rest)
      ≡ outcome parse_success (record { result = got ++ bs; target = n; parser = [] }) rest
unfolding integer_array_loop
chars_loop_reads [] rest got n h = rw (append-nil got) refl
chars_loop_reads (b ∷ bs) rest got n h =
    let p : IntegerArray → Outcome IntegerArray =
      λ q. integer_array_loop (length bs) 1 q (bs ++ rest) in
    let step : integer_array_loop (suc (length bs)) 1
          (record { result = got; target = n; parser = [] }) (b ∷ (bs ++ rest))
        ≡ p (record { result = got ++ b ∷ []; target = n; parser = [] }) =
      rw (integer_reads 1 (b ∷ []) (bs ++ rest) refl, integer_array_loop)
        (ap (λ (v : ℕ). p (record { result = got ++ v ∷ []; target = n; parser = [] }))
          (byte_value b h.0)) in
    let whole : (got ++ b ∷ []) ++ bs ≡ got ++ b ∷ bs = append_assoc got (b ∷ []) bs in
    step
    ∙ chars_loop_reads bs rest (got ++ b ∷ []) n h.1
    ∙ ap
        (λ (r : Bytes). outcome parse_success (record { result = r; target = n; parser = [] }) rest)
        whole

-- An array of as many bytes is read whole.
pub chars_read :
    (bs rest : Bytes)
    → AllBytes bs
    → integer_array 1 (record { result = []; target = length bs; parser = [] }) (bs ++ rest)
      ≡ outcome parse_success (record { result = bs; target = length bs; parser = [] }) rest
unfolding integer_array
chars_read bs rest h =
    let e : length bs - 0 ≡ length bs = omega arith in
    rw e (chars_loop_reads bs rest [] (length bs) h)

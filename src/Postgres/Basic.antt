-- ===== src/Postgres/Basic.antt =====
-- include/chx/sql/postgresql/detail/basic_type.hpp: the parsers of the wire's basic types, which
-- take their input in pieces, and the writers of integers and strings.
pub mod Counted
pub mod Arrays
pub mod Terminated
pub mod RoundTrip
use chxsql.Base.{
  ℕ, zero, suc, ◌+◌, ◌-◌, ◌*◌, ◌/◌, ◌%◌, ◌^◌, min, Bytes, List, [], ◌∷◌, ◌++◌, length, take, drop,
  ◌==◌, if◌then◌else◌,
}
use chxsql.Postgres.Outcome.{parse_success, parse_need_more, Outcome, outcome}

-- `integer<T>`: the bytes of `__M_result` written so far; `__M_digits_consumed` is their number.
-- The first argument is sizeof(T). `memcpy` to `&__M_result + __M_digits_consumed` appends.
abbrev pub Integer : Type 0
Integer = Bytes

unfoldable pub integer : ℕ → Integer → Bytes → Outcome Integer
integer size got xs =
    let consumed = min (length xs) (size - length got) in
    let got' = got ++ take consumed xs in
    if length got' == size
    then outcome parse_success got' (drop consumed xs)
    else outcome parse_need_more got' (drop consumed xs)

-- The bytes in memory order, most significant first.
unfoldable pub big_endian : Bytes → ℕ
big_endian [] = 0
big_endian (b ∷ bs) = b * 256 ^ length bs + big_endian bs

-- `value()`: ntohs, ntohl or __builtin_bswap64 of `__M_result`, a number of type T.
unfoldable pub integer_value : ℕ → Integer → ℕ
unfolding big_endian
integer_value size got = big_endian got % 256 ^ size

-- `byte<Container>`: `__M_target_length` and `__M_result`.
pub record Byte : Type 0 where
  pub target_length : ℕ
  pub result : Bytes

unfoldable pub byte : Byte → Bytes → Outcome Byte
byte p xs =
    let consumed = min (length xs) (p.target_length - length p.result) in
    let p' = record p { result = p.result ++ take consumed xs } in
    if length p'.result == p.target_length
    then outcome parse_success p' (drop consumed xs)
    else outcome parse_need_more p' (drop consumed xs)

-- `strnlen(begin, len)` over the bytes of the range.
unfoldable pub strnlen : Bytes → ℕ
strnlen [] = 0
strnlen (b ∷ bs) = let n = suc (strnlen bs) in if b == 0 then 0 else n

-- `string<Container>`; the container enters by its `insert` at the end.
unfoldable pub string {ℓ} : {C : Type ℓ} → (C → Bytes → C) → C → Bytes → Outcome C
string insert got xs =
    let consumed = strnlen xs in
    let got' = insert got (take consumed xs) in
    if consumed == length xs
    then outcome parse_need_more got' (drop consumed xs)
    else outcome parse_success got' (drop (consumed + 1) xs)

-- `std::string` and `std::vector<unsigned char>` keep what is inserted, `nop_container` its size.
abbrev pub insert_bytes : Bytes → Bytes → Bytes
insert_bytes got xs = got ++ xs

abbrev pub insert_nop : ℕ → Bytes → ℕ
insert_nop sz xs = sz + length xs

-- `integer_array<T>`: the values read, the target, and the parser of the next one.
pub record IntegerArray : Type 0 where
  pub result : List ℕ
  pub target : ℕ
  pub parser : Integer

-- The loop, on the number of values that are still wanted.
integer_array_loop : ℕ → ℕ → IntegerArray → Bytes → Outcome IntegerArray
integer_array_loop zero size p xs = outcome parse_success p xs
integer_array_loop (suc wanted) size p xs = elim (integer size p.parser xs) [
  | outcome parse_success q rest ↦
      integer_array_loop wanted size
        (record p { result = p.result ++ integer_value size q ∷ []; parser = [] }) rest
  | outcome r q rest ↦ outcome r (record p { parser = q }) rest
]

unfoldable pub integer_array : ℕ → IntegerArray → Bytes → Outcome IntegerArray
unfolding integer_array_loop
integer_array size p xs = integer_array_loop (p.target - length p.result) size p xs

-- `integer_to_network`: htons or htonl and memcpy of `size` bytes, most significant first.
unfoldable pub integer_to_network : ℕ → ℕ → Bytes
integer_to_network zero v = []
integer_to_network (suc size) v = (v / 256 ^ size % 256) ∷ integer_to_network size v

-- `string_to_network`: the bytes and a nul.
unfoldable pub string_to_network : Bytes → Bytes
string_to_network s = s ++ 0 ∷ []

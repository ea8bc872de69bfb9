-- ===== src/Mysql/Basic.antt =====
-- include/chx/sql/mysql/detail/packets/basic_types.hpp: the parsers of the wire's basic types,
-- which take their input in pieces.
pub mod RoundTrip
pub mod Terminated
use chxsql.Base.{
  ℕ, ◌+◌, ◌-◌, ◌*◌, ◌%◌, ◌^◌, min, Bytes, [], ◌∷◌, ◌++◌, Option, none, some, length, take, drop,
  ltb, ◌==◌, if◌then◌else◌,
}
use chxsql.Mysql.Result.{
  Parsed, parsed, undefined, then_parsed, payload_success, payload_need_more, payload_malformed,
}

-- `__M_result`, a size_t, and `__M_digits`.
pub record Digits : Type 0 where
  pub result : ℕ
  pub digits : ℕ

abbrev pub no_digits : Digits
no_digits = record { result = 0; digits = 0 }

-- `*(begin++) << (8 * __M_digits++)` as `+=` adds it to a size_t. The byte is promoted to an int of
-- 32 bits: at the fourth byte its upper half gives a negative number, which the size_t extends by
-- its sign, and from the fifth on the shift is undefined.
unfoldable pub shifted : ℕ → ℕ → Option ℕ
shifted b digits =
    if ltb digits 3
    then some (b * 256 ^ digits)
    else if digits == 3
    then some (if ltb b 128 then b * 2 ^ 24 else b * 2 ^ 24 + (2 ^ 64 - 2 ^ 32))
    else none

-- The loop over the bytes consumed.
accumulate : Digits → Bytes → Option Digits
accumulate d [] = some d
accumulate d (b ∷ bs) = elim (shifted b d.digits) [
  | none ↦ none
  | some v ↦ accumulate (record { result = (d.result + v) % 2 ^ 64; digits = d.digits + 1 }) bs
]

-- After the loop.
digits_read : ℕ → Option Digits → Bytes → Parsed Digits
digits_read n none rest = undefined
digits_read n (some d) rest =
    if d.digits == n then parsed payload_success d rest else parsed payload_need_more d rest

-- `fixed_length_integer<N>`.
unfoldable pub fixed_length_integer : ℕ → Digits → Bytes → Parsed Digits
unfolding accumulate digits_read shifted
fixed_length_integer n d xs =
    let consumed = min (length xs) (n - d.digits) in
    digits_read n (accumulate d (take consumed xs)) (drop consumed xs)

-- `length_encoded_integer`.
pub record LengthInteger : Type 0 where
  pub number : Digits
  pub target : ℕ

abbrev pub new_length_integer : LengthInteger
new_length_integer = record { number = no_digits; target = 0 }

-- `__M_target != 0`.
unfoldable pub length_digits : LengthInteger → Bytes → Parsed LengthInteger
unfolding fixed_length_integer
length_digits p xs =
    then_parsed (fixed_length_integer p.target p.number xs) (λ d. record p { number = d })
      (λ d rest. parsed payload_success (record p { number = d }) rest)

-- `__M_target == 0`.
unfoldable pub length_first : LengthInteger → Bytes → Parsed LengthInteger
unfolding length_digits
length_first p [] = parsed payload_need_more p []
length_first p (first_byte ∷ rest) =
    if ltb first_byte 251
    then parsed payload_success
        (record { number = record { result = first_byte; digits = p.number.digits }; target = 0 })
        rest
    else if first_byte == 0xfc
    then length_digits (record p { target = 2 }) rest
    else if first_byte == 0xfd
    then length_digits (record p { target = 3 }) rest
    else if first_byte == 0xfe
    then length_digits (record p { target = 8 }) rest
    else parsed payload_malformed p rest

unfoldable pub length_encoded_integer : LengthInteger → Bytes → Parsed LengthInteger
unfolding length_first
length_encoded_integer p xs = if p.target == 0 then length_first p xs else length_digits p xs

-- What a string parser asks of its Container: `std::string` and `std::vector<unsigned char>` keep
-- what is inserted at their end, `nop_container` its size.
pub record Container : Type 1 where
  pub Held : Type 0
  pub empty : Held
  pub insert : Held → Bytes → Held
  pub size : Held → ℕ

abbrev pub keeping : Container
keeping = record {
  Held = Bytes;
  empty = [];
  insert = λ got xs. got ++ xs;
  size = λ got. length got;
}

abbrev pub nop_container : Container
nop_container = record { Held = ℕ; empty = 0; insert = λ sz xs. sz + length xs; size = λ sz. sz }

module _ (c : Container) where
  -- `fixed_length_string<N, Container>`, and what `variable_length_string` does with its
  -- `__M_target_length`.
  unfoldable pub fixed_length_string : ℕ → c.Held → Bytes → Parsed c.Held
  fixed_length_string n got xs =
      let consumed = min (length xs) (n - c.size got) in
      let got' = c.insert got (take consumed xs) in
      if c.size got' == n
      then parsed payload_success got' (drop consumed xs)
      else parsed payload_need_more got' (drop consumed xs)

  -- `variable_length_string<Container>`.
  pub record VariableString : Type 0 where
    pub target_length : ℕ
    pub held : c.Held

  unfoldable pub variable_length_string : VariableString → Bytes → Parsed VariableString
  unfolding fixed_length_string
  variable_length_string p xs =
      then_parsed (fixed_length_string p.target_length p.held xs) (λ h. record p { held = h })
        (λ h rest. parsed payload_success (record p { held = h }) rest)

  -- `length_encoded_string<Container>`: `__M_str_parser`, or `__M_len_parser` where there is none.
  pub data LengthString : Type 0 where
    len_parser : LengthInteger → LengthString
    str_parser : VariableString → LengthString

  abbrev pub new_length_string : LengthString
  new_length_string = len_parser new_length_integer

  unfoldable pub string_payload : VariableString → Bytes → Parsed LengthString
  unfolding variable_length_string
  string_payload s xs =
      then_parsed (variable_length_string s xs) (λ t. str_parser t)
        (λ t rest. parsed payload_success (str_parser t) rest)

  unfoldable pub length_encoded_string : LengthString → Bytes → Parsed LengthString
  unfolding string_payload length_encoded_integer
  length_encoded_string (len_parser p) xs =
      then_parsed (length_encoded_integer p xs) (λ q. len_parser q)
        (λ q rest. string_payload (record { target_length = q.number.result; held = c.empty }) rest)
  length_encoded_string (str_parser s) xs = string_payload s xs

  -- `value()`: `none` where `__M_str_parser` is empty.
  unfoldable pub string_value : LengthString → Option c.Held
  string_value (len_parser p) = none
  string_value (str_parser s) = some s.held

-- `strnlen(begin, len)` over the bytes of the range.
unfoldable pub strnlen : Bytes → ℕ
strnlen [] = 0
strnlen (b ∷ bs) = let n = 1 + strnlen bs in if b == 0 then 0 else n

-- `null_terminated_string<>`.
unfoldable pub null_terminated_string : Bytes → Bytes → Parsed Bytes
unfolding strnlen
null_terminated_string got xs =
    let consumed = strnlen xs in
    let got' = got ++ take consumed xs in
    if consumed == length xs
    then parsed payload_need_more got' (drop consumed xs)
    else parsed payload_success got' (drop (consumed + 1) xs)

-- ===== src/Mysql/Basic/RoundTrip.antt =====
-- The parsers of basic_types.hpp on what the writers of length_encoded.hpp and fixed_integer.hpp
-- write.
use chxsql.Base.{
  ℕ, zero, suc, ◌+◌, ◌-◌, ◌*◌, ◌/◌, ◌%◌, ◌^◌, ◌≤◌, ◌<◌, min, Bytes, [], ◌∷◌, ◌++◌, ◌≡◌, refl, ap,
  ◌∙◌, true, false, some, arith, length, length-append, take-append_add, drop-append_add,
  append-nil, append_assoc, ltb, ◌==◌, ==_iff, if◌then◌else◌, Bool-cases, inl, inr, lt→ltb,
}
use chxsql.Mysql.Basic.{
  Digits, no_digits, accumulate, digits_read, fixed_length_integer, LengthInteger,
  new_length_integer, length_digits, length_first, length_encoded_integer, Container, keeping,
  nop_container, fixed_length_string, variable_length_string, len_parser, str_parser,
  new_length_string, string_payload, length_encoded_string, shifted,
}
use chxsql.Mysql.Encode.{
  fixed_length_integer_to_network, lenenc_integer, lenenc_str, lenenc_int_bound, lenenc_str_bound,
}
use chxsql.Mysql.Result.{Parsed, parsed, undefined, then_parsed, payload_success}

abbrev pub digits_of : ℕ → ℕ → Digits
digits_of v n = record { result = v; digits = n }

pub length-to_network : (n v : ℕ) → length (fixed_length_integer_to_network n v) ≡ n
unfolding fixed_length_integer_to_network
length-to_network zero v = refl
length-to_network (suc n) v = ap suc (length-to_network n (v / 256))

taken_whole :
    (n : ℕ) (bs rest : Bytes)
    → length bs ≡ n
    → fixed_length_integer n no_digits (bs ++ rest) ≡ digits_read n (accumulate no_digits bs) rest
unfolding fixed_length_integer
taken_whole n bs rest h =
    let e : min (length (bs ++ rest)) (n - 0) ≡ length bs + 0 =
      omega (arith, length-append bs rest, h) in
    rw (e, take-append_add, drop-append_add, append-nil)

one_byte : (a : ℕ) → a < 256 → accumulate no_digits (a ∷ []) ≡ some (digits_of a 1)
unfolding accumulate shifted
one_byte a h = ap (λ (r : ℕ). some (digits_of r 1)) (omega arith)

two_bytes :
    (a b v : ℕ)
    → a < 256
    → b < 256
    → v ≡ a + 256 * b
    → accumulate no_digits (a ∷ b ∷ []) ≡ some (digits_of v 2)
unfolding accumulate shifted
two_bytes a b v h k e = ap (λ (r : ℕ). some (digits_of r 2)) (omega arith)

three_bytes :
    (a b c v : ℕ)
    → a < 256
    → b < 256
    → c < 256
    → v ≡ a + 256 * b + 65536 * c
    → accumulate no_digits (a ∷ b ∷ c ∷ []) ≡ some (digits_of v 3)
unfolding accumulate shifted
three_bytes a b c v h k l e = ap (λ (r : ℕ). some (digits_of r 3)) (omega arith)

-- What four bytes give: the sign of an int is extended.
abbrev pub sign_extended : ℕ → ℕ
sign_extended v = if ltb v (2 ^ 31) then v else v + (2 ^ 64 - 2 ^ 32)

-- A uint32_t drops the sign that was extended.
pub sign_dropped : (v : ℕ) → v < 2 ^ 32 → sign_extended v % 2 ^ 32 ≡ v
sign_dropped v h = ground arith

four_bytes :
    (a b c d v : ℕ)
    → a < 256
    → b < 256
    → c < 256
    → d < 256
    → v ≡ a + 256 * b + 65536 * c + 16777216 * d
    → accumulate no_digits (a ∷ b ∷ c ∷ d ∷ []) ≡ some (digits_of (sign_extended v) 4)
unfolding accumulate shifted
four_bytes a b c d v h k l m e = ap (λ (r : ℕ). some (digits_of r 4)) (ground arith)

pub read_one :
    (v : ℕ) (rest : Bytes)
    → v < 256
    → fixed_length_integer 1 no_digits (v ∷ rest) ≡ parsed payload_success (digits_of v 1) rest
unfolding digits_read
read_one v rest h = taken_whole 1 (v ∷ []) rest refl ∙ rw (one_byte v h) refl

pub read_two :
    (v : ℕ) (rest : Bytes)
    → v < 2 ^ 16
    → fixed_length_integer 2 no_digits (fixed_length_integer_to_network 2 v ++ rest)
      ≡ parsed payload_success (digits_of v 2) rest
unfolding digits_read fixed_length_integer_to_network
read_two v rest h =
    taken_whole 2 (fixed_length_integer_to_network 2 v) rest refl
    ∙ rw (two_bytes (v % 256) (v / 256 % 256) v (omega arith) (omega arith) (omega arith)) refl

pub read_three :
    (v : ℕ) (rest : Bytes)
    → v < 2 ^ 24
    → fixed_length_integer 3 no_digits (fixed_length_integer_to_network 3 v ++ rest)
      ≡ parsed payload_success (digits_of v 3) rest
unfolding digits_read fixed_length_integer_to_network
read_three v rest h =
    taken_whole 3 (fixed_length_integer_to_network 3 v) rest refl
    ∙ rw
        (three_bytes (v % 256) (v / 256 % 256) (v / 256 / 256 % 256) v (omega arith) (omega arith)
          (omega arith) (omega arith))
        refl

-- A 4-byte integer is read with the sign of an int extended to 64 bits, so it is the number that
-- was written where that is below 2 ^ 31.
pub fixed_length_integer-to_network4 :
    (v : ℕ) (rest : Bytes)
    → v < 2 ^ 32
    → fixed_length_integer 4 no_digits (fixed_length_integer_to_network 4 v ++ rest)
      ≡ parsed payload_success (digits_of (sign_extended v) 4) rest
unfolding digits_read fixed_length_integer_to_network
fixed_length_integer-to_network4 v rest h =
    taken_whole 4 (fixed_length_integer_to_network 4 v) rest refl
    ∙ rw
        (four_bytes (v % 256) (v / 256 % 256) (v / 256 / 256 % 256) (v / 256 / 256 / 256 % 256) v
          (omega arith) (omega arith) (omega arith) (omega arith) (omega arith))
        refl

abbrev wide : ℕ → LengthInteger
wide t = record { number = no_digits; target = t }

-- The parser of the digits goes as the one of a fixed length does.
digits_parsed :
    (t : ℕ) (xs : Bytes) (o : Parsed Digits)
    → fixed_length_integer t no_digits xs ≡ o
    → length_digits (wide t) xs
      ≡ then_parsed o
          (λ d. record { number = d; target = t })
          (λ d rest. parsed payload_success (record { number = d; target = t }) rest)
unfolding length_digits
digits_parsed t xs o e = rw e refl

-- The parser after a number below 2 ^ 24: one byte leaves no target.
abbrev pub length_read : ℕ → LengthInteger
length_read n =
    if ltb n 251
    then record { number = digits_of n 0; target = 0 }
    else if ltb n (2 ^ 16)
    then record { number = digits_of n 2; target = 2 }
    else record { number = digits_of n 3; target = 3 }

pub length_read_value : (n : ℕ) → (length_read n).number.result ≡ n
length_read_value n = ground arith

-- length_encoded_integer reads back the number below 2 ^ 24 that lenenc_integer writes, whatever
-- follows.
pub length_encoded_integer-lenenc :
    (n : ℕ) (rest : Bytes)
    → n < 2 ^ 24
    → length_encoded_integer new_length_integer (lenenc_integer n ++ rest)
      ≡ parsed payload_success (length_read n) rest
unfolding length_encoded_integer length_first lenenc_integer length_digits
length_encoded_integer-lenenc n rest h = elim (Bool-cases (ltb n 251)) [
  | inl one ↦ rw (one, ◌++◌) (rw one refl)
  | inr more ↦ elim (Bool-cases (ltb n (2 ^ 16))) [
    | inl two ↦
        rw (more, two)
          (digits_parsed 2 (fixed_length_integer_to_network 2 n ++ rest) _
            (read_two n rest (ground arith)))
    | inr three ↦
        rw (more, three, lt→ltb n (2 ^ 24) h)
          (digits_parsed 3 (fixed_length_integer_to_network 3 n ++ rest) _ (read_three n rest h))
  ]
]

-- From 2 ^ 24 on, lenenc_integer writes eight bytes, of which the parser shifts the fifth by the
-- width of an int: its behaviour is undefined.
pub length_encoded_integer-large :
    (n : ℕ) (rest : Bytes)
    → 2 ^ 24 ≤ n
    → length_encoded_integer new_length_integer (lenenc_integer n ++ rest) ≡ undefined
unfolding length_encoded_integer length_first lenenc_integer length_digits digits_read accumulate
    shifted fixed_length_integer_to_network
length_encoded_integer-large n rest h =
    let a : ltb n 251 ≡ false = ground arith in
    let b : ltb n (2 ^ 16) ≡ false = ground arith in
    let c : ltb n (2 ^ 24) ≡ false = ground arith in
    rw (a, b, c)
      (digits_parsed 8 (fixed_length_integer_to_network 8 n ++ rest) undefined
        (taken_whole 8 (fixed_length_integer_to_network 8 n) rest refl))

-- lenenc_str writes as many bytes as lenenc_str_bound says.
pub length-lenenc_str : (s : Bytes) → length (lenenc_str s) ≡ lenenc_str_bound s
unfolding lenenc_str lenenc_str_bound lenenc_int_bound lenenc_integer
length-lenenc_str s =
    length-append (lenenc_integer (length s)) s ∙ ap (λ (k : ℕ). k + length s) (go (length s))
  where
    go : (n : ℕ) → length (lenenc_integer n) ≡ lenenc_int_bound n
    go n = ground (arith, length-to_network 2 n, length-to_network 3 n, length-to_network 8 n)

-- What a container owes the string parsers.
pub record IsContainer (c : Container) : Type 0 where
  pub starts : c.size c.empty ≡ 0
  pub counts : (bs : Bytes) → c.size (c.insert c.empty bs) ≡ length bs

pub keeping-IsContainer : IsContainer keeping
keeping-IsContainer = record { starts = refl; counts = λ bs. refl }

pub nop_container-IsContainer : IsContainer nop_container
nop_container-IsContainer = record { starts = refl; counts = λ bs. omega arith }

module _ (c : Container) (law : IsContainer c) where
  pub fixed_length_string_reads :
      (s rest : Bytes)
      → fixed_length_string c (length s) c.empty (s ++ rest)
        ≡ parsed payload_success (c.insert c.empty s) rest
  unfolding fixed_length_string
  fixed_length_string_reads s rest =
      let e : min (length (s ++ rest)) (length s - c.size c.empty) ≡ length s + 0 =
        omega (arith, length-append s rest, law.starts) in
      let full : (c.size (c.insert c.empty s) == length s) ≡ true = (==_iff _ _).1 (law.counts s) in
      rw (e, take-append_add, drop-append_add, append-nil, full)

  payload_reads :
      (n : ℕ) (s rest : Bytes)
      → n ≡ length s
      → string_payload c (record { target_length = n; held = c.empty }) (s ++ rest)
        ≡ parsed payload_success
            (str_parser (record { target_length = length s; held = c.insert c.empty s }))
            rest
  unfolding string_payload variable_length_string
  payload_reads n s rest e =
      ap (λ (k : ℕ). string_payload c (record { target_length = k; held = c.empty }) (s ++ rest)) e
      ∙ rw (fixed_length_string_reads s rest) refl

  -- length_encoded_string reads back the string that lenenc_str writes, whatever follows.
  pub length_encoded_string-lenenc :
      (s rest : Bytes)
      → length s < 2 ^ 24
      → length_encoded_string c (new_length_string c) (lenenc_str s ++ rest)
        ≡ parsed payload_success
            (str_parser (record { target_length = length s; held = c.insert c.empty s }))
            rest
  unfolding length_encoded_string lenenc_str
  length_encoded_string-lenenc s rest h =
      let sized : length_encoded_integer new_length_integer (lenenc_str s ++ rest)
          ≡ parsed payload_success (length_read (length s)) (s ++ rest) =
        ap (length_encoded_integer new_length_integer)
          (append_assoc (lenenc_integer (length s)) s rest)
        ∙ length_encoded_integer-lenenc (length s) (s ++ rest) h in
      ap
        (λ o.
          then_parsed o (λ q. len_parser q)
            (λ q zs.
              string_payload c (record { target_length = q.number.result; held = c.empty }) zs))
        sized
      ∙ payload_reads (length_read (length s)).number.result s rest (length_read_value (length s))

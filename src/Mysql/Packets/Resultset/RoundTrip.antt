-- ===== src/Mysql/Packets/Resultset/RoundTrip.antt =====
-- The layout of a row of text values, and its parser.
use chxsql.Base.{
  ℕ, suc, ◌-◌, ◌^◌, ◌<◌, Bytes, List, [], ◌∷◌, ◌++◌, ◌≡◌, refl, sym, ap, ◌∙◌, false, Option, none,
  some, arith, length, append-nil, append_assoc, ltb, ◌==◌, Bool-cases, inl, inr, lt→ltb,
}
use chxsql.Mysql.Basic.RoundTrip.{length_encoded_string-lenenc, keeping-IsContainer}
use chxsql.Mysql.Basic.{
  keeping, no_digits, fixed_length_integer, fixed_length_string, length_encoded_integer,
  new_length_integer, string_value,
}
use chxsql.Mysql.Encode.{fixed_length_integer_to_network, lenenc_integer, lenenc_str}
use chxsql.Mysql.Packets.Resultset.{
  guess, row_at, new_row, lnc_str_case, guess_case, row_column, row_columns, row_parser,
  value_added,
}
use chxsql.Mysql.Result.{parsed, payload_success}

-- A value of a row: a NULL, or a text.
abbrev pub encode_value : Option Bytes → Bytes
encode_value none = 0xfb ∷ []
encode_value (some s) = lenenc_str s

abbrev pub encode_row : List (Option Bytes) → Bytes
encode_row [] = []
encode_row (v ∷ vs) = encode_value v ++ encode_row vs

-- A text is short enough for the parser of its length.
abbrev pub ShortValue : Option Bytes → Type 0
ShortValue none = Unit
ShortValue (some s) = length s < 2 ^ 24

abbrev pub ShortRow : List (Option Bytes) → Type 0
ShortRow [] = Unit
ShortRow (v ∷ vs) = ShortValue v × ShortRow vs

-- No text begins like a NULL.
lenenc_str_first :
    (s : Bytes) → (b : ℕ) × (bs : Bytes) × (lenenc_str s ≡ b ∷ bs) × ((b == 0xfb) ≡ false)
unfolding lenenc_str lenenc_integer
lenenc_str_first s = elim (Bool-cases (ltb (length s) 251)) [
  | inl one ↦ (length s, s, rw one refl, ground arith)
  | inr more ↦ elim (Bool-cases (ltb (length s) (2 ^ 16))) [
    | inl two ↦ (0xfc, fixed_length_integer_to_network 2 (length s) ++ s, rw (more, two) refl, refl)
    | inr three ↦ elim (Bool-cases (ltb (length s) (2 ^ 24))) [
      | inl e ↦
          (0xfd, fixed_length_integer_to_network 3 (length s) ++ s, rw (more, three, e) refl, refl)
      | inr e ↦
          (0xfe, fixed_length_integer_to_network 8 (length s) ++ s, rw (more, three, e) refl, refl)
    ]
  ]
]

-- A text below 2 ^ 24 bytes begins like no ERR and no OK packet.
text_start :
    (s : Bytes)
    → length s < 2 ^ 24
    → (b : ℕ) × (bs : Bytes) × (lenenc_str s ≡ b ∷ bs)
      × ((b == 0xff) ≡ false)
      × ((b == 0xfe) ≡ false)
unfolding lenenc_str lenenc_integer
text_start s h = elim (Bool-cases (ltb (length s) 251)) [
  | inl one ↦ (length s, s, rw one refl, ground arith, ground arith)
  | inr more ↦ elim (Bool-cases (ltb (length s) (2 ^ 16))) [
    | inl two ↦
        (0xfc, fixed_length_integer_to_network 2 (length s) ++ s, rw (more, two) refl, refl, refl)
    | inr three ↦ (
      0xfd,
      fixed_length_integer_to_network 3 (length s) ++ s,
      rw (more, three, lt→ltb (length s) (2 ^ 24) h) refl,
      refl,
      refl,
    )
  ]
]

-- Nor does a row that has a value.
pub row_start :
    (v : Option Bytes) (vs : List (Option Bytes))
    → ShortValue v
    → (b : ℕ) × (bs : Bytes) × (encode_row (v ∷ vs) ≡ b ∷ bs)
      × ((b == 0xff) ≡ false)
      × ((b == 0xfe) ≡ false)
row_start none vs h = (0xfb, encode_row vs, refl, refl, refl)
row_start (some s) vs h =
    let t = text_start s h in
    (t.0, t.1 ++ encode_row vs, ap (λ (xs : Bytes). xs ++ encode_row vs) t.2, t.3, t.4)

text_read :
    (cs : List (Option Bytes)) (s rest : Bytes)
    → length s < 2 ^ 24
    → guess_case cs (lenenc_str s ++ rest)
      ≡ parsed payload_success (row_at guess (cs ++ some s ∷ [])) rest
unfolding guess_case lnc_str_case value_added string_value
text_read cs s rest h =
    let f = lenenc_str_first s in
    let started : guess_case cs (lenenc_str s ++ rest)
        ≡ lnc_str_case cs (chxsql.Mysql.Basic.new_length_string keeping) (lenenc_str s ++ rest) =
      rw f.2 (rw f.3 refl) in
    started ∙ rw (length_encoded_string-lenenc keeping keeping-IsContainer s rest h) refl

value_read :
    (cs : List (Option Bytes)) (v : Option Bytes) (rest : Bytes)
    → ShortValue v
    → row_column (row_at guess cs) (encode_value v ++ rest)
      ≡ parsed payload_success (row_at guess (cs ++ v ∷ [])) rest
unfolding row_column guess_case
value_read cs none rest h = refl
value_read cs (some s) rest h = text_read cs s rest h

columns_read :
    (cs vs : List (Option Bytes)) (rest : Bytes)
    → ShortRow vs
    → row_columns (length vs) (row_at guess cs) (encode_row vs ++ rest)
      ≡ parsed payload_success (row_at guess (cs ++ vs)) rest
unfolding row_columns
columns_read cs [] rest h =
    ap (λ (r : List (Option Bytes)). parsed payload_success (row_at guess r) rest)
      (sym (append-nil cs))
columns_read cs (v ∷ vs) rest h =
    let joined : (cs ++ v ∷ []) ++ vs ≡ cs ++ v ∷ vs = append_assoc cs (v ∷ []) vs in
    ap (row_columns (suc (length vs)) (row_at guess cs))
      (append_assoc (encode_value v) (encode_row vs) rest)
    ∙ rw (value_read cs v (encode_row vs ++ rest) h.0, row_columns)
        (columns_read (cs ++ v ∷ []) vs rest h.1)
    ∙ ap (λ (r : List (Option Bytes)). parsed payload_success (row_at guess r) rest) joined

-- A row of texts below 2 ^ 24 bytes and NULLs is read back, whatever follows.
pub row_parser-encode :
    (vs : List (Option Bytes)) (rest : Bytes)
    → ShortRow vs
    → row_parser (length vs) new_row (encode_row vs ++ rest)
      ≡ parsed payload_success (row_at guess vs) rest
unfolding row_parser
row_parser-encode vs rest h =
    let e : length vs - 0 ≡ length vs = omega arith in rw e (columns_read [] vs rest h)

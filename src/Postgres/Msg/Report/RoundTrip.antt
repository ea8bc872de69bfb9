-- ===== src/Postgres/Msg/Report/RoundTrip.antt =====
-- An ErrorResponse in the layout of the protocol is read to its end, and its SQLSTATE is kept.
use mathlib.Core.Path.{subst}
use chxsql.Base.{
  NoNul, AllBytes, ℕ, zero, suc, ◌+◌, ◌-◌, ◌*◌, ◌<◌, ◌≢◌, Bytes, List, [], ◌∷◌, ◌++◌, ◌≡◌, refl,
  sym, ap, ◌∙◌, arith, length, length-append, append_assoc, take-append_add, append-nil, false,
  ◌==◌, if◌then◌else◌, Bool-cases, inl, inr, ==_iff,
}
use chxsql.Postgres.Outcome.{parse_success, outcome, verdict, make_success}
use chxsql.Postgres.Basic.{IntegerArray, integer_array, string, insert_nop}
use chxsql.Postgres.Basic.RoundTrip.{chars_read, string-to_network}
use chxsql.Postgres.ErrorCode.Values.{Errc}
use chxsql.Postgres.ErrorCode.{sqlstate_to_errc}
use chxsql.Postgres.Msg.Report.{
  field_type, sqlstate, skipped, six, error_field_turn, sqlstate_turn, skip_turn, error_turn,
  error_response_body, new_error,
}
use chxsql.Postgres.Turn.{again, body, body_loop}
use chxsql.Postgres.Turn.Loop.{body_loop_again, body_loop_stop}

-- A field of the message: its type and its text.
abbrev pub Field : Type 0
Field = ℕ × Bytes

-- The layout of the body: each field ends with a nul, and the fields with another.
abbrev pub encode_fields : List Field → Bytes
encode_fields [] = 0 ∷ []
encode_fields ((type, text) ∷ fields) = type ∷ (text ++ 0 ∷ encode_fields fields)

-- The code of the last C field, or the one given.
abbrev pub last_code : Errc → List Field → Errc
last_code e [] = e
last_code e ((type, text) ∷ fields) =
    last_code (if type == b'C' then sqlstate_to_errc text else e) fields

-- A type is no nul, a text has none, and an SQLSTATE has five characters.
abbrev pub ValidField : Field → Type 0
ValidField (type, text) =
    (type ≢ 0) × NoNul text × (type ≡ b'C' → (length text ≡ 5) × AllBytes text)

abbrev pub AllValid : List Field → Type 0
AllValid [] = Unit
AllValid (f ∷ fields) = ValidField f × AllValid fields

AllBytes-close : (bs : Bytes) → AllBytes bs → AllBytes (bs ++ 0 ∷ [])
AllBytes-close [] h = (omega arith, tt)
AllBytes-close (b ∷ bs) h = (h.0, AllBytes-close bs h.1)

six_read :
    (text rest : Bytes)
    → length text ≡ 5
    → AllBytes text
    → integer_array 1 six (text ++ 0 ∷ rest)
      ≡ outcome parse_success (record { result = text ++ 0 ∷ []; target = 6; parser = [] }) rest
six_read text rest h a =
    let n : length (text ++ 0 ∷ []) ≡ 6 = rw (length-append, h) refl in
    let read = chars_read (text ++ 0 ∷ []) rest (AllBytes-close text a) in
    ap (λ (xs : Bytes). integer_array 1 six xs) (sym (append_assoc text (0 ∷ []) rest))
    ∙ subst
        (λ (k : ℕ).
          integer_array 1 (record { result = []; target = k; parser = [] })
            ((text ++ 0 ∷ []) ++ rest)
          ≡ outcome parse_success (record { result = text ++ 0 ∷ []; target = k; parser = [] })
              rest)
        n read

code_turn :
    (e : Errc) (text rest : Bytes)
    → length text ≡ 5
    → AllBytes text
    → error_turn (record { ec = e; parsers = sqlstate six }) (text ++ 0 ∷ rest)
      ≡ again (record { ec = sqlstate_to_errc text; parsers = field_type }) rest
unfolding error_turn sqlstate_turn
code_turn e text rest h a =
    let n : length (text ++ 0 ∷ []) - 1 ≡ length text + 0 =
      omega (arith, length-append text (0 ∷ [])) in
    rw (six_read text rest h a, n, take-append_add, append-nil)

text_turn :
    (e : Errc) (text rest : Bytes)
    → NoNul text
    → error_turn (record { ec = e; parsers = skipped 0 }) (text ++ 0 ∷ rest)
      ≡ again (record { ec = e; parsers = field_type }) rest
unfolding error_turn skip_turn chxsql.Postgres.Basic.string_to_network
text_turn e text rest h =
    let read : string insert_nop 0 (text ++ 0 ∷ rest)
        ≡ outcome parse_success (insert_nop 0 text) rest =
      ap (string insert_nop 0) (sym (append_assoc text (0 ∷ []) rest))
      ∙ string-to_network insert_nop 0 text rest h in
    rw (read, skip_turn)

-- Choosing the parser of a field, and running it.
field_loop :
    (k : ℕ) (e : Errc) (type : ℕ) (text rest : Bytes)
    → ValidField (type, text)
    → body_loop error_turn
        (suc (suc k))
        (record { ec = e; parsers = field_type })
        (type ∷ (text ++ 0 ∷ rest))
      ≡ body_loop error_turn k
          (record { ec = if type == b'C' then sqlstate_to_errc text else e; parsers = field_type })
          rest
unfolding error_turn error_field_turn
field_loop k e type text rest h = elim (Bool-cases (type == b'C')) [
  | inl c ↦
      let code = h.2 ((==_iff type b'C').0 c) in
      body_loop_again error_turn (suc k) (record { ec = e; parsers = field_type })
        (type ∷ (text ++ 0 ∷ rest)) (rw c)
      ∙ body_loop_again error_turn k (record { ec = e; parsers = sqlstate six }) (text ++ 0 ∷ rest)
          (code_turn e text rest code.0 code.1)
      ∙ rw c
  | inr c ↦
      let z : (type == 0) ≡ false = ground (arith, h.0) in
      body_loop_again error_turn (suc k) (record { ec = e; parsers = field_type })
        (type ∷ (text ++ 0 ∷ rest)) (rw (c, z))
      ∙ body_loop_again error_turn k (record { ec = e; parsers = skipped 0 }) (text ++ 0 ∷ rest)
          (text_turn e text rest h.1)
      ∙ rw c
]

fields_loop :
    (k : ℕ) (e : Errc) (fields : List Field)
    → AllValid fields
    → 2 * length fields < k
    → body_loop error_turn k (record { ec = e; parsers = field_type }) (encode_fields fields)
      ≡ verdict parse_success (record { ec = last_code e fields; parsers = field_type })
unfolding error_turn error_field_turn
fields_loop zero e fields v h = absurd (omega arith)
fields_loop (suc k) e [] v h = body_loop_stop error_turn k _ (0 ∷ []) (unfold make_success in refl)
fields_loop (suc zero) e (f ∷ fields) v h = absurd (omega arith)
fields_loop (suc (suc k)) e ((type, text) ∷ fields) v h =
    field_loop k e type text (encode_fields fields) v.0
    ∙ fields_loop k (if type == b'C' then sqlstate_to_errc text else e) fields v.1 (omega arith)

fields_size : (fields : List Field) → 2 * length fields < length (encode_fields fields)
fields_size [] = omega arith
fields_size ((type, text) ∷ fields) =
    omega (arith, fields_size fields, length-append text (0 ∷ encode_fields fields))

-- An ErrorResponse whose fields are laid out by the protocol is accepted to its last byte, and its
-- code is that of its last C field, or success where there is none. No type is a nul, no text has
-- one, and an SQLSTATE has five characters.
pub error_response_body-encode :
    (fields : List Field)
    → AllValid fields
    → error_response_body new_error (encode_fields fields)
      ≡ verdict parse_success
          (record { ec = last_code Errc.successful_completion fields; parsers = field_type })
unfolding error_response_body body
error_response_body-encode fields v =
    fields_loop (suc (length (encode_fields fields))) Errc.successful_completion fields v
      (omega (arith, fields_size fields))

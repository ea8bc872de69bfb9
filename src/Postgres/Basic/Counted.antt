-- ===== src/Postgres/Basic/Counted.antt =====
-- `integer` and `byte` of basic_type.hpp do not see how their input is cut into pieces.
use chxsql.Base.{
  ℕ, ◌+◌, ◌-◌, ◌≤◌, ◌<◌, min, Bytes, [], ◌++◌, ◌≡◌, refl, sym, ap, ◌∙◌, inl, inr, true, false,
  arith, length, take, drop, length-append, take_all, drop_all, length-take, length-drop,
  take-append_le, drop-append_le, take-append_add, drop-append_add, append_assoc, ◌==◌, ==_iff,
  Bool-cases,
}
use native.Mathlib.Decide.{dec_le}
use chxsql.Postgres.Outcome.{
  parse_success, parse_need_more, Outcome, outcome, outcome_rest, resume, Waits, Streams,
}
use chxsql.Postgres.Basic.{Integer, integer, Byte, byte}

take-min : (n : ℕ) (xs : Bytes) → take (min (length xs) n) xs ≡ take n xs
take-min n xs = elim (dec_le n (length xs)) [
  | yes h ↦ ap (λ (k : ℕ). take k xs) (omega arith)
  | no h ↦
      ap (λ (k : ℕ). take k xs) (omega arith)
      ∙ take_all (length xs) xs (omega arith)
      ∙ sym (take_all n xs (omega arith))
]

drop-min : (n : ℕ) (xs : Bytes) → drop (min (length xs) n) xs ≡ drop n xs
drop-min n xs = elim (dec_le n (length xs)) [
  | yes h ↦ ap (λ (k : ℕ). drop k xs) (omega arith)
  | no h ↦
      ap (λ (k : ℕ). drop k xs) (omega arith)
      ∙ drop_all (length xs) xs (omega arith)
      ∙ sym (drop_all n xs (omega arith))
]

pub integer_enough :
    (size : ℕ) (got xs : Bytes)
    → length got ≤ size
    → size - length got ≤ length xs
    → integer size got xs
      ≡ outcome parse_success (got ++ take (size - length got) xs) (drop (size - length got) xs)
unfolding integer
integer_enough size got xs h k =
    let full : (length (got ++ take (size - length got) xs) == size) ≡ true =
      (==_iff _ _).1 (rw (length-append, length-take) (omega arith)) in
    simp (take-min, drop-min, full)

pub integer_short :
    (size : ℕ) (got xs : Bytes)
    → length got + length xs < size
    → integer size got xs ≡ outcome parse_need_more (got ++ xs) []
unfolding integer
integer_short size got xs h =
    let all = take_all (size - length got) xs (omega arith) in
    let none_left = drop_all (size - length got) xs (omega arith) in
    let short : (length (got ++ xs) == size) ≡ false = ground (arith, length-append got xs) in
    simp (take-min, drop-min, all, none_left, short)

integer-resumes :
    (size : ℕ) (got xs ys : Bytes)
    → length got < size
    → integer size got (xs ++ ys) ≡ resume (integer size) (integer size got xs) ys
integer-resumes size got xs ys h = elim (dec_le (size - length got) (length xs)) [
  | yes k ↦ rw (
    integer_enough size got xs (omega arith) k,
    integer_enough size got (xs ++ ys) (omega arith) (rw length-append (omega arith)),
    take-append_le _ xs ys k,
    drop-append_le _ xs ys k,
  )
  | no k ↦
      rw (integer_short size got xs (omega arith))
        (elim (dec_le (size - length got) (length (xs ++ ys))) [
          | yes e ↦
              let m : size - length got ≡ length xs + (size - length (got ++ xs)) =
                rw length-append (omega arith) in
              let e' : size - length got ≤ length xs + length ys = rw length-append at e in
              rw (
                integer_enough size got (xs ++ ys) (omega arith) e,
                integer_enough size (got ++ xs) ys (rw length-append (omega arith))
                    (rw length-append (omega arith)),
                m,
                take-append_add,
                drop-append_add,
                append_assoc,
              )
          | no e ↦
              let e' : length xs + length ys < size - length got =
                rw (← length-append xs ys) (omega arith) in
              rw (
                integer_short size got (xs ++ ys) (rw length-append (omega arith)),
                integer_short size (got ++ xs) ys (rw length-append (omega arith)),
                append_assoc,
              )
        ])
]

integer-Waits :
    (size : ℕ) (got xs : Bytes)
    → length got < size
    → Waits (λ g. length g < size) (integer size got xs)
integer-Waits size got xs h = elim (dec_le (size - length got) (length xs)) [
  | yes k ↦ rw (integer_enough size got xs (omega arith) k) tt
  | no k ↦ rw (integer_short size got xs (omega arith)) (rw length-append (omega arith))
]

integer-consumes :
    (size : ℕ) (got got' xs rest : Bytes)
    → length got < size
    → integer size got xs ≡ outcome parse_success got' rest
    → length rest < length xs
integer-consumes size got got' xs rest h e = elim (dec_le (size - length got) (length xs)) [
  | yes k ↦
      let r : drop (size - length got) xs ≡ rest =
        ap outcome_rest (sym (integer_enough size got xs (omega arith) k) ∙ e) in
      rw (← r, length-drop) (omega arith)
  | no k ↦ cc (integer_short size got xs (omega arith))
]

-- From every state that lacks a byte, integer gives the same answer however its input is cut,
-- lacks a byte while it waits, and a success has consumed input.
pub integer-Streams : (size : ℕ) → Streams (λ got. length got < size) (integer size)
integer-Streams size = record {
  resumes = integer-resumes size;
  waits = integer-Waits size;
  consumes = integer-consumes size;
}

abbrev pub into_byte : Byte → Outcome Integer → Outcome Byte
into_byte p (outcome r got rest) = outcome r (record p { result = got }) rest

pub byte-integer :
    (p : Byte) (xs : Bytes) → byte p xs ≡ into_byte p (integer p.target_length p.result xs)
unfolding byte integer
byte-integer p xs =
    let n = min (length xs) (p.target_length - length p.result) in
    elim (Bool-cases (length (p.result ++ take n xs) == p.target_length)) [
      | inl e ↦ rw e
      | inr e ↦ rw e
    ]

resume-into_byte :
    (p : Byte) (o : Outcome Integer) (ys : Bytes)
    → into_byte p (resume (integer p.target_length) o ys) ≡ resume byte (into_byte p o) ys
resume-into_byte p (outcome parse_need_more s rest) ys =
    sym (byte-integer (record p { result = s }) ys)
resume-into_byte p (outcome _ s rest) ys = refl

-- A byte string that still lacks something.
abbrev pub Lacks : Byte → Type 0
Lacks p = length p.result < p.target_length

byte-resumes : (p : Byte) (xs ys : Bytes) → Lacks p → byte p (xs ++ ys) ≡ resume byte (byte p xs) ys
byte-resumes p xs ys h =
    byte-integer p (xs ++ ys)
    ∙ ap (into_byte p) (integer-resumes p.target_length p.result xs ys h)
    ∙ resume-into_byte p (integer p.target_length p.result xs) ys
    ∙ ap (λ o. resume byte o ys) (sym (byte-integer p xs))

byte-Waits : (p : Byte) (xs : Bytes) → Lacks p → Waits Lacks (byte p xs)
byte-Waits p xs h =
    rw byte-integer (go (integer p.target_length p.result xs) (integer-Waits _ _ xs h))
  where
    go :
        (o : Outcome Integer)
        → Waits (λ g. length g < p.target_length) o
        → Waits Lacks (into_byte p o)
    go (outcome parse_need_more s rest) w = w
    go (outcome _ s rest) w = tt

byte-consumes :
    (p p' : Byte) (xs rest : Bytes)
    → Lacks p
    → byte p xs ≡ outcome parse_success p' rest
    → length rest < length xs
byte-consumes p p' xs rest h e =
    go (integer p.target_length p.result xs) refl (sym (byte-integer p xs) ∙ e)
  where
    go :
        (o : Outcome Integer)
        → integer p.target_length p.result xs ≡ o
        → into_byte p o ≡ outcome parse_success p' rest
        → length rest < length xs
    go (outcome r s rest') q e' =
        integer-consumes p.target_length p.result s xs rest h (ground (arith, q, e'))

-- From every state that lacks a byte, byte gives the same answer however its input is cut, lacks a
-- byte while it waits, and a success has consumed input.
pub byte-Streams : Streams Lacks byte
byte-Streams = record { resumes = byte-resumes; waits = byte-Waits; consumes = byte-consumes }

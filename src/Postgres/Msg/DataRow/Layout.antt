-- ===== src/Postgres/Msg/DataRow/Layout.antt =====
-- The body of a DataRow as the protocol lays it out, and what one turn makes of a value of it.
use chxsql.Base.{
  ℕ, suc, ◌+◌, ◌%◌, ◌^◌, ◌<◌, Bytes, [], ◌∷◌, ◌++◌, ◌≡◌, refl, ap, ◌∙◌, arith, Option, none, some,
  length, length-append, append_assoc, ltb, leb, ◌==◌, true, false,
}
use chxsql.Postgres.Basic.RoundTrip.{integer-to_network, integer_value-to_network32, byte_reads}
use chxsql.Postgres.Basic.{integer_to_network}
use chxsql.Postgres.Msg.DataRow.{
  ValueState, len, value, Values, at, store_value, value_turn, store_null, null_len, len_turn,
}
use chxsql.Postgres.Outcome.{Verdict, verdict, parse_success, make_success}
use chxsql.Postgres.Rows.{Row, modify}
use chxsql.Postgres.Turn.{again, stop}

-- The layout of a value, a length and the bytes, or the length -1 for NULL.
abbrev pub encode_value : Option Bytes → Bytes
encode_value none = integer_to_network 4 null_len
encode_value (some bs) = integer_to_network 4 (length bs) ++ bs

abbrev pub encode_values : Row → Bytes
encode_values [] = []
encode_values (v ∷ vs) = encode_value v ++ encode_values vs

-- The body of a DataRow: the number of values and the values.
abbrev pub encode_row : Row → Bytes
encode_row vs = integer_to_network 2 (length vs) ++ encode_values vs

-- Every value is short enough for its length.
abbrev pub Sized : Row → Type 0
Sized [] = Unit
Sized (none ∷ vs) = Sized vs
Sized (some bs ∷ vs) = (length bs < null_len) × Sized vs

abbrev pub parsed_row : Verdict Values → Option Row
parsed_row (verdict parse_success s) = some s.row
parsed_row _ = none

modify-append :
    (done : Row) (f : Option Bytes → Option Bytes) (x : Option Bytes) (ys : Row)
    → modify (length done) f (done ++ x ∷ ys) ≡ done ++ f x ∷ ys
unfolding modify
modify-append [] f x ys = refl
modify-append (d ∷ done) f x ys = ap (◌∷◌ d) (modify-append done f x ys)

len_turn_null :
    (d : Row) (i : ℕ) (rest : Bytes)
    → len_turn d i [] (encode_value none ++ rest) ≡ store_null d i (encode_value none) rest
unfolding len_turn
len_turn_null d i rest =
    rw (integer-to_network 4 null_len rest, integer_value-to_network32 null_len (omega arith)) refl

len_turn_bytes :
    (d : Row) (i : ℕ) (bs rest : Bytes)
    → length bs < null_len
    → len_turn d i [] (encode_value (some bs) ++ rest)
      ≡ store_value d i (record { target_length = length bs; result = bs }) rest
unfolding len_turn value_turn
len_turn_bytes d i bs rest h =
    let n : (length bs == null_len) ≡ false = ground arith in
    rw
      (
        append_assoc (integer_to_network 4 (length bs)) bs rest,
        integer-to_network 4 (length bs) (bs ++ rest),
        integer_value-to_network32 (length bs) (omega (arith, h)),
        n,
        byte_reads bs rest,
      )
      refl

next_idx : (n : ℕ) → n + 1 < 2 ^ 16 → (n + 1) % 2 ^ 16 ≡ n + 1
next_idx n h = omega (arith, h)

length-filled :
    (done : Row) (v : Option Bytes) (ys : Row)
    → length (done ++ v ∷ ys) ≡ length done + suc (length ys)
length-filled done v ys = length-append done (v ∷ ys)

-- A value that is not the last one: the turn goes on at the next.
pub value_more :
    (done : Row) (v : Option Bytes) (ys : Row) (rest : Bytes)
    → Sized (v ∷ [])
    → length done + 1 < 2 ^ 16
    → 0 < length ys
    → len_turn (done ++ none ∷ ys) (length done) [] (encode_value v ++ rest)
      ≡ again (at (done ++ v ∷ ys) (length done + 1) (len [])) rest
unfolding store_null store_value
value_more done none ys rest z h k =
    let n : ltb (length done + 1) (length done + suc (length ys)) ≡ true = ground arith in
    len_turn_null (done ++ none ∷ ys) (length done) rest
    ∙ rw
        (
          modify-append done (λ _. none) none ys,
          next_idx (length done) h,
          length-filled done none ys,
          n,
        )
        refl
value_more done (some bs) ys rest z h k =
    let n : leb (length done + suc (length ys)) (length done + 1) ≡ false = ground arith in
    len_turn_bytes (done ++ none ∷ ys) (length done) bs rest z.0
    ∙ rw
        (
          modify-append done (λ _. some bs) none ys,
          next_idx (length done) h,
          length-filled done (some bs) ys,
          n,
        )
        refl

-- The last value: the turn ends with the row.
pub value_last :
    (done : Row) (v : Option Bytes)
    → Sized (v ∷ [])
    → length done + 1 < 2 ^ 16
    → (st : ValueState) × (len_turn (done ++ none ∷ []) (length done) [] (encode_value v ++ [])
        ≡ stop parse_success (at (done ++ v ∷ []) (length done + 1) st))
unfolding store_null store_value make_success
value_last done none z h =
    let n : ltb (length done + 1) (length done + 1) ≡ false = ground arith in
    (
      len (encode_value none),
      len_turn_null (done ++ none ∷ []) (length done) []
          ∙ rw
              (
                modify-append done (λ _. none) none [],
                next_idx (length done) h,
                length-filled done none [],
                n,
              )
              refl,
    )
value_last done (some bs) z h =
    let n : leb (length done + 1) (length done + 1) ≡ true = ground arith in
    (
      value (record { target_length = length bs; result = bs }),
      len_turn_bytes (done ++ none ∷ []) (length done) bs [] z.0
          ∙ rw
              (
                modify-append done (λ _. some bs) none [],
                next_idx (length done) h,
                length-filled done (some bs) [],
                n,
              )
              refl,
    )

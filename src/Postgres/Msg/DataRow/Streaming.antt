-- ===== src/Postgres/Msg/DataRow/Streaming.antt =====
-- A row is read the same however its bytes are cut, no write goes past the last column, and the
-- loop ends.
use chxsql.Base.{
  ℕ, zero, suc, ◌+◌, ◌%◌, ◌^◌, ◌<◌, min, Bytes, [], ◌++◌, ◌≡◌, refl, false, not, arith, none, some,
  Option, ap, sym, ◌∙◌, length, length-replicate, ltb, ltb→lt, leb, ◌==◌, if◌then◌else◌,
}
use chxsql.Postgres.Basic.Counted.{integer-Streams, byte-Streams, Lacks}
use chxsql.Postgres.Basic.{Integer, integer_value, Byte, byte}
use chxsql.Postgres.Message.{expects-Definite, IsMessage, of_type-keeps}
use chxsql.Postgres.Msg.DataRow.{
  ValueState, count, len, value, Values, at, store_value, value_turn, store_null, null_len,
  len_turn, count_turn, values_turn, data_row_body, new_row, data_row,
}
use chxsql.Postgres.Outcome.{parse_malformed, make_success}
use chxsql.Postgres.Rows.{Row, modify, length-modify}
use chxsql.Postgres.Turn.Laws.{
  then_turn-resumes, then_turn-keeps, stop-make_success, make_success-keeps, if-resumes, if-keeps,
}
use chxsql.Postgres.Turn.Loop.{body-BodyStreams}
use chxsql.Postgres.Turn.{
  again, stop, resume_turn, TurnKeeps, TurnKeeps-mono, TurnStreams, BodyStreams,
}

-- The column to fill exists.
abbrev Fits : Row → ℕ → Type 0
Fits d i = (i < length d) × (length d < 2 ^ 16)

abbrev ValidIn : ValueState → Row → ℕ → Type 0
ValidIn (count p) d i = (i ≡ 0) × (length d < 2 ^ 16) × (length p < 2)
ValidIn (len p) d i = Fits d i × (length p < 4)
ValidIn (value p) d i = Fits d i × Lacks p

-- Between the values read and the columns there are, with the next parser unfinished.
abbrev pub Valid : Values → Type 0
Valid s = ValidIn s.state s.row s.idx

store_value-resumes :
    (d : Row) (i : ℕ) (q : Byte) (zs ys : Bytes)
    → store_value d i q (zs ++ ys) ≡ resume_turn values_turn (store_value d i q zs) ys
unfolding store_value
store_value-resumes d i q zs ys =
    if-resumes values_turn _ ys _ _ _ _ (stop-make_success values_turn _ zs ys) refl

leb→not_lt : (a b : ℕ) → leb a b ≡ false → b < a
leb→not_lt a b h = ground arith

store_value-keeps :
    (d : Row) (i : ℕ) (q : Byte) (zs : Bytes)
    → Fits d i
    → TurnKeeps Valid (suc (length zs)) (store_value d i q zs)
unfolding store_value
store_value-keeps d i q zs h =
    let d' = modify i (λ _. some q.result) d in
    let i' = (i + 1) % 2 ^ 16 in
    if-keeps Valid (suc (length zs)) (leb (length d') i')
      (stop (make_success zs) (at d' i' (value q))) (again (at d' i' (len [])) zs)
      (λ e. make_success-keeps Valid (suc (length zs)) (at d' i' (value q)) zs)
      (λ e.
        let l = length-modify i (λ _. some q.result) d in
        (((leb→not_lt (length d') i' e, omega (arith, l)), omega arith), omega arith))

store_null-resumes :
    (d : Row) (i : ℕ) (q : Integer) (zs ys : Bytes)
    → store_null d i q (zs ++ ys) ≡ resume_turn values_turn (store_null d i q zs) ys
unfolding store_null
store_null-resumes d i q zs ys =
    if-resumes values_turn _ ys _ _ _ _ refl (stop-make_success values_turn _ zs ys)

store_null-keeps :
    (d : Row) (i : ℕ) (q : Integer) (zs : Bytes)
    → Fits d i
    → TurnKeeps Valid (suc (length zs)) (store_null d i q zs)
unfolding store_null
store_null-keeps d i q zs h =
    let d' = modify i (λ _. none) d in
    let i' = (i + 1) % 2 ^ 16 in
    if-keeps Valid (suc (length zs)) (ltb i' (length d')) (again (at d' i' (len [])) zs)
      (stop (make_success zs) (at d' i' (len q)))
      (λ e.
        let l = length-modify i (λ (v : Option Bytes). none) d in
        (((ltb→lt i' (length d') e, omega (arith, l)), omega arith), omega arith))
      (λ e. make_success-keeps Valid (suc (length zs)) (at d' i' (len q)) zs)

module _ (d : Row) (i : ℕ) where
  value-resumes :
      (p : Byte) (xs ys : Bytes)
      → Lacks p
      → value_turn d i p (xs ++ ys) ≡ resume_turn values_turn (value_turn d i p xs) ys
  unfolding value_turn values_turn
  value-resumes p xs ys v =
      then_turn-resumes byte-Streams Valid values_turn (λ q. at d i (value q)) _ (λ a zs. refl) p xs
        ys v (λ b zs. store_value-resumes d i b zs ys)

  value-keeps :
      (p : Byte) (xs : Bytes)
      → Fits d i
      → Lacks p
      → TurnKeeps Valid (length xs) (value_turn d i p xs)
  unfolding value_turn values_turn
  value-keeps p xs h v =
      then_turn-keeps byte-Streams Valid values_turn (λ q. at d i (value q)) _ (λ a zs. refl) p xs v
        (λ b w. (h, w)) (λ b zs. store_value-keeps d i b zs h)

  -- A value of no bytes is complete before it takes any.
  value_turn_empty :
      (xs : Bytes)
      → value_turn d i (record { target_length = 0; result = [] }) xs
        ≡ store_value d i (record { target_length = 0; result = [] }) xs
  unfolding value_turn byte
  value_turn_empty xs = let e : min (length xs) 0 ≡ 0 = omega arith in rw e

  fresh-resumes :
      (n : ℕ) (xs ys : Bytes)
      → value_turn d i (record { target_length = n; result = [] }) (xs ++ ys)
        ≡ resume_turn values_turn (value_turn d i (record { target_length = n; result = [] }) xs) ys
  fresh-resumes zero xs ys =
      value_turn_empty (xs ++ ys)
      ∙ store_value-resumes d i _ xs ys
      ∙ ap (λ t. resume_turn values_turn t ys) (sym (value_turn_empty xs))
  fresh-resumes (suc n) xs ys = value-resumes _ xs ys (omega arith)

  fresh-keeps :
      (n : ℕ) (xs : Bytes)
      → Fits d i
      → TurnKeeps Valid
          (suc (length xs))
          (value_turn d i (record { target_length = n; result = [] }) xs)
  fresh-keeps zero xs h = rw (value_turn_empty xs) (store_value-keeps d i _ xs h)
  fresh-keeps (suc n) xs h =
      TurnKeeps-mono Valid (length xs) (suc (length xs)) _ (omega arith)
        (value-keeps _ xs h (omega arith))

  len-resumes :
      (p : Integer) (xs ys : Bytes)
      → length p < 4
      → len_turn d i p (xs ++ ys) ≡ resume_turn values_turn (len_turn d i p xs) ys
  unfolding len_turn values_turn
  len-resumes p xs ys v =
      then_turn-resumes (integer-Streams 4) Valid values_turn (λ q. at d i (len q)) _ (λ a zs. refl)
        p xs ys v
        (λ b zs.
          if-resumes values_turn _ ys _ _ _ _ (fresh-resumes _ zs ys)
            (store_null-resumes d i b zs ys))

  len-keeps :
      (p : Integer) (xs : Bytes)
      → Fits d i
      → length p < 4
      → TurnKeeps Valid (length xs) (len_turn d i p xs)
  unfolding len_turn values_turn
  len-keeps p xs h v =
      then_turn-keeps (integer-Streams 4) Valid values_turn (λ q. at d i (len q)) _ (λ a zs. refl) p
        xs v (λ b w. (h, w))
        (λ b zs.
          let n = integer_value 4 b in
          if-keeps Valid (suc (length zs)) (not (n == null_len))
            (value_turn d i (record { target_length = n; result = [] }) zs) (store_null d i b zs)
            (λ e. fresh-keeps n zs h) (λ e. store_null-keeps d i b zs h))

  count-resumes :
      (p : Integer) (xs ys : Bytes)
      → length p < 2
      → count_turn d i p (xs ++ ys) ≡ resume_turn values_turn (count_turn d i p xs) ys
  unfolding count_turn values_turn
  count-resumes p xs ys v =
      then_turn-resumes (integer-Streams 2) Valid values_turn (λ q. at d i (count q)) _
        (λ a zs. refl) p xs ys v
        (λ b zs.
          if-resumes values_turn _ ys _ _ _ _
            (if-resumes values_turn _ ys _ _ _ _ (len-resumes [] zs ys (omega arith))
              (stop-make_success values_turn _ zs ys))
            refl)

  count-keeps :
      (p : Integer) (xs : Bytes)
      → i ≡ 0
      → length d < 2 ^ 16
      → length p < 2
      → TurnKeeps Valid (length xs) (count_turn d i p xs)
  unfolding count_turn values_turn
  count-keeps p xs z h v =
      then_turn-keeps (integer-Streams 2) Valid values_turn (λ q. at d i (count q)) _ (λ a zs. refl)
        p xs v (λ b w. (z, h, w))
        (λ b zs.
          let done = stop (make_success zs) (at d i (count b)) in
          let first = len_turn d i [] zs in
          if-keeps Valid (suc (length zs)) (integer_value 2 b == length d)
            (if not (length d == 0) then first else done) (stop parse_malformed (at d i (count b)))
            (λ e.
              if-keeps Valid (suc (length zs)) (not (length d == 0)) first done
                (λ e'.
                  TurnKeeps-mono Valid (length zs) (suc (length zs)) first (omega arith)
                    (len-keeps [] zs (ground arith, h) (omega arith)))
                (λ e'. make_success-keeps Valid (suc (length zs)) (at d i (count b)) zs))
            (λ e. tt))

turn-resumes :
    (st : ValueState) (d : Row) (i : ℕ) (xs ys : Bytes)
    → ValidIn st d i
    → values_turn (at d i st) (xs ++ ys) ≡ resume_turn values_turn (values_turn (at d i st) xs) ys
unfolding values_turn
turn-resumes (count p) d i xs ys v = count-resumes d i p xs ys v.2
turn-resumes (len p) d i xs ys v = len-resumes d i p xs ys v.1
turn-resumes (value p) d i xs ys v = value-resumes d i p xs ys v.1

turn-keeps :
    (st : ValueState) (d : Row) (i : ℕ) (xs : Bytes)
    → ValidIn st d i
    → TurnKeeps Valid (length xs) (values_turn (at d i st) xs)
unfolding values_turn
turn-keeps (count p) d i xs v = count-keeps d i p xs v.0 v.1 v.2
turn-keeps (len p) d i xs v = len-keeps d i p xs v.0 v.1
turn-keeps (value p) d i xs v = value-keeps d i p xs v.0 v.1

values_turn-TurnStreams : TurnStreams Valid values_turn
values_turn-TurnStreams = record {
  resumes = λ s. turn-resumes s.state s.row s.idx;
  keeps = λ s. turn-keeps s.state s.row s.idx;
}

-- From every valid state, the body of a DataRow gives the same answer and the same message whether
-- it comes at once or in pieces, bytes after its end being trailing data; the parser always
-- answers, and is in a valid state while it waits.
pub data_row-BodyStreams : BodyStreams Valid data_row_body
unfolding data_row_body
data_row-BodyStreams = body-BodyStreams values_turn-TurnStreams

abbrev pub data_row-IsMessage : IsMessage data_row
data_row-IsMessage = record {
  Valid = Valid;
  typed = of_type-keeps Valid b'D';
  recognises = λ s. expects-Definite b'D';
  measures = λ s n. tt;
  streams = data_row-BodyStreams;
}

-- A new row is valid, whatever the number of its columns, a uint16_t.
pub new_row-Valid : (n : ℕ) → n < 2 ^ 16 → Valid (new_row n)
new_row-Valid n h =
    (refl, omega (arith, length-replicate {0} {A = Option Bytes} n none), omega arith)

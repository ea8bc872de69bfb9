-- ===== src/Postgres/Msg/RowDescription/Streaming.antt =====
-- A description of columns is read the same however its bytes are cut, no write goes past the last
-- column, and the loop ends.
use chxsql.Base.{
  ℕ, suc, ◌+◌, ◌%◌, ◌^◌, ◌<◌, Bytes, List, [], ◌++◌, ◌≡◌, refl, false, arith, length,
  length-replicate, ltb, ltb→lt, ◌==◌,
}
use chxsql.Postgres.Basic.Counted.{integer-Streams}
use chxsql.Postgres.Basic.Terminated.{string_bytes-Streams}
use chxsql.Postgres.Basic.{Integer, integer_value}
use chxsql.Postgres.Message.{expects-Definite, IsMessage, of_type-keeps}
use chxsql.Postgres.Msg.RowDescription.{
  FieldState, count, field_name, table_id, column_attribute_number, field_data_type_id,
  data_type_size, type_modifier, format_code, Columns, at, format_code_turn, type_modifier_turn,
  data_type_size_turn, field_data_type_id_turn, column_attribute_turn, table_id_turn,
  field_name_turn, resized, count_turn, columns_turn, row_description_body, row_description,
}
use chxsql.Postgres.Outcome.{make_success}
use chxsql.Postgres.Rows.{RowDescription, no_description, modify, length-modify}
use chxsql.Postgres.Turn.Laws.{
  then_turn-resumes, then_turn-keeps, stop-make_success, make_success-keeps, if-resumes, if-keeps,
}
use chxsql.Postgres.Turn.Loop.{body-BodyStreams}
use chxsql.Postgres.Turn.{
  again, stop, resume_turn, TurnKeeps, TurnKeeps-mono, TurnStreams, BodyStreams,
}

-- The column to fill exists.
abbrev Fits : List RowDescription → ℕ → Type 0
Fits d i = (i < length d) × (length d < 2 ^ 16)

abbrev ValidIn : FieldState → List RowDescription → ℕ → Type 0
ValidIn (count p) d i = (i ≡ 0) × (length p < 2)
ValidIn (field_name p) d i = Fits d i
ValidIn (table_id p) d i = Fits d i × (length p < 4)
ValidIn (column_attribute_number p) d i = Fits d i × (length p < 2)
ValidIn (field_data_type_id p) d i = Fits d i × (length p < 4)
ValidIn (data_type_size p) d i = Fits d i × (length p < 2)
ValidIn (type_modifier p) d i = Fits d i × (length p < 4)
ValidIn (format_code p) d i = Fits d i × (length p < 2)

-- Between the columns read and those announced, with the parser of the next field unfinished.
abbrev pub Valid : Columns → Type 0
Valid c = ValidIn c.state c.desc c.idx

Fits-modify :
    (d : List RowDescription) (i j : ℕ) (f : RowDescription → RowDescription)
    → Fits d i
    → Fits (modify j f d) i
Fits-modify d i j f h =
    (omega (arith, length-modify {0} j f d), omega (arith, length-modify {0} j f d))

module _ (d : List RowDescription) (i : ℕ) (p : Integer) where
  format_code-resumes :
      (xs ys : Bytes)
      → length p < 2
      → format_code_turn d i p (xs ++ ys) ≡ resume_turn columns_turn (format_code_turn d i p xs) ys
  unfolding format_code_turn columns_turn
  format_code-resumes xs ys v =
      then_turn-resumes (integer-Streams 2) Valid columns_turn (λ q. at d i (format_code q)) _
        (λ a zs. refl) p xs ys v
        (λ b zs. if-resumes columns_turn _ ys _ _ _ _ refl (stop-make_success columns_turn _ zs ys))

  format_code-keeps :
      (xs : Bytes)
      → Fits d i
      → length p < 2
      → TurnKeeps Valid (length xs) (format_code_turn d i p xs)
  unfolding format_code_turn columns_turn
  format_code-keeps xs h v =
      then_turn-keeps (integer-Streams 2) Valid columns_turn (λ q. at d i (format_code q)) _
        (λ a zs. refl) p xs v (λ b w. (h, w))
        (λ b zs.
          let f = Fits-modify d i i (λ c. record c { format_code = integer_value 2 b }) h in
          let d' = modify i (λ c. record c { format_code = integer_value 2 b }) d in
          let i' = (i + 1) % 2 ^ 16 in
          if-keeps Valid (suc (length zs)) (ltb i' (length d'))
            (again (at d' i' (field_name [])) zs)
            (stop (make_success zs) (at d' i' (format_code b)))
            (λ e. ((ltb→lt i' (length d') e, f.1), omega arith))
            (λ e. make_success-keeps Valid (suc (length zs)) (at d' i' (format_code b)) zs))

module _ (d : List RowDescription) (i : ℕ) (p : Integer) where
  type_modifier-resumes :
      (xs ys : Bytes)
      → length p < 4
      → type_modifier_turn d i p (xs ++ ys)
        ≡ resume_turn columns_turn (type_modifier_turn d i p xs) ys
  unfolding type_modifier_turn columns_turn
  type_modifier-resumes xs ys v =
      then_turn-resumes (integer-Streams 4) Valid columns_turn (λ q. at d i (type_modifier q)) _
        (λ a zs. refl) p xs ys v (λ b zs. format_code-resumes _ _ _ zs ys (omega arith))

  type_modifier-keeps :
      (xs : Bytes)
      → Fits d i
      → length p < 4
      → TurnKeeps Valid (length xs) (type_modifier_turn d i p xs)
  unfolding type_modifier_turn columns_turn
  type_modifier-keeps xs h v =
      then_turn-keeps (integer-Streams 4) Valid columns_turn (λ q. at d i (type_modifier q)) _
        (λ a zs. refl) p xs v (λ b w. (h, w))
        (λ b zs.
          TurnKeeps-mono Valid (length zs) (suc (length zs)) _ (omega arith)
            (format_code-keeps _ i [] zs (Fits-modify d i i _ h) (omega arith)))

module _ (d : List RowDescription) (i : ℕ) (p : Integer) where
  data_type_size-resumes :
      (xs ys : Bytes)
      → length p < 2
      → data_type_size_turn d i p (xs ++ ys)
        ≡ resume_turn columns_turn (data_type_size_turn d i p xs) ys
  unfolding data_type_size_turn columns_turn
  data_type_size-resumes xs ys v =
      then_turn-resumes (integer-Streams 2) Valid columns_turn (λ q. at d i (data_type_size q)) _
        (λ a zs. refl) p xs ys v (λ b zs. type_modifier-resumes _ _ _ zs ys (omega arith))

  data_type_size-keeps :
      (xs : Bytes)
      → Fits d i
      → length p < 2
      → TurnKeeps Valid (length xs) (data_type_size_turn d i p xs)
  unfolding data_type_size_turn columns_turn
  data_type_size-keeps xs h v =
      then_turn-keeps (integer-Streams 2) Valid columns_turn (λ q. at d i (data_type_size q)) _
        (λ a zs. refl) p xs v (λ b w. (h, w))
        (λ b zs.
          TurnKeeps-mono Valid (length zs) (suc (length zs)) _ (omega arith)
            (type_modifier-keeps _ i [] zs (Fits-modify d i i _ h) (omega arith)))

module _ (d : List RowDescription) (i : ℕ) (p : Integer) where
  field_data_type_id-resumes :
      (xs ys : Bytes)
      → length p < 4
      → field_data_type_id_turn d i p (xs ++ ys)
        ≡ resume_turn columns_turn (field_data_type_id_turn d i p xs) ys
  unfolding field_data_type_id_turn columns_turn
  field_data_type_id-resumes xs ys v =
      then_turn-resumes (integer-Streams 4) Valid columns_turn (λ q. at d i (field_data_type_id q))
        _ (λ a zs. refl) p xs ys v (λ b zs. data_type_size-resumes _ _ _ zs ys (omega arith))

  field_data_type_id-keeps :
      (xs : Bytes)
      → Fits d i
      → length p < 4
      → TurnKeeps Valid (length xs) (field_data_type_id_turn d i p xs)
  unfolding field_data_type_id_turn columns_turn
  field_data_type_id-keeps xs h v =
      then_turn-keeps (integer-Streams 4) Valid columns_turn (λ q. at d i (field_data_type_id q)) _
        (λ a zs. refl) p xs v (λ b w. (h, w))
        (λ b zs.
          TurnKeeps-mono Valid (length zs) (suc (length zs)) _ (omega arith)
            (data_type_size-keeps _ i [] zs (Fits-modify d i i _ h) (omega arith)))

module _ (d : List RowDescription) (i : ℕ) (p : Integer) where
  column_attribute-resumes :
      (xs ys : Bytes)
      → length p < 2
      → column_attribute_turn d i p (xs ++ ys)
        ≡ resume_turn columns_turn (column_attribute_turn d i p xs) ys
  unfolding column_attribute_turn columns_turn
  column_attribute-resumes xs ys v =
      then_turn-resumes (integer-Streams 2) Valid columns_turn
        (λ q. at d i (column_attribute_number q)) _ (λ a zs. refl) p xs ys v
        (λ b zs. field_data_type_id-resumes _ _ _ zs ys (omega arith))

  column_attribute-keeps :
      (xs : Bytes)
      → Fits d i
      → length p < 2
      → TurnKeeps Valid (length xs) (column_attribute_turn d i p xs)
  unfolding column_attribute_turn columns_turn
  column_attribute-keeps xs h v =
      then_turn-keeps (integer-Streams 2) Valid columns_turn
        (λ q. at d i (column_attribute_number q)) _ (λ a zs. refl) p xs v (λ b w. (h, w))
        (λ b zs.
          TurnKeeps-mono Valid (length zs) (suc (length zs)) _ (omega arith)
            (field_data_type_id-keeps _ i [] zs (Fits-modify d i i _ h) (omega arith)))

module _ (d : List RowDescription) (i : ℕ) (p : Integer) where
  table_id-resumes :
      (xs ys : Bytes)
      → length p < 4
      → table_id_turn d i p (xs ++ ys) ≡ resume_turn columns_turn (table_id_turn d i p xs) ys
  unfolding table_id_turn columns_turn
  table_id-resumes xs ys v =
      then_turn-resumes (integer-Streams 4) Valid columns_turn (λ q. at d i (table_id q)) _
        (λ a zs. refl) p xs ys v (λ b zs. column_attribute-resumes _ _ _ zs ys (omega arith))

  table_id-keeps :
      (xs : Bytes) → Fits d i → length p < 4 → TurnKeeps Valid (length xs) (table_id_turn d i p xs)
  unfolding table_id_turn columns_turn
  table_id-keeps xs h v =
      then_turn-keeps (integer-Streams 4) Valid columns_turn (λ q. at d i (table_id q)) _
        (λ a zs. refl) p xs v (λ b w. (h, w))
        (λ b zs.
          TurnKeeps-mono Valid (length zs) (suc (length zs)) _ (omega arith)
            (column_attribute-keeps _ i [] zs (Fits-modify d i i _ h) (omega arith)))

module _ (d : List RowDescription) (i : ℕ) (p : Bytes) where
  field_name-resumes :
      (xs ys : Bytes)
      → field_name_turn d i p (xs ++ ys) ≡ resume_turn columns_turn (field_name_turn d i p xs) ys
  unfolding field_name_turn columns_turn
  field_name-resumes xs ys =
      then_turn-resumes string_bytes-Streams Valid columns_turn (λ q. at d i (field_name q)) _
        (λ a zs. refl) p xs ys tt (λ b zs. table_id-resumes _ _ _ zs ys (omega arith))

  field_name-keeps :
      (xs : Bytes) → Fits d i → TurnKeeps Valid (length xs) (field_name_turn d i p xs)
  unfolding field_name_turn columns_turn
  field_name-keeps xs h =
      then_turn-keeps string_bytes-Streams Valid columns_turn (λ q. at d i (field_name q)) _
        (λ a zs. refl) p xs tt (λ b w. h)
        (λ b zs.
          TurnKeeps-mono Valid (length zs) (suc (length zs)) _ (omega arith)
            (table_id-keeps _ i [] zs (Fits-modify d i i _ h) (omega arith)))

value_bound : (q : Integer) → integer_value 2 q < 2 ^ 16
unfolding integer_value
value_bound q = omega arith

resized-Fits : (n i : ℕ) → n < 2 ^ 16 → i ≡ 0 → (n == 0) ≡ false → Fits (resized n) i
resized-Fits n i h z e =
    let l = length-replicate n no_description in (ground (arith, l), omega (arith, l))

module _ (d : List RowDescription) (i : ℕ) (p : Integer) where
  count-resumes :
      (xs ys : Bytes)
      → length p < 2
      → count_turn d i p (xs ++ ys) ≡ resume_turn columns_turn (count_turn d i p xs) ys
  unfolding count_turn columns_turn
  count-resumes xs ys v =
      then_turn-resumes (integer-Streams 2) Valid columns_turn (λ q. at d i (count q)) _
        (λ a zs. refl) p xs ys v
        (λ b zs.
          if-resumes columns_turn _ ys _ _ _ _ (stop-make_success columns_turn _ zs ys)
            (field_name-resumes _ _ _ zs ys))

  count-keeps :
      (xs : Bytes) → i ≡ 0 → length p < 2 → TurnKeeps Valid (length xs) (count_turn d i p xs)
  unfolding count_turn columns_turn
  count-keeps xs z v =
      then_turn-keeps (integer-Streams 2) Valid columns_turn (λ q. at d i (count q)) _
        (λ a zs. refl) p xs v (λ b w. (z, w))
        (λ b zs.
          let sz = integer_value 2 b in
          if-keeps Valid (suc (length zs)) (sz == 0) (stop (make_success zs) (at d i (count b)))
            (field_name_turn (resized sz) i [] zs)
            (λ e. make_success-keeps Valid (suc (length zs)) (at d i (count b)) zs)
            (λ e.
              TurnKeeps-mono Valid (length zs) (suc (length zs))
                (field_name_turn (resized sz) i [] zs) (omega arith)
                (field_name-keeps (resized sz) i [] zs (resized-Fits sz i (value_bound b) z e))))

turn-resumes :
    (st : FieldState) (d : List RowDescription) (i : ℕ) (xs ys : Bytes)
    → ValidIn st d i
    → columns_turn (at d i st) (xs ++ ys)
      ≡ resume_turn columns_turn (columns_turn (at d i st) xs) ys
unfolding columns_turn
turn-resumes (count p) d i xs ys v = count-resumes d i p xs ys v.1
turn-resumes (field_name p) d i xs ys v = field_name-resumes d i p xs ys
turn-resumes (table_id p) d i xs ys v = table_id-resumes d i p xs ys v.1
turn-resumes (column_attribute_number p) d i xs ys v = column_attribute-resumes d i p xs ys v.1
turn-resumes (field_data_type_id p) d i xs ys v = field_data_type_id-resumes d i p xs ys v.1
turn-resumes (data_type_size p) d i xs ys v = data_type_size-resumes d i p xs ys v.1
turn-resumes (type_modifier p) d i xs ys v = type_modifier-resumes d i p xs ys v.1
turn-resumes (format_code p) d i xs ys v = format_code-resumes d i p xs ys v.1

turn-keeps :
    (st : FieldState) (d : List RowDescription) (i : ℕ) (xs : Bytes)
    → ValidIn st d i
    → TurnKeeps Valid (length xs) (columns_turn (at d i st) xs)
unfolding columns_turn
turn-keeps (count p) d i xs v = count-keeps d i p xs v.0 v.1
turn-keeps (field_name p) d i xs v = field_name-keeps d i p xs v
turn-keeps (table_id p) d i xs v = table_id-keeps d i p xs v.0 v.1
turn-keeps (column_attribute_number p) d i xs v = column_attribute-keeps d i p xs v.0 v.1
turn-keeps (field_data_type_id p) d i xs v = field_data_type_id-keeps d i p xs v.0 v.1
turn-keeps (data_type_size p) d i xs v = data_type_size-keeps d i p xs v.0 v.1
turn-keeps (type_modifier p) d i xs v = type_modifier-keeps d i p xs v.0 v.1
turn-keeps (format_code p) d i xs v = format_code-keeps d i p xs v.0 v.1

columns_turn-TurnStreams : TurnStreams Valid columns_turn
columns_turn-TurnStreams = record {
  resumes = λ c. turn-resumes c.state c.desc c.idx;
  keeps = λ c. turn-keeps c.state c.desc c.idx;
}

-- From every valid state, the body of a RowDescription gives the same answer and the same message
-- whether it comes at once or in pieces, bytes after its end being trailing data; the parser
-- always answers, and is in a valid state while it waits.
pub row_description-BodyStreams : BodyStreams Valid row_description_body
unfolding row_description_body
row_description-BodyStreams = body-BodyStreams columns_turn-TurnStreams

abbrev pub row_description-IsMessage : IsMessage row_description
row_description-IsMessage = record {
  Valid = Valid;
  typed = of_type-keeps Valid b'T';
  recognises = λ s. expects-Definite b'T';
  measures = λ s n. tt;
  streams = row_description-BodyStreams;
}

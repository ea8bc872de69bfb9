-- ===== src/Postgres/Msg/RowDescription.antt =====
-- include/chx/sql/postgresql/detail/msg/row_description.hpp: a description for each column.
-- The fields follow one another in a fixed order, so each case of the switch falls into the next.
pub mod Streaming
use chxsql.Base.{
  ℕ, ◌+◌, ◌%◌, ◌^◌, Bytes, List, [], ◌∷◌, length, replicate, ltb, ◌==◌, if◌then◌else◌,
}
use chxsql.Postgres.Outcome.{ParseResult, parse_success, Verdict, make_success}
use chxsql.Postgres.Basic.{Integer, integer, integer_value, string, insert_bytes}
use chxsql.Postgres.Message.{Message, of_type, of_length, any_length}
use chxsql.Postgres.Rows.{RowDescription, no_description, modify}
use chxsql.Postgres.Turn.{Turn, again, stop, then_turn, body}

-- The alternatives of `__M_state`.
pub data FieldState : Type 0 where
  count : Integer → FieldState
  field_name : Bytes → FieldState
  table_id column_attribute_number field_data_type_id data_type_size : Integer → FieldState
  type_modifier format_code : Integer → FieldState

-- `desc`, `__M_idx`, a uint16_t, and `__M_state`.
pub record Columns : Type 0 where
  pub desc : List RowDescription
  pub idx : ℕ
  pub state : FieldState

abbrev pub at : List RowDescription → ℕ → FieldState → Columns
at d i s = record { desc = d; idx = i; state = s }

-- `case 7`, then the next column or the end.
unfoldable pub format_code_turn : List RowDescription → ℕ → Integer → Bytes → Turn Columns
format_code_turn d i p xs =
    then_turn (integer 2 p xs) (λ q. at d i (format_code q))
      (λ q rest.
        let d' = modify i (λ c. record c { format_code = integer_value 2 q }) d in
        let i' = (i + 1) % 2 ^ 16 in
        if ltb i' (length d')
        then again (at d' i' (field_name [])) rest
        else stop (make_success rest) (at d' i' (format_code q)))

-- `case 6`.
unfoldable pub type_modifier_turn : List RowDescription → ℕ → Integer → Bytes → Turn Columns
type_modifier_turn d i p xs =
    then_turn (integer 4 p xs) (λ q. at d i (type_modifier q))
      (λ q rest.
        format_code_turn (modify i (λ c. record c { type_modifier = integer_value 4 q }) d) i []
          rest)

-- `case 5`.
unfoldable pub data_type_size_turn : List RowDescription → ℕ → Integer → Bytes → Turn Columns
data_type_size_turn d i p xs =
    then_turn (integer 2 p xs) (λ q. at d i (data_type_size q))
      (λ q rest.
        type_modifier_turn (modify i (λ c. record c { data_type_size = integer_value 2 q }) d) i []
          rest)

-- `case 4`.
unfoldable pub field_data_type_id_turn : List RowDescription → ℕ → Integer → Bytes → Turn Columns
field_data_type_id_turn d i p xs =
    then_turn (integer 4 p xs) (λ q. at d i (field_data_type_id q))
      (λ q rest.
        data_type_size_turn (modify i (λ c. record c { field_data_type_id = integer_value 4 q }) d)
          i [] rest)

-- `case 3`.
unfoldable pub column_attribute_turn : List RowDescription → ℕ → Integer → Bytes → Turn Columns
column_attribute_turn d i p xs =
    then_turn (integer 2 p xs) (λ q. at d i (column_attribute_number q))
      (λ q rest.
        field_data_type_id_turn
          (modify i (λ c. record c { column_attribute_number = integer_value 2 q }) d) i [] rest)

-- `case 2`.
unfoldable pub table_id_turn : List RowDescription → ℕ → Integer → Bytes → Turn Columns
table_id_turn d i p xs =
    then_turn (integer 4 p xs) (λ q. at d i (table_id q))
      (λ q rest.
        column_attribute_turn (modify i (λ c. record c { table_id = integer_value 4 q }) d) i []
          rest)

-- `case 1`.
unfoldable pub field_name_turn : List RowDescription → ℕ → Bytes → Bytes → Turn Columns
field_name_turn d i p xs =
    then_turn (string insert_bytes p xs) (λ q. at d i (field_name q))
      (λ q rest. table_id_turn (modify i (λ c. record c { field_name = q }) d) i [] rest)

-- `desc.resize(n)`.
abbrev pub resized : ℕ → List RowDescription
resized n = replicate n no_description

-- `case 0`: a message with no column ends here.
unfoldable pub count_turn : List RowDescription → ℕ → Integer → Bytes → Turn Columns
count_turn d i p xs =
    then_turn (integer 2 p xs) (λ q. at d i (count q))
      (λ q rest.
        let sz = integer_value 2 q in
        if sz == 0
        then stop (make_success rest) (at d i (count q))
        else field_name_turn (resized sz) i [] rest)

turn_in : FieldState → List RowDescription → ℕ → Bytes → Turn Columns
turn_in (count p) d i xs = count_turn d i p xs
turn_in (field_name p) d i xs = field_name_turn d i p xs
turn_in (table_id p) d i xs = table_id_turn d i p xs
turn_in (column_attribute_number p) d i xs = column_attribute_turn d i p xs
turn_in (field_data_type_id p) d i xs = field_data_type_id_turn d i p xs
turn_in (data_type_size p) d i xs = data_type_size_turn d i p xs
turn_in (type_modifier p) d i xs = type_modifier_turn d i p xs
turn_in (format_code p) d i xs = format_code_turn d i p xs

unfoldable pub columns_turn : Columns → Bytes → Turn Columns
unfolding turn_in
columns_turn c xs = turn_in c.state c.desc c.idx xs

unfoldable pub row_description_body : Columns → Bytes → Verdict Columns
row_description_body = body columns_turn

abbrev pub no_columns : Columns
no_columns = at [] 0 (count [])

abbrev pub row_description : Message
row_description = record {
  State = Columns;
  on_message_type = of_type b'T';
  on_message_length = any_length;
  on_body = row_description_body;
}

-- ===== src/Postgres/Msg/DataRow.antt =====
-- include/chx/sql/postgresql/detail/msg/data_row.hpp: one row, a length and the bytes for each
-- column, or the length -1 for NULL.
pub mod Streaming
pub mod Layout
pub mod RoundTrip
use chxsql.Base.{
  ℕ, ◌+◌, ◌-◌, ◌%◌, ◌^◌, Bytes, List, [], none, some, length, replicate, ltb, leb, not, ◌==◌,
  if◌then◌else◌,
}
use chxsql.Postgres.Outcome.{parse_success, parse_malformed, Verdict, make_success}
use chxsql.Postgres.Basic.{Integer, integer, integer_value, Byte, byte}
use chxsql.Postgres.Message.{Message, of_type, of_length, any_length}
use chxsql.Postgres.Rows.{Row, modify}
use chxsql.Postgres.Turn.{Turn, again, stop, then_turn, body}

-- The alternatives of `__M_state`.
pub data ValueState : Type 0 where
  count len : Integer → ValueState
  value : Byte → ValueState

-- `data`, `__M_idx`, a uint16_t, and `__M_state`.
pub record Values : Type 0 where
  pub row : Row
  pub idx : ℕ
  pub state : ValueState

abbrev pub at : Row → ℕ → ValueState → Values
at d i s = record { row = d; idx = i; state = s }

-- The end of `case 2`, at a value that is complete.
unfoldable pub store_value : Row → ℕ → Byte → Bytes → Turn Values
store_value d i q rest =
    let d' = modify i (λ _. some q.result) d in
    let i' = (i + 1) % 2 ^ 16 in
    if leb (length d') i'
    then stop (make_success rest) (at d' i' (value q))
    else again (at d' i' (len [])) rest

-- `case 2`.
unfoldable pub value_turn : Row → ℕ → Byte → Bytes → Turn Values
value_turn d i p xs =
    then_turn (byte p xs) (λ q. at d i (value q)) (λ q rest. store_value d i q rest)

-- The branch of `case 1` for NULL.
unfoldable pub store_null : Row → ℕ → Integer → Bytes → Turn Values
store_null d i q rest =
    let d' = modify i (λ _. none) d in
    let i' = (i + 1) % 2 ^ 16 in
    if ltb i' (length d')
    then again (at d' i' (len [])) rest
    else stop (make_success rest) (at d' i' (len q))

-- -1 as a uint32_t.
abbrev pub null_len : ℕ
null_len = 2 ^ 32 - 1

-- `case 1`.
unfoldable pub len_turn : Row → ℕ → Integer → Bytes → Turn Values
len_turn d i p xs =
    then_turn (integer 4 p xs) (λ q. at d i (len q))
      (λ q rest.
        let n = integer_value 4 q in
        if not (n == null_len)
        then value_turn d i (record { target_length = n; result = [] }) rest
        else store_null d i q rest)

-- `case 0`: the count must be the number of columns.
unfoldable pub count_turn : Row → ℕ → Integer → Bytes → Turn Values
count_turn d i p xs =
    then_turn (integer 2 p xs) (λ q. at d i (count q))
      (λ q rest.
        if integer_value 2 q == length d
        then if not (length d == 0)
          then len_turn d i [] rest
          else stop (make_success rest) (at d i (count q))
        else stop parse_malformed (at d i (count q)))

turn_in : ValueState → Row → ℕ → Bytes → Turn Values
turn_in (count p) d i xs = count_turn d i p xs
turn_in (len p) d i xs = len_turn d i p xs
turn_in (value p) d i xs = value_turn d i p xs

unfoldable pub values_turn : Values → Bytes → Turn Values
unfolding turn_in
values_turn s xs = turn_in s.state s.row s.idx xs

unfoldable pub data_row_body : Values → Bytes → Verdict Values
data_row_body = body values_turn

-- The constructor `data_row(col_n)`.
abbrev pub new_row : ℕ → Values
new_row col_n = at (replicate col_n none) 0 (count [])

abbrev pub data_row : Message
data_row = record {
  State = Values;
  on_message_type = of_type b'D';
  on_message_length = any_length;
  on_body = data_row_body;
}

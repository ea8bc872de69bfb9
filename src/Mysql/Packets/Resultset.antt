-- ===== src/Mysql/Packets/Resultset.antt =====
-- include/chx/sql/mysql/detail/packets/Resultset_Packet.hpp: a row of text values. The packet
-- ColumnCount_Packet.hpp is a length_encoded_integer and no more.
pub mod RoundTrip
use chxsql.Base.{
  ℕ, zero, suc, ◌-◌, Bytes, List, [], ◌∷◌, ◌++◌, Option, none, some, length, ◌==◌, if◌then◌else◌,
}
use chxsql.Mysql.Basic.{
  LengthString, new_length_string, length_encoded_string, string_value, keeping,
}
use chxsql.Mysql.Result.{Parsed, parsed, undefined, then_parsed, payload_success, payload_need_more}

pub data RowStage : Type 0 where
  guess : RowStage
  lnc_str : LengthString keeping → RowStage

pub record RowParser : Type 0 where
  pub stage : RowStage
  pub column_data : List (Option Bytes)

abbrev pub row_at : RowStage → List (Option Bytes) → RowParser
row_at g cs = record { stage = g; column_data = cs }

abbrev pub new_row : RowParser
new_row = row_at guess []

-- `emplace_back(__M_parser.value())`.
unfoldable pub value_added : List (Option Bytes) → Option Bytes → Bytes → Parsed RowParser
value_added cs none rest = undefined
value_added cs (some v) rest = parsed payload_success (row_at guess (cs ++ some v ∷ [])) rest

-- `case LncStr`, up to the next column.
unfoldable pub lnc_str_case : List (Option Bytes) → LengthString keeping → Bytes → Parsed RowParser
unfolding value_added
lnc_str_case cs p xs =
    then_parsed (length_encoded_string keeping p xs) (λ q. row_at (lnc_str q) cs)
      (λ q rest. value_added cs (string_value keeping q) rest)

-- `case Guess`, up to the next column.
unfoldable pub guess_case : List (Option Bytes) → Bytes → Parsed RowParser
unfolding lnc_str_case
guess_case cs [] = parsed payload_need_more (row_at guess cs) []
guess_case cs (first_byte ∷ rest) =
    if first_byte == 0xfb
    then parsed payload_success (row_at guess (cs ++ none ∷ [])) rest
    else lnc_str_case cs (new_length_string keeping) (first_byte ∷ rest)

row_in : RowStage → List (Option Bytes) → Bytes → Parsed RowParser
row_in guess cs xs = guess_case cs xs
row_in (lnc_str p) cs xs = lnc_str_case cs p xs

unfoldable pub row_column : RowParser → Bytes → Parsed RowParser
unfolding row_in guess_case
row_column s xs = row_in s.stage s.column_data xs

-- `operator()` calls itself once for each column that is still wanted.
unfoldable pub row_columns : ℕ → RowParser → Bytes → Parsed RowParser
row_columns zero s xs = parsed payload_success s xs
row_columns (suc wanted) s xs = elim (row_column s xs) [
  | parsed payload_success s' rest ↦ row_columns wanted s' rest
  | parsed r s' rest ↦ parsed r s' rest
  | undefined ↦ undefined
]

-- A row never has more columns than `column_n`, which is the same at each call.
unfoldable pub row_parser : ℕ → RowParser → Bytes → Parsed RowParser
unfolding row_columns row_column
row_parser column_n s xs = row_columns (column_n - length s.column_data) s xs

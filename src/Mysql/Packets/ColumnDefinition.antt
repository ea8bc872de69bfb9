-- ===== src/Mysql/Packets/ColumnDefinition.antt =====
-- include/chx/sql/mysql/detail/packets/ColumnDefinition41_Packet.hpp.
pub mod RoundTrip
use chxsql.Base.{codes, bytes_eq, ℕ, ◌%◌, ◌^◌, Bytes, [], ◌==◌, if◌then◌else◌, Option, none, some}
use chxsql.Mysql.Basic.{
  Digits, no_digits, fixed_length_integer, LengthString, new_length_string, length_encoded_string,
  string_value, keeping, nop_container,
}
use chxsql.Mysql.Result.{Parsed, parsed, undefined, then_parsed, payload_success, payload_malformed}

pub record ColumnPacket : Type 0 where
  pub name : Bytes
  pub character_set : ℕ
  pub column_length : ℕ
  pub type : ℕ
  pub flags : ℕ
  pub decimals : ℕ

pub data ColumnStage : Type 0 where
  catalog : LengthString keeping → ColumnStage
  schema table org_table : LengthString nop_container → ColumnStage
  name_stage : LengthString keeping → ColumnStage
  org_name : LengthString nop_container → ColumnStage
  fields_length character_set_stage column_length_stage type_stage : Digits → ColumnStage
  flags_stage decimals_stage unused : Digits → ColumnStage

pub record ColumnParser : Type 0 where
  pub stage : ColumnStage
  pub result : ColumnPacket

abbrev pub column_at : ColumnStage → ColumnPacket → ColumnParser
column_at g r = record { stage = g; result = r }

abbrev pub new_column : ColumnParser
new_column =
    column_at (catalog (new_length_string keeping)) (record {
      name = [];
      character_set = 0;
      column_length = 0;
      type = 0;
      flags = 0;
      decimals = 0;
    })

-- `case UnusedNotInDoc`.
unfoldable pub unused_case : ColumnPacket → Digits → Bytes → Parsed ColumnParser
unused_case r p xs =
    then_parsed (fixed_length_integer 2 p xs) (λ q. column_at (unused q) r)
      (λ q rest. parsed payload_success (column_at (unused no_digits) r) rest)

-- `case Decimals`.
unfoldable pub decimals_case : ColumnPacket → Digits → Bytes → Parsed ColumnParser
unfolding unused_case
decimals_case r p xs =
    then_parsed (fixed_length_integer 1 p xs) (λ q. column_at (decimals_stage q) r)
      (λ q rest. unused_case (record r { decimals = q.result % 2 ^ 8 }) no_digits rest)

-- `case Flags`.
unfoldable pub flags_case : ColumnPacket → Digits → Bytes → Parsed ColumnParser
unfolding decimals_case
flags_case r p xs =
    then_parsed (fixed_length_integer 2 p xs) (λ q. column_at (flags_stage q) r)
      (λ q rest. decimals_case (record r { flags = q.result % 2 ^ 16 }) no_digits rest)

-- `case Type`.
unfoldable pub type_case : ColumnPacket → Digits → Bytes → Parsed ColumnParser
unfolding flags_case
type_case r p xs =
    then_parsed (fixed_length_integer 1 p xs) (λ q. column_at (type_stage q) r)
      (λ q rest. flags_case (record r { type = q.result % 2 ^ 8 }) no_digits rest)

-- `case ColumnLength`.
unfoldable pub column_length_case : ColumnPacket → Digits → Bytes → Parsed ColumnParser
unfolding type_case
column_length_case r p xs =
    then_parsed (fixed_length_integer 4 p xs) (λ q. column_at (column_length_stage q) r)
      (λ q rest. type_case (record r { column_length = q.result % 2 ^ 32 }) no_digits rest)

-- `case CharacterSet`.
unfoldable pub character_set_case : ColumnPacket → Digits → Bytes → Parsed ColumnParser
unfolding column_length_case
character_set_case r p xs =
    then_parsed (fixed_length_integer 2 p xs) (λ q. column_at (character_set_stage q) r)
      (λ q rest. column_length_case (record r { character_set = q.result % 2 ^ 16 }) no_digits rest)

-- `case LengthOfFixedLengthFields`.
unfoldable pub fields_length_case : ColumnPacket → Digits → Bytes → Parsed ColumnParser
unfolding character_set_case
fields_length_case r p xs =
    then_parsed (fixed_length_integer 1 p xs) (λ q. column_at (fields_length q) r)
      (λ q rest.
        if q.result == 0x0c
        then character_set_case r no_digits rest
        else parsed payload_malformed (column_at (fields_length q) r) rest)

-- `case OrgName`.
unfoldable pub org_name_case :
    ColumnPacket → LengthString nop_container → Bytes → Parsed ColumnParser
unfolding fields_length_case
org_name_case r p xs =
    then_parsed (length_encoded_string nop_container p xs) (λ q. column_at (org_name q) r)
      (λ q rest. fields_length_case r no_digits rest)

-- What `case Name` does with `parser.value()`.
unfoldable pub name_known : ColumnPacket → Option Bytes → Bytes → Parsed ColumnParser
unfolding org_name_case
name_known r none rest = undefined
name_known r (some v) rest =
    org_name_case (record r { name = v }) (new_length_string nop_container) rest

-- `case Name`.
unfoldable pub name_case : ColumnPacket → LengthString keeping → Bytes → Parsed ColumnParser
unfolding name_known
name_case r p xs =
    then_parsed (length_encoded_string keeping p xs) (λ q. column_at (name_stage q) r)
      (λ q rest. name_known r (string_value keeping q) rest)

-- `case OrgTable`.
unfoldable pub org_table_case :
    ColumnPacket → LengthString nop_container → Bytes → Parsed ColumnParser
unfolding name_case
org_table_case r p xs =
    then_parsed (length_encoded_string nop_container p xs) (λ q. column_at (org_table q) r)
      (λ q rest. name_case r (new_length_string keeping) rest)

-- `case Table`.
unfoldable pub table_case : ColumnPacket → LengthString nop_container → Bytes → Parsed ColumnParser
unfolding org_table_case
table_case r p xs =
    then_parsed (length_encoded_string nop_container p xs) (λ q. column_at (table q) r)
      (λ q rest. org_table_case r (new_length_string nop_container) rest)

-- `case Schema`.
unfoldable pub schema_case : ColumnPacket → LengthString nop_container → Bytes → Parsed ColumnParser
unfolding table_case
schema_case r p xs =
    then_parsed (length_encoded_string nop_container p xs) (λ q. column_at (schema q) r)
      (λ q rest. table_case r (new_length_string nop_container) rest)

-- What `case Catalog` does with `parser.value()`.
unfoldable pub catalog_known : ColumnPacket → Option Bytes → Bytes → Parsed ColumnParser
unfolding schema_case
catalog_known r none rest = undefined
catalog_known r (some val) rest =
    if bytes_eq val (codes "def")
    then schema_case r (new_length_string nop_container) rest
    else parsed payload_malformed (column_at (catalog (new_length_string keeping)) r) rest

-- `case Catalog`.
unfoldable pub catalog_case : ColumnPacket → LengthString keeping → Bytes → Parsed ColumnParser
unfolding catalog_known
catalog_case r p xs =
    then_parsed (length_encoded_string keeping p xs) (λ q. column_at (catalog q) r)
      (λ q rest. catalog_known r (string_value keeping q) rest)

column_in : ColumnStage → ColumnPacket → Bytes → Parsed ColumnParser
column_in (catalog p) r xs = catalog_case r p xs
column_in (schema p) r xs = schema_case r p xs
column_in (table p) r xs = table_case r p xs
column_in (org_table p) r xs = org_table_case r p xs
column_in (name_stage p) r xs = name_case r p xs
column_in (org_name p) r xs = org_name_case r p xs
column_in (fields_length p) r xs = fields_length_case r p xs
column_in (character_set_stage p) r xs = character_set_case r p xs
column_in (column_length_stage p) r xs = column_length_case r p xs
column_in (type_stage p) r xs = type_case r p xs
column_in (flags_stage p) r xs = flags_case r p xs
column_in (decimals_stage p) r xs = decimals_case r p xs
column_in (unused p) r xs = unused_case r p xs

-- `operator()`.
unfoldable pub column_parser : ColumnParser → Bytes → Parsed ColumnParser
unfolding column_in catalog_case
column_parser s xs = column_in s.stage s.result xs

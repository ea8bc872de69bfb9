-- ===== src/Mysql/Packets/ColumnDefinition/RoundTrip.antt =====
-- The layout of a column definition, and its parser.
use chxsql.Base.{
  codes, bytes_eq, ℕ, ◌%◌, ◌^◌, ◌<◌, Bytes, [], ◌∷◌, ◌++◌, ◌≡◌, ap, ◌∙◌, arith, length,
}
use chxsql.Mysql.Basic.RoundTrip.{
  read_one, read_two, fixed_length_integer-to_network4, sign_dropped, length_encoded_string-lenenc,
  keeping-IsContainer, nop_container-IsContainer,
}
use chxsql.Mysql.Basic.{keeping, nop_container, no_digits, new_length_string, string_value}
use chxsql.Mysql.Encode.{fixed_length_integer_to_network, lenenc_str}
use chxsql.Mysql.Packets.ColumnDefinition.{
  ColumnPacket, column_at, new_column, unused, unused_case, decimals_case, flags_case, type_case,
  column_length_case, character_set_case, fields_length_case, org_name_case, name_known, name_case,
  org_table_case, table_case, schema_case, catalog_known, catalog_case, column_parser,
}
use chxsql.Mysql.Result.{parsed, payload_success}

-- The texts of the protocol that the parser drops.
pub record ColumnNames : Type 0 where
  pub schema : Bytes
  pub table : Bytes
  pub org_table : Bytes
  pub org_name : Bytes

abbrev pub column_packet : Bytes → ℕ → ℕ → ℕ → ℕ → ℕ → ColumnPacket
column_packet name charset len type flags decimals = record {
  name = name;
  character_set = charset;
  column_length = len;
  type = type;
  flags = flags;
  decimals = decimals;
}

-- The fields of a fixed length and the two bytes after them, in front of other bytes.
abbrev pub encode_fixed : ColumnPacket → Bytes → Bytes
encode_fixed c rest =
    fixed_length_integer_to_network 2 c.character_set
    ++ (fixed_length_integer_to_network 4 c.column_length
        ++ (c.type
            ∷ (fixed_length_integer_to_network 2 c.flags
                ++ (c.decimals ∷ (fixed_length_integer_to_network 2 0 ++ rest)))))

abbrev pub ValidFixed : ColumnPacket → Type 0
ValidFixed c =
    (c.character_set < 2 ^ 16)
    × (c.column_length < 2 ^ 32)
    × (c.type < 256)
    × (c.flags < 2 ^ 16)
    × (c.decimals < 256)

decimals_read :
    (name : Bytes) (charset len type flags decimals : ℕ) (rest : Bytes)
    → decimals < 256
    → decimals_case
        (column_packet name charset len type flags 0)
        no_digits
        (decimals ∷ (fixed_length_integer_to_network 2 0 ++ rest))
      ≡ parsed payload_success
          (column_at (unused no_digits) (column_packet name charset len type flags decimals))
          rest
unfolding decimals_case unused_case
decimals_read name charset len type flags decimals rest h =
    let same : decimals % 2 ^ 8 ≡ decimals = omega (arith, h) in
    rw (read_one decimals (fixed_length_integer_to_network 2 0 ++ rest) h, decimals_case)
      (rw (read_two 0 rest (omega arith), unused_case)
        (ap
          (λ (v : ℕ).
            parsed payload_success
              (column_at (unused no_digits) (column_packet name charset len type flags v)) rest)
          same))

flags_read :
    (name : Bytes) (charset len type flags decimals : ℕ) (rest : Bytes)
    → flags < 2 ^ 16
    → decimals < 256
    → flags_case (column_packet name charset len type 0 0) no_digits (
        fixed_length_integer_to_network 2 flags
        ++ (decimals ∷ (fixed_length_integer_to_network 2 0 ++ rest)))
      ≡ parsed payload_success
          (column_at (unused no_digits) (column_packet name charset len type flags decimals))
          rest
unfolding flags_case
flags_read name charset len type flags decimals rest h k =
    let after = decimals ∷ (fixed_length_integer_to_network 2 0 ++ rest) in
    let same : flags % 2 ^ 16 ≡ flags = omega (arith, h) in
    rw (read_two flags after h, flags_case)
      (ap (λ (v : ℕ). decimals_case (column_packet name charset len type v 0) no_digits after) same
        ∙ decimals_read name charset len type flags decimals rest k)

type_read :
    (name : Bytes) (charset len type flags decimals : ℕ) (rest : Bytes)
    → type < 256
    → flags < 2 ^ 16
    → decimals < 256
    → type_case (column_packet name charset len 0 0 0) no_digits (
        type
        ∷ (fixed_length_integer_to_network 2 flags
            ++ (decimals ∷ (fixed_length_integer_to_network 2 0 ++ rest))))
      ≡ parsed payload_success
          (column_at (unused no_digits) (column_packet name charset len type flags decimals))
          rest
unfolding type_case
type_read name charset len type flags decimals rest g h k =
    let after =
      fixed_length_integer_to_network 2 flags
      ++ (decimals ∷ (fixed_length_integer_to_network 2 0 ++ rest)) in
    let same : type % 2 ^ 8 ≡ type = omega (arith, g) in
    rw (read_one type after g, type_case)
      (ap (λ (v : ℕ). flags_case (column_packet name charset len v 0 0) no_digits after) same
        ∙ flags_read name charset len type flags decimals rest h k)

fixed_read :
    (name : Bytes) (charset len type flags decimals : ℕ) (rest : Bytes)
    → ValidFixed (column_packet name charset len type flags decimals)
    → character_set_case
        (column_packet name 0 0 0 0 0)
        no_digits
        (encode_fixed (column_packet name charset len type flags decimals) rest)
      ≡ parsed payload_success
          (column_at (unused no_digits) (column_packet name charset len type flags decimals))
          rest
unfolding character_set_case column_length_case
fixed_read name charset len type flags decimals rest v =
    let typed =
      type
      ∷ (fixed_length_integer_to_network 2 flags
          ++ (decimals ∷ (fixed_length_integer_to_network 2 0 ++ rest))) in
    let after = fixed_length_integer_to_network 4 len ++ typed in
    let same : charset % 2 ^ 16 ≡ charset = omega (arith, v.0) in
    rw (read_two charset after v.0, character_set_case)
      (ap (λ (c : ℕ). column_length_case (column_packet name c 0 0 0 0) no_digits after) same
        ∙ rw (fixed_length_integer-to_network4 len typed v.1, column_length_case)
            (ap (λ (n : ℕ). type_case (column_packet name charset n 0 0 0) no_digits typed)
                (sign_dropped len v.1)
              ∙ type_read name charset len type flags decimals rest v.2 v.3 v.4))

-- A column definition in front of other bytes.
abbrev pub encode_column : ColumnNames → ColumnPacket → Bytes → Bytes
encode_column names c rest =
    lenenc_str (codes "def")
    ++ (lenenc_str names.schema
        ++ (lenenc_str names.table
            ++ (lenenc_str names.org_table
                ++ (lenenc_str c.name
                    ++ (lenenc_str names.org_name ++ 0x0c ∷ encode_fixed c rest)))))

-- The texts are short enough for the parser of their length, and the numbers fit their fields.
abbrev pub ValidColumn : ColumnNames → ColumnPacket → Type 0
ValidColumn names c =
    (length names.schema < 2 ^ 24)
    × (length names.table < 2 ^ 24)
    × (length names.org_table < 2 ^ 24)
    × (length c.name < 2 ^ 24)
    × (length names.org_name < 2 ^ 24)
    × ValidFixed c

named :
    (names : ColumnNames) (name : Bytes) (charset len type flags decimals : ℕ) (rest : Bytes)
    → ValidColumn names (column_packet name charset len type flags decimals)
    → name_case (column_packet [] 0 0 0 0 0) (new_length_string keeping) (
        lenenc_str name
        ++ (lenenc_str names.org_name
            ++ 0x0c ∷ encode_fixed (column_packet name charset len type flags decimals) rest))
      ≡ parsed payload_success
          (column_at (unused no_digits) (column_packet name charset len type flags decimals))
          rest
unfolding name_case name_known org_name_case fields_length_case string_value
named names name charset len type flags decimals rest v =
    let fixed = encode_fixed (column_packet name charset len type flags decimals) rest in
    rw
      (
        length_encoded_string-lenenc keeping keeping-IsContainer name
            (lenenc_str names.org_name ++ 0x0c ∷ fixed) v.3,
        name_case,
      )
      (rw
        (
          length_encoded_string-lenenc nop_container nop_container-IsContainer names.org_name
              (0x0c ∷ fixed) v.4,
          org_name_case,
        )
        (rw (read_one 0x0c fixed (omega arith), fields_length_case)
          (fixed_read name charset len type flags decimals rest v.5)))

-- A column definition is read back, whatever follows: its name and the fields of fixed length are
-- those that were laid out. Texts have fewer than 2 ^ 24 bytes, and numbers fit their fields.
pub column_parser-encode :
    (names : ColumnNames) (name : Bytes) (charset len type flags decimals : ℕ) (rest : Bytes)
    → ValidColumn names (column_packet name charset len type flags decimals)
    → column_parser new_column
        (encode_column names (column_packet name charset len type flags decimals) rest)
      ≡ parsed payload_success
          (column_at (unused no_digits) (column_packet name charset len type flags decimals))
          rest
unfolding column_parser catalog_case catalog_known schema_case table_case org_table_case
    string_value bytes_eq
column_parser-encode names name charset len type flags decimals rest v =
    let named_part =
      lenenc_str name
      ++ (lenenc_str names.org_name
          ++ 0x0c ∷ encode_fixed (column_packet name charset len type flags decimals) rest) in
    let org = lenenc_str names.org_table ++ named_part in
    let tabled = lenenc_str names.table ++ org in
    rw
      (
        length_encoded_string-lenenc keeping keeping-IsContainer (codes "def")
            (lenenc_str names.schema ++ tabled) (omega arith),
        catalog_case,
      )
      (rw
        (
          length_encoded_string-lenenc nop_container nop_container-IsContainer names.schema tabled
              v.0,
          schema_case,
        )
        (rw
          (
            length_encoded_string-lenenc nop_container nop_container-IsContainer names.table org
                v.1,
            table_case,
          )
          (rw
            (
              length_encoded_string-lenenc nop_container nop_container-IsContainer names.org_table
                  named_part v.2,
              org_table_case,
            )
            (named names name charset len type flags decimals rest v))))

-- ===== src/Postgres/Rows.antt =====
-- include/chx/sql/postgresql/result.hpp: what is known of a column, the rows and their sets.
-- `data_type_size`, an int16_t, is kept as its bit pattern.
pub mod Access
use chxsql.Base.{ℕ, zero, suc, Bytes, List, [], ◌∷◌, ◌≡◌, refl, ap, length, Option, none, some}

pub record RowDescription : Type 0 where
  pub field_name : Bytes
  pub table_id : ℕ
  pub column_attribute_number : ℕ
  pub field_data_type_id : ℕ
  pub data_type_size : ℕ
  pub type_modifier : ℕ
  pub format_code : ℕ

abbrev pub no_description : RowDescription
no_description = record {
  field_name = [];
  table_id = 0;
  column_attribute_number = 0;
  field_data_type_id = 0;
  data_type_size = 0;
  type_modifier = 0;
  format_code = 0;
}

-- A row: a value or NULL for each column.
abbrev pub Row : Type 0
Row = List (Option Bytes)

-- `result_set`: `__M_desc` and `__M_data`.
pub record ResultSet : Type 0 where
  pub desc : List RowDescription
  pub rows : List Row

-- `result_sets`.
abbrev pub ResultSets : Type 0
ResultSets = List (Option ResultSet)

-- The optional is not empty.
abbrev pub HasSet : Option ResultSet → Type 0
HasSet none = ⊥
HasSet (some r) = Unit

-- `v[i].f = x` and `v[i] = x`. An index past the end, undefined in C++, changes nothing here; the
-- invariants of the callers exclude it.
module _ {ℓ} {A : Type ℓ} where
  unfoldable pub modify : ℕ → (A → A) → List A → List A
  modify i f [] = []
  modify zero f (x ∷ xs) = f x ∷ xs
  modify (suc i) f (x ∷ xs) = x ∷ modify i f xs

  pub length-modify : (i : ℕ) (f : A → A) (xs : List A) → length (modify i f xs) ≡ length xs
  unfolding modify
  length-modify i f [] = refl
  length-modify zero f (x ∷ xs) = refl
  length-modify (suc i) f (x ∷ xs) = ap suc (length-modify i f xs)

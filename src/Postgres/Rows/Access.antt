-- ===== src/Postgres/Rows/Access.antt =====
-- include/chx/sql/postgresql/result.hpp: what a client asks of a result_set, its rows and its
-- iterators. A reference to a result_set is its address, and an iterator to none has address 0.
pub mod Laws
use chxsql.Base.{
  bytes_eq, ℕ, zero, suc, ◌+◌, ◌-◌, ◌%◌, ◌^◌, Bytes, List, [], ◌∷◌, Bool, not, ◌&&◌, ◌==◌, ltb,
  if◌then◌else◌, length, Option, none, some,
}
use chxsql.Postgres.Rows.{RowDescription, Row, ResultSet}

-- What an index gives: `at` throws std::out_of_range past the end, `[]` is undefined there.
pub data Access {ℓ} (A : Type ℓ) : Type ℓ where
  found : A → Access A
  out_of_range undefined_access : Access A

module _ {ℓ} {A : Type ℓ} where
  abbrev pub get_elem? : List A → ℕ → Option A
  get_elem? [] i = none
  get_elem? (x ∷ xs) zero = some x
  get_elem? (x ∷ xs) (suc i) = get_elem? xs i

  abbrev pub access_or : Access A → Option A → Access A
  access_or none_there none = none_there
  access_or none_there (some x) = found x

  -- `v.at(i)` and `v[i]`.
  abbrev pub at : List A → ℕ → Access A
  at xs i = access_or out_of_range (get_elem? xs i)

  abbrev pub subscript : List A → ℕ → Access A
  subscript xs i = access_or undefined_access (get_elem? xs i)

abbrev pub and_then {ℓ ℓ'} : {A : Type ℓ} {B : Type ℓ'} → Access A → (A → Access B) → Access B
and_then (found x) f = f x
and_then out_of_range f = out_of_range
and_then undefined_access f = undefined_access

unfoldable pub column_size : ResultSet → ℕ
column_size r = length r.desc

unfoldable pub tuple_size : ResultSet → ℕ
tuple_size r = length r.rows

unfoldable pub size : ResultSet → ℕ
unfolding tuple_size
size r = tuple_size r

unfoldable pub column : ResultSet → ℕ → Access RowDescription
column r idx = subscript r.desc idx

unfoldable pub column_name : ResultSet → ℕ → Access Bytes
column_name r idx = and_then (subscript r.desc idx) (λ d. found d.field_name)

-- `std::find_if`, less the begin of what it searches.
unfoldable pub find_column : List RowDescription → Bytes → ℕ
unfolding bytes_eq
find_column [] name = 0
find_column (d ∷ ds) name =
    let rest = find_column ds name in if bytes_eq d.field_name name then 0 else suc rest

unfoldable pub column_number : ResultSet → Bytes → ℕ
unfolding find_column
column_number r name = find_column r.desc name

-- `result_set::value` and `result_set::get_value`.
unfoldable pub value : ResultSet → ℕ → ℕ → Access (Option Bytes)
value r row col = and_then (at r.rows row) (λ cells. at cells col)

unfoldable pub get_value : ResultSet → ℕ → ℕ → Access (Option Bytes)
get_value r row col = and_then (subscript r.rows row) (λ cells. subscript cells col)

-- `row`: `__M_par` and `__M_i`.
pub record RowRef : Type 0 where
  pub par : ResultSet
  pub i : ℕ

unfoldable pub row_value : RowRef → ℕ → Access (Option Bytes)
unfolding value
row_value r col = value r.par r.i col

unfoldable pub row_value_named : RowRef → Bytes → Access (Option Bytes)
unfolding value column_number
row_value_named r col_name = value r.par r.i (column_number r.par col_name)

unfoldable pub row_get_value : RowRef → ℕ → Access (Option Bytes)
unfolding get_value
row_get_value r col = get_value r.par r.i col

unfoldable pub row_get_value_named : RowRef → Bytes → Access (Option Bytes)
unfolding get_value column_number
row_get_value_named r col_name = get_value r.par r.i (column_number r.par col_name)

-- `const_row_iterator`: `__M_result`, an address, and `__M_idx`, a std::size_t of 64 bits. A
-- difference_type is its bit pattern.
pub record RowIterator : Type 0 where
  pub result : ℕ
  pub idx : ℕ

unfoldable pub begin : ℕ → RowIterator
begin self = record { result = self; idx = 0 }

unfoldable pub end : ℕ → ResultSet → RowIterator
unfolding size tuple_size
end self r = record { result = self; idx = size r }

-- `operator++` and `operator--`, before their operand.
unfoldable pub increment : RowIterator → RowIterator
increment it = record it { idx = (it.idx + 1) % 2 ^ 64 }

unfoldable pub decrement : RowIterator → RowIterator
decrement it = record it { idx = (it.idx + (2 ^ 64 - 1)) % 2 ^ 64 }

-- `operator+=` and `operator+`, `operator-=` and `operator-`.
unfoldable pub advance : RowIterator → ℕ → RowIterator
advance it n = record it { idx = (it.idx + n) % 2 ^ 64 }

unfoldable pub retreat : RowIterator → ℕ → RowIterator
retreat it n = record it { idx = (it.idx + (2 ^ 64 - n)) % 2 ^ 64 }

-- `operator-` of two iterators.
unfoldable pub distance : RowIterator → RowIterator → ℕ
distance it other = (it.idx + (2 ^ 64 - other.idx)) % 2 ^ 64

-- `operator==` and `operator<`, from which the others are made.
unfoldable pub iterator_eq : RowIterator → RowIterator → Bool
iterator_eq it other = it.result == other.result && it.idx == other.idx

unfoldable pub iterator_ne : RowIterator → RowIterator → Bool
unfolding iterator_eq
iterator_ne it other = not (iterator_eq it other)

unfoldable pub iterator_lt : RowIterator → RowIterator → Bool
iterator_lt it other = ltb it.idx other.idx

-- ===== src/Postgres/Rows/Access/Laws.antt =====
-- The columns that a name finds, and a walk over the rows.
use chxsql.Base.{
  bytes_eq, ℕ, zero, suc, ◌^◌, ◌≤◌, ◌<◌, Bytes, List, [], ◌∷◌, ◌≡◌, refl, ap, ◌==◌, ==_iff,
  Bool-cases, inl, inr, if◌then◌else◌, arith, length, Option, some,
}
use chxsql.Postgres.Rows.{RowDescription, Row, ResultSet}
use chxsql.Postgres.Rows.Access.{
  Access, found, out_of_range, undefined_access, get_elem?, access_or, column_size, size,
  tuple_size, find_column, column_number, value, get_value, RowRef, row_value_named,
  row_get_value_named, RowIterator, begin, end, increment, advance, retreat, distance, iterator_eq,
}

-- A row as the pairs of its columns and its values: the value of the first column of a name.
abbrev pub value_of :
    Access (Option Bytes) → Bytes → List RowDescription → Row → Access (Option Bytes)
value_of missing name [] cells = missing
value_of missing name (d ∷ ds) [] = missing
value_of missing name (d ∷ ds) (cell ∷ cells) =
    let rest = value_of missing name ds cells in
    if bytes_eq d.field_name name then found cell else rest

access_or-find_column :
    (missing : Access (Option Bytes)) (name : Bytes) (ds : List RowDescription) (cells : Row)
    → length cells ≡ length ds
    → access_or missing (get_elem? cells (find_column ds name)) ≡ value_of missing name ds cells
unfolding find_column
access_or-find_column missing name [] [] e = refl
access_or-find_column missing name [] (cell ∷ cells) e = absurd (omega (arith, e))
access_or-find_column missing name (d ∷ ds) [] e = absurd (omega (arith, e))
access_or-find_column missing name (d ∷ ds) (cell ∷ cells) e =
    elim (Bool-cases (bytes_eq d.field_name name)) [
      | inl same ↦ rw same refl
      | inr other ↦ rw other (access_or-find_column missing name ds cells (omega (arith, e)))
    ]

-- For a row with a value for each column, value by a name is the value of the first column of that
-- name and throws out_of_range where no column has it, and get_value is the same but undefined
-- there.
pub row_value_named-first :
    (r : RowRef) (name : Bytes) (cells : Row)
    → get_elem? r.par.rows r.i ≡ some cells
    → length cells ≡ column_size r.par
    → (row_value_named r name ≡ value_of out_of_range name r.par.desc cells)
      × (row_get_value_named r name ≡ value_of undefined_access name r.par.desc cells)
unfolding row_value_named row_get_value_named value get_value column_number column_size
row_value_named-first r name cells there e = (
  rw there (access_or-find_column out_of_range name r.par.desc cells e),
  rw there (access_or-find_column undefined_access name r.par.desc cells e),
)

-- An iterator after some increments.
abbrev pub steps : ℕ → RowIterator → RowIterator
steps zero it = it
steps (suc n) it = increment (steps n it)

idx-steps : (n self : ℕ) → n < 2 ^ 64 → steps n (begin self) ≡ record { result = self; idx = n }
unfolding begin increment
idx-steps zero self h = refl
idx-steps (suc n) self h =
    rw (idx-steps n self (omega (arith, h)))
      (ap (λ (k : ℕ). record { result = self; idx = k }) (omega (arith, h)))

-- In a result set of less than 2 ^ 64 rows, begin after n increments, n at most the number of
-- rows, equals end exactly where n is that number.
pub iterator_eq-steps :
    (r : ResultSet) (self n : ℕ)
    → size r < 2 ^ 64
    → n ≤ size r
    → iterator_eq (steps n (begin self)) (end self r) ≡ (n == size r)
unfolding iterator_eq end size tuple_size
iterator_eq-steps r self n h k =
    rw (idx-steps n self (omega (arith, h, k))) (rw ((==_iff self self).1 refl) refl)

-- An advance is the distance to where it began, and the way back.
pub distance-advance :
    (it : RowIterator) (n : ℕ)
    → it.idx < 2 ^ 64
    → n < 2 ^ 64
    → (distance (advance it n) it ≡ n) × (retreat (advance it n) n ≡ it)
unfolding distance advance retreat
distance-advance it n h k =
    (omega (arith, h, k), ap (λ (i : ℕ). record it { idx = i }) (omega (arith, h, k)))

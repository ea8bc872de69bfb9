-- ===== src/Postgres/Tests/Accessors.antt =====
-- A result set with two columns of one name, and what a client asks of it.
use chxsql.Base.{codes, bytes_eq, Bytes, [], ◌∷◌, ◌≡◌, refl, arith, some, none, ◌==◌}
use chxsql.Postgres.Rows.{RowDescription, Row, ResultSet, no_description}
use chxsql.Postgres.Rows.Access.{
  found, row_value_named, row_get_value_named, begin, end, iterator_eq, size, column_size,
}
use chxsql.Postgres.Rows.Access.Laws.{row_value_named-first, iterator_eq-steps, steps}

abbrev named : Bytes → RowDescription
named name = record no_description { field_name = name }

abbrev second_row : Row
second_row = some (codes "7") ∷ none ∷ some (codes "8") ∷ []

abbrev two_rows : ResultSet
two_rows = record {
  desc = named (codes "id") ∷ named (codes "note") ∷ named (codes "id") ∷ [];
  rows = (none ∷ none ∷ none ∷ []) ∷ second_row ∷ [];
}

row_value_named-first_example :
    (row_value_named (record { par = two_rows; i = 1 }) (codes "id") ≡ found (some (codes "7")))
    × (row_get_value_named (record { par = two_rows; i = 1 }) (codes "id")
        ≡ found (some (codes "7")))
unfolding bytes_eq column_size
row_value_named-first_example =
    row_value_named-first (record { par = two_rows; i = 1 }) (codes "id") second_row refl refl

iterator_eq-steps_example : iterator_eq (steps 2 (begin 1)) (end 1 two_rows) ≡ (2 == 2)
unfolding size
iterator_eq-steps_example = iterator_eq-steps two_rows 1 2 (omega arith) (omega arith)

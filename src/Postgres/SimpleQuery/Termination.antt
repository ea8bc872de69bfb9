-- ===== src/Postgres/SimpleQuery/Termination.antt =====
-- Running the text of a query always ends in a completion or waits for bytes.
use chxsql.Base.{ℕ, ◌+◌, ◌*◌, ◌%◌, ◌^◌, ◌<◌, Bytes, [], ◌∷◌, arith, length, Option, none, some}
use chxsql.Postgres.Frame.Answers.{Live}
use chxsql.Postgres.Msg.DataRow.Streaming.{data_row-IsMessage, new_row-Valid}
use chxsql.Postgres.Msg.DataRow.{data_row}
use chxsql.Postgres.Msg.Fixed.Streaming.{empty_query_response-IsMessage, ready_for_query-IsMessage}
use chxsql.Postgres.Msg.Fixed.{empty_query_response, ready_for_query}
use chxsql.Postgres.Msg.Report.Streaming.{error_response-IsMessage, notice_response-IsMessage}
use chxsql.Postgres.Msg.Report.{error_response, notice_response}
use chxsql.Postgres.Msg.RowDescription.Streaming.{row_description-IsMessage}
use chxsql.Postgres.Msg.RowDescription.{row_description}
use chxsql.Postgres.Msg.Status.{command_complete, parameter_status}
use chxsql.Postgres.Msg.Streaming.{command_complete-IsMessage, parameter_status-IsMessage}
use chxsql.Postgres.Operation.Termination.{
  Settles, Proceeds, Progress, do_rounds-Settles, then_round-Proceeds,
}
use chxsql.Postgres.Operation.{Completion}
use chxsql.Postgres.Rows.{ResultSet, ResultSets, HasSet}
use chxsql.Postgres.SimpleQuery.{
  CurrRespType, unknown, with_data_no_def, with_data_with_def, empty, Query, query_case,
  query_parse, query_round, query_type, Querying, idle, row, columns, empty_query, command, ready,
  error, notice, parameter,
}

-- A set of rows that has its description is there.
abbrev pub Fits : CurrRespType → Option ResultSet → Type 0
Fits with_data_with_def c = HasSet c
Fits _ c = Unit

Fits-some : (t : CurrRespType) (r : ResultSet) → Fits t (some r)
Fits-some with_data_with_def r = tt
Fits-some _ r = tt

abbrev pub ValidQuerying : Option ResultSet → Querying → Type 0
ValidQuerying c idle = Unit
ValidQuerying c (row f) = Live data_row data_row-IsMessage f × HasSet c
ValidQuerying c (columns f) = Live row_description row_description-IsMessage f × HasSet c
ValidQuerying c (empty_query f) = Live empty_query_response empty_query_response-IsMessage f
ValidQuerying c (command f) = Live command_complete command_complete-IsMessage f
ValidQuerying c (ready f) = Live ready_for_query ready_for_query-IsMessage f
ValidQuerying c (error f) = Live error_response error_response-IsMessage f
ValidQuerying c (notice f) = Live notice_response notice_response-IsMessage f
ValidQuerying c (parameter f) = Live parameter_status parameter_status-IsMessage f

-- The parser in use is in a state that it may be in, and the set of rows is there for a parser that
-- stores into it.
abbrev pub ValidQuery : Query → Type 0
ValidQuery s = Fits s.curr_type s.curr × ValidQuerying s.curr s.parsers

abbrev pub choosing : Querying → ℕ
choosing idle = 1
choosing _ = 0

abbrev pub extra : Query → ℕ
extra s = choosing s.parsers

abbrev pub query : ResultSets → Option ResultSet → CurrRespType → Querying → Query
query r c t p = record { result = r; curr = c; curr_type = t; parsers = p }

new_row_valid : (n : ℕ) → n % 2 ^ 16 < 2 ^ 16
new_row_valid n = omega arith

query_type-Proceeds :
    (r : ResultSets) (c : Option ResultSet) (t : CurrRespType) (type : ℕ) (xs : Bytes)
    → Fits t c
    → Proceeds {R = Completion} ValidQuery extra
        (2 * length xs + 1)
        (query_type (query r c t idle) type xs)
unfolding query_type
query_type-Proceeds r none unknown type xs v = ground arith
query_type-Proceeds r (some c) unknown type xs v = ground arith
query_type-Proceeds r none with_data_no_def type xs v = ground arith
query_type-Proceeds r (some c) with_data_no_def type xs v = ground arith
query_type-Proceeds r none with_data_with_def type xs v = absurd v
query_type-Proceeds r (some c) with_data_with_def type xs v =
    let w = new_row-Valid (length c.desc % 2 ^ 16) (new_row_valid (length c.desc)) in ground arith
query_type-Proceeds r none empty type xs v = ground arith
query_type-Proceeds r (some c) empty type xs v = ground arith

query_case-Proceeds :
    (r : ResultSets) (c : Option ResultSet) (t : CurrRespType) (p : Querying) (xs : Bytes)
    → Fits t c
    → ValidQuerying c p
    → Proceeds {R = Completion} ValidQuery extra
        (2 * length xs + choosing p)
        (query_case p (query r c t p) xs)
unfolding query_case
query_case-Proceeds r c t idle [] w v = (w, v)
query_case-Proceeds r c t idle (type ∷ xs) w v = query_type-Proceeds r c t type (type ∷ xs) w
query_case-Proceeds r none t (row f) xs w v = absurd v.1
query_case-Proceeds r (some c) t (row f) xs w v =
    then_round-Proceeds ValidQuery extra data_row data_row-IsMessage f xs _ _ _ _ v.0
      (λ g l. (w, (l, tt))) (λ m rest l. ((Fits-some t _, tt), omega arith))
query_case-Proceeds r none t (columns f) xs w v = absurd v.1
query_case-Proceeds r (some c) t (columns f) xs w v =
    then_round-Proceeds ValidQuery extra row_description row_description-IsMessage f xs _ _ _ _ v.0
      (λ g l. (w, (l, tt))) (λ m rest l. ((tt, tt), omega arith))
query_case-Proceeds r c t (empty_query f) xs w v =
    then_round-Proceeds ValidQuery extra empty_query_response empty_query_response-IsMessage f xs _
      _ _ _ v (λ g l. (w, l)) (λ m rest l. ((w, tt), omega arith))
query_case-Proceeds r c t (command f) xs w v =
    then_round-Proceeds ValidQuery extra command_complete command_complete-IsMessage f xs _ _ _ _ v
      (λ g l. (w, l)) (λ m rest l. ((tt, tt), omega arith))
query_case-Proceeds r c t (ready f) xs w v =
    then_round-Proceeds ValidQuery extra ready_for_query ready_for_query-IsMessage f xs _ _ _ _ v
      (λ g l. (w, l)) (λ m rest l. tt)
query_case-Proceeds r c t (error f) xs w v =
    then_round-Proceeds ValidQuery extra error_response error_response-IsMessage f xs _ _ _ _ v
      (λ g l. (w, l)) (λ m rest l. tt)
query_case-Proceeds r c t (notice f) xs w v =
    then_round-Proceeds ValidQuery extra notice_response notice_response-IsMessage f xs _ _ _ _ v
      (λ g l. (w, l)) (λ m rest l. ((w, tt), omega arith))
query_case-Proceeds r c t (parameter f) xs w v =
    then_round-Proceeds ValidQuery extra parameter_status parameter_status-IsMessage f xs _ _ _ _ v
      (λ g l. (w, l)) (λ m rest l. ((w, tt), omega arith))

pub query_round-Progress : Progress ValidQuery extra query_round
unfolding query_round
query_round-Progress s xs v = query_case-Proceeds s.result s.curr s.curr_type s.parsers xs v.0 v.1

pub choosing_le : (p : Querying) → choosing p < 2
choosing_le idle = omega arith
choosing_le _ = omega arith

-- From a valid state of simple_query, any bytes lead to a completion or to a wish for more bytes
-- in a valid state: no assertion fails, no empty optional is read, and the loop ends within its
-- fuel.
pub query_parse-Settles :
    (s : Query) (xs : Bytes) → ValidQuery s → Settles ValidQuery (query_parse s xs)
unfolding query_parse
query_parse-Settles s xs v =
    do_rounds-Settles ValidQuery extra query_round s xs query_round-Progress v
      (omega (arith, choosing_le s.parsers))

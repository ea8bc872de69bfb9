-- ===== src/Postgres/SimpleQuery/Streaming.antt =====
-- Running the text of a query does not see how the replies are cut into reads.
use chxsql.Base.{ℕ, Bytes, [], ◌∷◌, ◌++◌, ◌≡◌, refl, arith, Option, some, none}
use chxsql.Postgres.Msg.DataRow.Streaming.{data_row-IsMessage}
use chxsql.Postgres.Msg.DataRow.{data_row}
use chxsql.Postgres.Msg.Fixed.Streaming.{empty_query_response-IsMessage, ready_for_query-IsMessage}
use chxsql.Postgres.Msg.Fixed.{empty_query_response, ready_for_query}
use chxsql.Postgres.Msg.Report.Streaming.{error_response-IsMessage, notice_response-IsMessage}
use chxsql.Postgres.Msg.Report.{error_response, notice_response}
use chxsql.Postgres.Msg.RowDescription.Streaming.{row_description-IsMessage}
use chxsql.Postgres.Msg.RowDescription.{row_description}
use chxsql.Postgres.Msg.Status.{command_complete, parameter_status}
use chxsql.Postgres.Msg.Streaming.{command_complete-IsMessage, parameter_status-IsMessage}
use chxsql.Postgres.Operation.Streaming.{shown, resume_round, do_rounds-resumes, then_round-resumes}
use chxsql.Postgres.Rows.{ResultSet, ResultSets}
use chxsql.Postgres.SimpleQuery.Termination.{
  ValidQuerying, ValidQuery, extra, choosing_le, query_round-Progress, query,
}
use chxsql.Postgres.SimpleQuery.{
  CurrRespType, unknown, with_data_no_def, with_data_with_def, empty, Query, query_case,
  query_parse, query_round, query_type, Querying, idle, row, columns, empty_query, command, ready,
  error, notice, parameter,
}

query_type-resumes :
    (r : ResultSets) (c : Option ResultSet) (t : CurrRespType) (type : ℕ) (xs ys : Bytes)
    → shown (query_type (query r c t idle) type (xs ++ ys))
      ≡ shown (resume_round query_round (query_type (query r c t idle) type xs) ys)
unfolding query_type
query_type-resumes r none unknown type xs ys = ground arith
query_type-resumes r (some c) unknown type xs ys = ground arith
query_type-resumes r none with_data_no_def type xs ys = ground arith
query_type-resumes r (some c) with_data_no_def type xs ys = ground arith
query_type-resumes r none with_data_with_def type xs ys = ground arith
query_type-resumes r (some c) with_data_with_def type xs ys = ground arith
query_type-resumes r none empty type xs ys = ground arith
query_type-resumes r (some c) empty type xs ys = ground arith

query_case-resumes :
    (r : ResultSets) (c : Option ResultSet) (t : CurrRespType) (p : Querying) (xs ys : Bytes)
    → ValidQuerying c p
    → shown (query_case p (query r c t p) (xs ++ ys))
      ≡ shown (resume_round query_round (query_case p (query r c t p) xs) ys)
unfolding query_case query_round
query_case-resumes r c t idle [] ys v = refl
query_case-resumes r c t idle (type ∷ xs) ys v = query_type-resumes r c t type (type ∷ xs) ys
query_case-resumes r none t (row f) xs ys v = absurd v.1
query_case-resumes r (some c) t (row f) xs ys v =
    then_round-resumes query_round data_row data_row-IsMessage _ _ _ f xs ys v.0 (λ h zs. refl)
      (λ m rest. refl)
query_case-resumes r none t (columns f) xs ys v = absurd v.1
query_case-resumes r (some c) t (columns f) xs ys v =
    then_round-resumes query_round row_description row_description-IsMessage _ _ _ f xs ys v.0
      (λ h zs. refl) (λ m rest. refl)
query_case-resumes r c t (empty_query f) xs ys v =
    then_round-resumes query_round empty_query_response empty_query_response-IsMessage _ _ _ f xs ys
      v (λ h zs. refl) (λ m rest. refl)
query_case-resumes r c t (command f) xs ys v =
    then_round-resumes query_round command_complete command_complete-IsMessage _ _ _ f xs ys v
      (λ h zs. refl) (λ m rest. refl)
query_case-resumes r c t (ready f) xs ys v =
    then_round-resumes query_round ready_for_query ready_for_query-IsMessage _ _ _ f xs ys v
      (λ h zs. refl) (λ m rest. refl)
query_case-resumes r c t (error f) xs ys v =
    then_round-resumes query_round error_response error_response-IsMessage _ _ _ f xs ys v
      (λ h zs. refl) (λ m rest. refl)
query_case-resumes r c t (notice f) xs ys v =
    then_round-resumes query_round notice_response notice_response-IsMessage _ _ _ f xs ys v
      (λ h zs. refl) (λ m rest. refl)
query_case-resumes r c t (parameter f) xs ys v =
    then_round-resumes query_round parameter_status parameter_status-IsMessage _ _ _ f xs ys v
      (λ h zs. refl) (λ m rest. refl)

-- From a valid state of simple_query, the loop does the same whether its bytes come in one read or
-- in two: the same completion, whose left-over bytes are not compared, or the same state in which
-- it waits for more.
pub query_parse-resumes :
    (s : Query) (xs ys : Bytes)
    → ValidQuery s
    → shown (query_parse s (xs ++ ys)) ≡ shown (resume_round query_parse (query_parse s xs) ys)
unfolding query_parse query_round
query_parse-resumes s xs ys v =
    do_rounds-resumes ValidQuery extra query_round query_round-Progress
      (λ s xs ys v. query_case-resumes s.result s.curr s.curr_type s.parsers xs ys v.1) s xs ys v
      (λ t. omega (arith, choosing_le t.parsers))

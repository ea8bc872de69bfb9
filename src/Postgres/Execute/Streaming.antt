-- ===== src/Postgres/Execute/Streaming.antt =====
-- Running a prepared statement does not see how the replies are cut into reads.
use chxsql.Base.{
  ℕ, Bytes, [], ◌∷◌, ◌++◌, ◌≡◌, refl, arith, ◌==◌, Option, some, none, Bool-cases, inl, inr,
}
use chxsql.Postgres.ErrorCode.{ErrorCode}
use chxsql.Postgres.Msg.DataRow.Streaming.{data_row-IsMessage}
use chxsql.Postgres.Msg.DataRow.{data_row}
use chxsql.Postgres.Msg.Fixed.Streaming.{
  bind_complete-IsMessage, parse_complete-IsMessage, no_data-IsMessage,
  empty_query_response-IsMessage, ready_for_query-IsMessage,
}
use chxsql.Postgres.Msg.Fixed.{
  bind_complete, parse_complete, no_data, empty_query_response, ready_for_query,
}
use chxsql.Postgres.Msg.Report.Streaming.{error_response-IsMessage, notice_response-IsMessage}
use chxsql.Postgres.Msg.Report.{error_response, notice_response}
use chxsql.Postgres.Msg.RowDescription.Streaming.{row_description-IsMessage}
use chxsql.Postgres.Msg.RowDescription.{row_description}
use chxsql.Postgres.Msg.Status.{command_complete}
use chxsql.Postgres.Msg.Streaming.{command_complete-IsMessage}
use chxsql.Postgres.Operation.Streaming.{shown, resume_round, do_rounds-resumes, then_round-resumes}
use chxsql.Postgres.Rows.{ResultSet, ResultSets}
use chxsql.Postgres.Execute.Termination.{
  ValidParsers, ValidExecution, choosing, extra, choosing_le, execution, execute_switch-Proceeds,
  oneshot_switch-Proceeds,
}
use chxsql.Postgres.Operation.{Round, Completion}
use chxsql.Postgres.Execute.{
  Parsers, idle, error, notice, bind, columns, row, nothing, ready, command, empty_query, parsed,
  Expect, expect_parse_complete, bind_complete_next, row_desc_or_no_data, data_row_next,
  empty_query_next, ready_next, Execution, execute_type, oneshot_type, parsers_case, execute_round,
  oneshot_round, execute_parse, oneshot_parse,
}

-- Both operations, by their rounds.
module _ (round : Execution → Bytes → Round Execution Completion) where
  execute_type-resumes :
      (err : ErrorCode) (r : ResultSets) (c : Option ResultSet) (e : Expect) (type : ℕ)
      (xs ys : Bytes)
      → shown (execute_type (execution err r c idle e) type (xs ++ ys))
        ≡ shown (resume_round round (execute_type (execution err r c idle e) type xs) ys)
  unfolding execute_type
  execute_type-resumes err r none expect_parse_complete type xs ys = ground arith
  execute_type-resumes err r none bind_complete_next type xs ys = ground arith
  execute_type-resumes err r none row_desc_or_no_data type xs ys = ground arith
  execute_type-resumes err r none data_row_next type xs ys = ground arith
  execute_type-resumes err r none empty_query_next type xs ys = ground arith
  execute_type-resumes err r none ready_next type xs ys = ground arith
  execute_type-resumes err r (some c) expect_parse_complete type xs ys = ground arith
  execute_type-resumes err r (some c) bind_complete_next type xs ys = ground arith
  execute_type-resumes err r (some c) row_desc_or_no_data type xs ys = ground arith
  execute_type-resumes err r (some c) data_row_next type xs ys = ground arith
  execute_type-resumes err r (some c) empty_query_next type xs ys = ground arith
  execute_type-resumes err r (some c) ready_next type xs ys = ground arith

  oneshot_type-resumes :
      (err : ErrorCode) (r : ResultSets) (c : Option ResultSet) (e : Expect) (type : ℕ)
      (xs ys : Bytes)
      → shown (oneshot_type (execution err r c idle e) type (xs ++ ys))
        ≡ shown (resume_round round (oneshot_type (execution err r c idle e) type xs) ys)
  unfolding oneshot_type
  oneshot_type-resumes err r c e type xs ys = elim (Bool-cases (type == b'1')) [
    | inl h ↦ rw h (answered e)
    | inr h ↦ rw h (execute_type-resumes err r c e type xs ys)
  ]
    where
      answered :
          (e : Expect)
          → shown (oneshot_type (execution err r c idle e) b'1' (xs ++ ys))
            ≡ shown (resume_round round (oneshot_type (execution err r c idle e) b'1' xs) ys)
      answered expect_parse_complete = refl
      answered _ = refl

  parsers_case-resumes :
      (err : ErrorCode) (r : ResultSets) (c : Option ResultSet) (p : Parsers) (e : Expect)
      (xs ys : Bytes)
      → ((q : Parsers) (zs : Bytes)
          → choosing q ≡ 0
          → parsers_case q (execution err r c q e) zs ≡ round (execution err r c q e) zs)
      → choosing p ≡ 0
      → ValidParsers e c p
      → shown (parsers_case p (execution err r c p e) (xs ++ ys))
        ≡ shown (resume_round round (parsers_case p (execution err r c p e) xs) ys)
  unfolding parsers_case
  parsers_case-resumes err r c idle e xs ys k b v = absurd (omega (arith, b))
  parsers_case-resumes err r c (error f) e xs ys k b v =
      then_round-resumes round error_response error_response-IsMessage _ _ _ f xs ys v.0
        (λ h zs. k (error h) zs refl) (λ m rest. refl)
  parsers_case-resumes err r c (notice f) e xs ys k b v =
      then_round-resumes round notice_response notice_response-IsMessage _ _ _ f xs ys v.0
        (λ h zs. k (notice h) zs refl) (λ m rest. refl)
  parsers_case-resumes err r c (bind f) e xs ys k b v =
      then_round-resumes round bind_complete bind_complete-IsMessage _ _ _ f xs ys v.0
        (λ h zs. k (bind h) zs refl) (λ m rest. refl)
  parsers_case-resumes err r c (columns f) e xs ys k b v =
      then_round-resumes round row_description row_description-IsMessage _ _ _ f xs ys v.0
        (λ h zs. k (columns h) zs refl) (λ m rest. refl)
  parsers_case-resumes err r c (nothing f) e xs ys k b v =
      then_round-resumes round no_data no_data-IsMessage _ _ _ f xs ys v.0
        (λ h zs. k (nothing h) zs refl) (λ m rest. refl)
  parsers_case-resumes err r c (ready f) e xs ys k b v =
      then_round-resumes round ready_for_query ready_for_query-IsMessage _ _ _ f xs ys v.0
        (λ h zs. k (ready h) zs refl) (λ m rest. refl)
  parsers_case-resumes err r c (command f) e xs ys k b v =
      then_round-resumes round command_complete command_complete-IsMessage _ _ _ f xs ys v.0
        (λ h zs. k (command h) zs refl) (λ m rest. refl)
  parsers_case-resumes err r c (empty_query f) e xs ys k b v =
      then_round-resumes round empty_query_response empty_query_response-IsMessage _ _ _ f xs ys v.0
        (λ h zs. k (empty_query h) zs refl) (λ m rest. refl)
  parsers_case-resumes err r c (parsed f) e xs ys k b v =
      then_round-resumes round parse_complete parse_complete-IsMessage _ _ _ f xs ys v.0
        (λ h zs. k (parsed h) zs refl) (λ m rest. refl)
  parsers_case-resumes err r none (row f) e xs ys k b v = absurd v.1
  parsers_case-resumes err r (some c) (row f) e xs ys k b v =
      then_round-resumes round data_row data_row-IsMessage _ _ _ f xs ys v.0
        (λ h zs. k (row h) zs refl) (λ m rest. refl)

execute_keeps :
    (err : ErrorCode) (r : ResultSets) (c : Option ResultSet) (e : Expect) (q : Parsers)
    (zs : Bytes)
    → choosing q ≡ 0
    → parsers_case q (execution err r c q e) zs ≡ execute_round (execution err r c q e) zs
unfolding execute_round
execute_keeps err r c e idle zs b = absurd (omega (arith, b))
execute_keeps err r c e _ zs b = refl

execute_switch-resumes :
    (err : ErrorCode) (r : ResultSets) (c : Option ResultSet) (p : Parsers) (e : Expect)
    (xs ys : Bytes)
    → ValidParsers e c p
    → shown (execute_round (execution err r c p e) (xs ++ ys))
      ≡ shown (resume_round execute_round (execute_round (execution err r c p e) xs) ys)
unfolding execute_round
execute_switch-resumes err r c idle e [] ys v = refl
execute_switch-resumes err r c idle e (type ∷ xs) ys v =
    execute_type-resumes execute_round err r c e type (type ∷ xs) ys
execute_switch-resumes err r c p e xs ys v =
    parsers_case-resumes execute_round err r c _ e xs ys (execute_keeps err r c e) refl v

-- From a valid state of execute, the loop does the same whether its bytes come in one read or in
-- two: the same completion, whose left-over bytes are not compared, or the same state in which it
-- waits for more.
pub execute_parse-resumes :
    (s : Execution) (xs ys : Bytes)
    → ValidExecution s
    → shown (execute_parse s (xs ++ ys))
      ≡ shown (resume_round execute_parse (execute_parse s xs) ys)
unfolding execute_parse
execute_parse-resumes s xs ys v =
    do_rounds-resumes ValidExecution extra execute_round
      (λ s xs v. execute_switch-Proceeds s.err s.result s.curr s.parsers s.expect xs v)
      (λ s xs ys v. execute_switch-resumes s.err s.result s.curr s.parsers s.expect xs ys v) s xs ys
      v (λ t. omega (arith, choosing_le t.parsers))

oneshot_keeps :
    (err : ErrorCode) (r : ResultSets) (c : Option ResultSet) (e : Expect) (q : Parsers)
    (zs : Bytes)
    → choosing q ≡ 0
    → parsers_case q (execution err r c q e) zs ≡ oneshot_round (execution err r c q e) zs
unfolding oneshot_round
oneshot_keeps err r c e idle zs b = absurd (omega (arith, b))
oneshot_keeps err r c e _ zs b = refl

oneshot_switch-resumes :
    (err : ErrorCode) (r : ResultSets) (c : Option ResultSet) (p : Parsers) (e : Expect)
    (xs ys : Bytes)
    → ValidParsers e c p
    → shown (oneshot_round (execution err r c p e) (xs ++ ys))
      ≡ shown (resume_round oneshot_round (oneshot_round (execution err r c p e) xs) ys)
unfolding oneshot_round
oneshot_switch-resumes err r c idle e [] ys v = refl
oneshot_switch-resumes err r c idle e (type ∷ xs) ys v =
    oneshot_type-resumes oneshot_round err r c e type (type ∷ xs) ys
oneshot_switch-resumes err r c p e xs ys v =
    parsers_case-resumes oneshot_round err r c _ e xs ys (oneshot_keeps err r c e) refl v

-- From a valid state of oneshot, the loop does the same whether its bytes come in one read or in
-- two: the same completion, whose left-over bytes are not compared, or the same state in which it
-- waits for more.
pub oneshot_parse-resumes :
    (s : Execution) (xs ys : Bytes)
    → ValidExecution s
    → shown (oneshot_parse s (xs ++ ys))
      ≡ shown (resume_round oneshot_parse (oneshot_parse s xs) ys)
unfolding oneshot_parse
oneshot_parse-resumes s xs ys v =
    do_rounds-resumes ValidExecution extra oneshot_round
      (λ s xs v. oneshot_switch-Proceeds s.err s.result s.curr s.parsers s.expect xs v)
      (λ s xs ys v. oneshot_switch-resumes s.err s.result s.curr s.parsers s.expect xs ys v) s xs ys
      v (λ t. omega (arith, choosing_le t.parsers))

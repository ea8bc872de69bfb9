-- ===== src/Postgres/ParseQuery/Streaming.antt =====
-- Preparing a statement does not see how the replies are cut into reads.
use chxsql.Base.{ℕ, Bytes, [], ◌∷◌, ◌++◌, ◌≡◌, refl, arith}
use chxsql.Postgres.Msg.Fixed.Streaming.{parse_complete-IsMessage, ready_for_query-IsMessage}
use chxsql.Postgres.Msg.Fixed.{parse_complete, ready_for_query}
use chxsql.Postgres.Msg.Report.Streaming.{error_response-IsMessage, notice_response-IsMessage}
use chxsql.Postgres.Msg.Report.{error_response, notice_response}
use chxsql.Postgres.Operation.Streaming.{shown, resume_round, do_rounds-resumes, then_round-resumes}
use chxsql.Postgres.ParseQuery.Termination.{
  ValidPreparing, ValidPreparation, extra, choosing_le, prepare_round-Progress,
}
use chxsql.Postgres.ParseQuery.{
  Preparing, idle, parsed, error, notice, ready, Preparation, PrepareStage, wait_for_parse_complete,
  wait_for_ready_for_query, prepare_type, prepare_case, prepare_round, prepare_parse,
}

prepare_type-resumes :
    (g : PrepareStage) (s : Preparation) (type : ℕ) (xs ys : Bytes)
    → shown (prepare_type g s type (xs ++ ys))
      ≡ shown (resume_round prepare_round (prepare_type g s type xs) ys)
unfolding prepare_type
prepare_type-resumes wait_for_parse_complete s type xs ys = ground arith
prepare_type-resumes wait_for_ready_for_query s type xs ys = ground arith

prepare_case-resumes :
    (p : Preparing) (g : PrepareStage) (xs ys : Bytes)
    → ValidPreparing p
    → shown (prepare_case p (record { parsers = p; stage = g }) (xs ++ ys))
      ≡ shown
          (resume_round prepare_round (prepare_case p (record { parsers = p; stage = g }) xs) ys)
unfolding prepare_case prepare_round
prepare_case-resumes idle g [] ys v = refl
prepare_case-resumes idle g (type ∷ xs) ys v = prepare_type-resumes g _ type (type ∷ xs) ys
prepare_case-resumes (parsed f) g xs ys v =
    then_round-resumes prepare_round parse_complete parse_complete-IsMessage _ _ _ f xs ys v
      (λ h zs. refl) (λ m rest. refl)
prepare_case-resumes (error f) g xs ys v =
    then_round-resumes prepare_round error_response error_response-IsMessage _ _ _ f xs ys v
      (λ h zs. refl) (λ m rest. refl)
prepare_case-resumes (notice f) g xs ys v =
    then_round-resumes prepare_round notice_response notice_response-IsMessage _ _ _ f xs ys v
      (λ h zs. refl) (λ m rest. refl)
prepare_case-resumes (ready f) g xs ys v =
    then_round-resumes prepare_round ready_for_query ready_for_query-IsMessage _ _ _ f xs ys v
      (λ h zs. refl) (λ m rest. refl)

-- From a valid state of parse_query, the loop does the same whether its bytes come in one read or
-- in two: the same completion, whose left-over bytes are not compared, or the same state in which
-- it waits for more.
pub prepare_parse-resumes :
    (s : Preparation) (xs ys : Bytes)
    → ValidPreparation s
    → shown (prepare_parse s (xs ++ ys))
      ≡ shown (resume_round prepare_parse (prepare_parse s xs) ys)
unfolding prepare_parse prepare_round
prepare_parse-resumes s xs ys v =
    do_rounds-resumes ValidPreparation extra prepare_round prepare_round-Progress
      (λ s xs ys v. prepare_case-resumes s.parsers s.stage xs ys v) s xs ys v
      (λ t. omega (arith, choosing_le t.parsers))

-- ===== src/Postgres/ParseQuery/Termination.antt =====
-- Preparing a statement always ends in a completion or waits for bytes.
use chxsql.Base.{ℕ, ◌+◌, ◌*◌, ◌<◌, Bytes, [], ◌∷◌, arith, length}
use chxsql.Postgres.Frame.Answers.{Live}
use chxsql.Postgres.Msg.Fixed.Streaming.{parse_complete-IsMessage, ready_for_query-IsMessage}
use chxsql.Postgres.Msg.Fixed.{parse_complete, ready_for_query}
use chxsql.Postgres.Msg.Report.{error_response, notice_response}
use chxsql.Postgres.Msg.Report.Streaming.{error_response-IsMessage, notice_response-IsMessage}
use chxsql.Postgres.Operation.Termination.{
  Settles, Proceeds, Progress, do_rounds-Settles, then_round-Proceeds,
}
use chxsql.Postgres.ErrorCode.{ErrorCode}
use chxsql.Postgres.ParseQuery.{
  Preparing, idle, parsed, error, notice, ready, Preparation, PrepareStage, wait_for_parse_complete,
  wait_for_ready_for_query, prepare_type, prepare_case, prepare_round, prepare_parse,
}

abbrev pub ValidPreparing : Preparing → Type 0
ValidPreparing idle = Unit
ValidPreparing (parsed f) = Live parse_complete parse_complete-IsMessage f
ValidPreparing (error f) = Live error_response error_response-IsMessage f
ValidPreparing (notice f) = Live notice_response notice_response-IsMessage f
ValidPreparing (ready f) = Live ready_for_query ready_for_query-IsMessage f

-- The parser in use is in a state that it may be in.
abbrev pub ValidPreparation : Preparation → Type 0
ValidPreparation s = ValidPreparing s.parsers

abbrev pub choosing : Preparing → ℕ
choosing idle = 1
choosing _ = 0

abbrev pub extra : Preparation → ℕ
extra s = choosing s.parsers

prepare_type-Proceeds :
    (g : PrepareStage) (s : Preparation) (type : ℕ) (xs : Bytes)
    → Proceeds {R = ErrorCode} ValidPreparation extra (2 * length xs + 1) (prepare_type g s type xs)
unfolding prepare_type
prepare_type-Proceeds wait_for_parse_complete s type xs = ground arith
prepare_type-Proceeds wait_for_ready_for_query s type xs = ground arith

prepare_case-Proceeds :
    (p : Preparing) (g : PrepareStage) (xs : Bytes)
    → ValidPreparing p
    → Proceeds {R = ErrorCode} ValidPreparation extra
        (2 * length xs + choosing p)
        (prepare_case p (record { parsers = p; stage = g }) xs)
unfolding prepare_case
prepare_case-Proceeds idle g [] v = tt
prepare_case-Proceeds idle g (type ∷ xs) v = prepare_type-Proceeds g _ type (type ∷ xs)
prepare_case-Proceeds (parsed f) g xs v =
    then_round-Proceeds ValidPreparation extra parse_complete parse_complete-IsMessage f xs _ _ _ _
      v (λ h l. l) (λ m rest l. (tt, omega arith))
prepare_case-Proceeds (error f) g xs v =
    then_round-Proceeds ValidPreparation extra error_response error_response-IsMessage f xs _ _ _ _
      v (λ h l. l) (λ m rest l. tt)
prepare_case-Proceeds (notice f) g xs v =
    then_round-Proceeds ValidPreparation extra notice_response notice_response-IsMessage f xs _ _ _
      _ v (λ h l. l) (λ m rest l. (tt, omega arith))
prepare_case-Proceeds (ready f) g xs v =
    then_round-Proceeds ValidPreparation extra ready_for_query ready_for_query-IsMessage f xs _ _ _
      _ v (λ h l. l) (λ m rest l. tt)

pub prepare_round-Progress : Progress ValidPreparation extra prepare_round
unfolding prepare_round
prepare_round-Progress s xs v = prepare_case-Proceeds s.parsers s.stage xs v

pub choosing_le : (p : Preparing) → choosing p < 2
choosing_le idle = omega arith
choosing_le _ = omega arith

-- From a valid state of parse_query, any bytes lead to a completion or to a wish for more bytes in
-- a valid state: no assertion fails and the loop ends within its fuel.
pub prepare_parse-Settles :
    (s : Preparation) (xs : Bytes)
    → ValidPreparation s
    → Settles ValidPreparation (prepare_parse s xs)
unfolding prepare_parse
prepare_parse-Settles s xs v =
    do_rounds-Settles ValidPreparation extra prepare_round s xs prepare_round-Progress v
      (omega (arith, choosing_le s.parsers))

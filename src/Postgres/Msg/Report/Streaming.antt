-- ===== src/Postgres/Msg/Report/Streaming.antt =====
-- Errors and notices are read the same however their bytes are cut, and their loops end.
use chxsql.Base.{ℕ, suc, Bytes, [], ◌∷◌, ◌++◌, ◌≡◌, refl, arith, length, ◌==◌, if◌then◌else◌}
use chxsql.Postgres.Basic.Arrays.{integer_array-Streams, Wants}
use chxsql.Postgres.Basic.Terminated.{string_nop-Streams}
use chxsql.Postgres.ErrorCode.Values.{Errc}
use chxsql.Postgres.Message.{expects-Definite, IsMessage, of_type-keeps}
use chxsql.Postgres.Outcome.{make_success}
use chxsql.Postgres.Turn.Laws.{
  then_turn-resumes, then_turn-keeps, stop-make_success, make_success-keeps, if-resumes, if-keeps,
}
use chxsql.Postgres.Turn.Loop.{body-BodyStreams}
use chxsql.Postgres.Turn.{
  again, stop, resume_turn, TurnKeeps, TurnKeeps-mono, TurnStreams, BodyStreams,
}
use chxsql.Postgres.Msg.Report.{
  ErrorParser, field_type, sqlstate, skipped, ErrorResponse, six, error_field_turn, sqlstate_turn,
  skip_turn, error_turn, error_response_body, error_response, NoticeResponse, notice_type,
  notice_text, notice_text_turn, notice_turn, notice_response_body, notice_response,
}

abbrev ValidIn : ErrorParser → Type 0
ValidIn field_type = Unit
ValidIn (sqlstate p) = Wants 1 p
ValidIn (skipped n) = Unit

abbrev pub ValidError : ErrorResponse → Type 0
ValidError s = ValidIn s.parsers

abbrev error : Errc → ErrorParser → ErrorResponse
error e p = record { ec = e; parsers = p }

error-resumes :
    (p : ErrorParser) (e : Errc) (xs ys : Bytes)
    → ValidIn p
    → error_turn (error e p) (xs ++ ys) ≡ resume_turn error_turn (error_turn (error e p) xs) ys
unfolding error_turn error_field_turn sqlstate_turn skip_turn
error-resumes field_type e [] ys v = refl
error-resumes field_type e (type ∷ rest) ys v =
    if-resumes error_turn (type == b'C') ys _ _ _ _ refl
      (if-resumes error_turn (type == 0) ys _ _ _ _ (stop-make_success error_turn _ rest ys) refl)
error-resumes (sqlstate p) e xs ys v =
    then_turn-resumes (integer_array-Streams 1 (omega arith)) ValidError error_turn
      (λ q. error e (sqlstate q)) _ (λ a zs. refl) p xs ys v (λ b zs. refl)
error-resumes (skipped n) e xs ys v =
    then_turn-resumes string_nop-Streams ValidError error_turn (λ q. error e (skipped q)) _
      (λ a zs. refl) n xs ys tt (λ b zs. refl)

error-keeps :
    (p : ErrorParser) (e : Errc) (xs : Bytes)
    → ValidIn p
    → TurnKeeps ValidError (length xs) (error_turn (error e p) xs)
unfolding error_turn error_field_turn sqlstate_turn skip_turn
error-keeps field_type e [] v = tt
error-keeps field_type e (type ∷ rest) v =
    let n = suc (length rest) in
    let done = stop (make_success rest) (error e field_type) in
    let skip = again (error e (skipped 0)) rest in
    if-keeps ValidError n (type == b'C') (again (error e (sqlstate six)) rest)
      (if type == 0 then done else skip) (λ h. (omega arith, omega arith))
      (λ h.
        if-keeps ValidError n (type == 0) done skip
          (λ k. make_success-keeps ValidError n (error e field_type) rest) (λ k. (tt, omega arith)))
error-keeps (sqlstate p) e xs v =
    then_turn-keeps (integer_array-Streams 1 (omega arith)) ValidError error_turn
      (λ q. error e (sqlstate q)) _ (λ a zs. refl) p xs v (λ b w. w) (λ b zs. (tt, omega arith))
error-keeps (skipped n) e xs v =
    then_turn-keeps string_nop-Streams ValidError error_turn (λ q. error e (skipped q)) _
      (λ a zs. refl) n xs tt (λ b w. tt) (λ b zs. (tt, omega arith))

error_turn-TurnStreams : TurnStreams ValidError error_turn
error_turn-TurnStreams = record {
  resumes = λ s. error-resumes s.parsers s.ec;
  keeps = λ s. error-keeps s.parsers s.ec;
}

-- From every valid state, the body of a ErrorResponse gives the same answer and the same message
-- whether it comes at once or in pieces, bytes after its end being trailing data; the parser
-- always answers, and is in a valid state while it waits.
pub error_response-BodyStreams : BodyStreams ValidError error_response_body
unfolding error_response_body
error_response-BodyStreams = body-BodyStreams error_turn-TurnStreams

abbrev pub error_response-IsMessage : IsMessage error_response
error_response-IsMessage = record {
  Valid = ValidError;
  typed = of_type-keeps ValidError b'E';
  recognises = λ s. expects-Definite b'E';
  measures = λ s n. tt;
  streams = error_response-BodyStreams;
}

abbrev pub ValidNotice : NoticeResponse → Type 0
ValidNotice s = Unit

notice_text-resumes :
    (n : ℕ) (xs ys : Bytes)
    → notice_text_turn n (xs ++ ys) ≡ resume_turn notice_turn (notice_text_turn n xs) ys
unfolding notice_turn notice_text_turn
notice_text-resumes n xs ys =
    then_turn-resumes string_nop-Streams ValidNotice notice_turn notice_text _ (λ a zs. refl) n xs
      ys tt (λ b zs. refl)

notice_text-keeps : (n : ℕ) (xs : Bytes) → TurnKeeps ValidNotice (length xs) (notice_text_turn n xs)
unfolding notice_turn notice_text_turn
notice_text-keeps n xs =
    then_turn-keeps string_nop-Streams ValidNotice notice_turn notice_text _ (λ a zs. refl) n xs tt
      (λ b w. tt) (λ b zs. (tt, omega arith))

notice-resumes :
    (s : NoticeResponse) (xs ys : Bytes)
    → notice_turn s (xs ++ ys) ≡ resume_turn notice_turn (notice_turn s xs) ys
unfolding notice_turn
notice-resumes notice_type [] ys = refl
notice-resumes notice_type (type ∷ rest) ys =
    if-resumes notice_turn (type == 0) ys _ _ _ _ (stop-make_success notice_turn _ rest ys)
      (notice_text-resumes 0 rest ys)
notice-resumes (notice_text n) xs ys = notice_text-resumes n xs ys

notice-keeps :
    (s : NoticeResponse) (xs : Bytes) → TurnKeeps ValidNotice (length xs) (notice_turn s xs)
unfolding notice_turn
notice-keeps notice_type [] = tt
notice-keeps notice_type (type ∷ rest) =
    let n = suc (length rest) in
    if-keeps ValidNotice n (type == 0) (stop (make_success rest) notice_type)
      (notice_text_turn 0 rest) (λ h. make_success-keeps ValidNotice n notice_type rest)
      (λ h. TurnKeeps-mono ValidNotice (length rest) n _ (omega arith) (notice_text-keeps 0 rest))
notice-keeps (notice_text n) xs = notice_text-keeps n xs

notice_turn-TurnStreams : TurnStreams ValidNotice notice_turn
notice_turn-TurnStreams = record {
  resumes = λ s xs ys v. notice-resumes s xs ys;
  keeps = λ s xs v. notice-keeps s xs;
}

-- From every valid state, the body of a NoticeResponse gives the same answer and the same message
-- whether it comes at once or in pieces, bytes after its end being trailing data; the parser
-- always answers, and is in a valid state while it waits.
pub notice_response-BodyStreams : BodyStreams ValidNotice notice_response_body
unfolding notice_response_body
notice_response-BodyStreams = body-BodyStreams notice_turn-TurnStreams

abbrev pub notice_response-IsMessage : IsMessage notice_response
notice_response-IsMessage = record {
  Valid = ValidNotice;
  typed = of_type-keeps ValidNotice b'N';
  recognises = λ s. expects-Definite b'N';
  measures = λ s n. tt;
  streams = notice_response-BodyStreams;
}

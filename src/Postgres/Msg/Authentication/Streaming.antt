-- ===== src/Postgres/Msg/Authentication/Streaming.antt =====
-- An authentication request is read the same however its bytes are cut, and the loop ends.
use chxsql.Base.{ℕ, suc, ◌<◌, Bytes, [], ◌∷◌, ◌++◌, ◌≡◌, refl, arith, length}
use chxsql.Postgres.Basic.Counted.{integer-Streams}
use chxsql.Postgres.Basic.Terminated.{string_bytes-Streams}
use chxsql.Postgres.Basic.{integer_value}
use chxsql.Postgres.Message.{expects-Definite, IsMessage, of_type-keeps}
use chxsql.Postgres.Outcome.{make_success}
use chxsql.Postgres.Turn.Laws.{
  then_turn-resumes, then_turn-keeps, stop-make_success, make_success-keeps,
}
use chxsql.Postgres.Turn.Loop.{body-BodyStreams}
use chxsql.Postgres.Turn.{resume_turn, TurnKeeps, TurnStreams, BodyStreams}
use chxsql.Postgres.Msg.Authentication.{
  AuthParser, method_parser, salt_parser, mechanism_parser, AuthResult, Auth, method_chosen,
  method_turn, salt_turn, mechanism_turn, auth_turn, authentication_body, authentication,
}

abbrev ValidIn : AuthParser → Type 0
ValidIn (method_parser p) = length p < 4
ValidIn (salt_parser p) = length p < 4
ValidIn (mechanism_parser p) = Unit

abbrev pub ValidAuth : Auth → Type 0
ValidAuth a = ValidIn a.parsers

abbrev auth : AuthResult → AuthParser → Auth
auth r p = record { parsers = p; result = r }

method_chosen-resumes :
    (r : AuthResult) (m : ℕ) (zs ys : Bytes)
    → method_chosen r m (zs ++ ys) ≡ resume_turn auth_turn (method_chosen r m zs) ys
unfolding method_chosen make_success
method_chosen-resumes r m [] ys = ground arith
method_chosen-resumes r m (z ∷ zs) ys = ground arith

method_chosen-keeps :
    (r : AuthResult) (m : ℕ) (zs : Bytes)
    → TurnKeeps ValidAuth (suc (length zs)) (method_chosen r m zs)
unfolding method_chosen make_success
method_chosen-keeps r m [] = ground arith
method_chosen-keeps r m (z ∷ zs) = ground arith

auth-resumes :
    (p : AuthParser) (r : AuthResult) (xs ys : Bytes)
    → ValidIn p
    → auth_turn (auth r p) (xs ++ ys) ≡ resume_turn auth_turn (auth_turn (auth r p) xs) ys
unfolding auth_turn method_turn salt_turn mechanism_turn
auth-resumes (method_parser p) r xs ys v =
    then_turn-resumes (integer-Streams 4) ValidAuth auth_turn (λ q. auth r (method_parser q)) _
      (λ a zs. refl) p xs ys v (λ b zs. method_chosen-resumes r (integer_value 4 b) zs ys)
auth-resumes (salt_parser p) r xs ys v =
    then_turn-resumes (integer-Streams 4) ValidAuth auth_turn (λ q. auth r (salt_parser q)) _
      (λ a zs. refl) p xs ys v (λ b zs. stop-make_success auth_turn _ zs ys)
auth-resumes (mechanism_parser p) r xs ys v =
    then_turn-resumes string_bytes-Streams ValidAuth auth_turn (λ q. auth r (mechanism_parser q)) _
      (λ a zs. refl) p xs ys tt (λ b zs. stop-make_success auth_turn _ zs ys)

auth-keeps :
    (p : AuthParser) (r : AuthResult) (xs : Bytes)
    → ValidIn p
    → TurnKeeps ValidAuth (length xs) (auth_turn (auth r p) xs)
unfolding auth_turn method_turn salt_turn mechanism_turn
auth-keeps (method_parser p) r xs v =
    then_turn-keeps (integer-Streams 4) ValidAuth auth_turn (λ q. auth r (method_parser q)) _
      (λ a zs. refl) p xs v (λ b w. w) (λ b zs. method_chosen-keeps r (integer_value 4 b) zs)
auth-keeps (salt_parser p) r xs v =
    then_turn-keeps (integer-Streams 4) ValidAuth auth_turn (λ q. auth r (salt_parser q)) _
      (λ a zs. refl) p xs v (λ b w. w) (λ b zs. make_success-keeps ValidAuth (suc (length zs)) _ zs)
auth-keeps (mechanism_parser p) r xs v =
    then_turn-keeps string_bytes-Streams ValidAuth auth_turn (λ q. auth r (mechanism_parser q)) _
      (λ a zs. refl) p xs tt (λ b w. tt)
      (λ b zs. make_success-keeps ValidAuth (suc (length zs)) _ zs)

auth_turn-TurnStreams : TurnStreams ValidAuth auth_turn
auth_turn-TurnStreams = record {
  resumes = λ a. auth-resumes a.parsers a.result;
  keeps = λ a. auth-keeps a.parsers a.result;
}

-- The body of an Authentication message gives the same answer however it is cut into pieces, and
-- the parser always answers.
pub authentication-BodyStreams : BodyStreams ValidAuth authentication_body
unfolding authentication_body
authentication-BodyStreams = body-BodyStreams auth_turn-TurnStreams

abbrev pub authentication-IsMessage : IsMessage authentication
authentication-IsMessage = record {
  Valid = ValidAuth;
  typed = of_type-keeps ValidAuth b'R';
  recognises = λ s. expects-Definite b'R';
  measures = λ s n. tt;
  streams = authentication-BodyStreams;
}

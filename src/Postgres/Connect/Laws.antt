-- ===== src/Postgres/Connect/Laws.antt =====
-- Connecting: its ends, and the cutting of the replies into reads.
use chxsql.Base.{
  ℕ, ◌+◌, ◌*◌, ◌^◌, ◌<◌, ◌≡◌, refl, Bytes, ◌++◌, arith, length, inl, inr, Option, none, some,
}
use chxsql.Postgres.Connect.{
  ConnectParameters, Connecting, startup, answered, settling, ConnectEnd, connect_refusal,
  AuthValue, auth_variant, auth_messages, ReadyValue, ready_variant, ready_messages, reports,
  password_request, method_case, send_password, answer_case, startup_value, answered_value,
  settling_value, connect_round, connect_parse,
}
use chxsql.Postgres.Connect.Requests.{password_request_layout}
use chxsql.Postgres.Frame.Answers.{Live}
use chxsql.Postgres.Message.{IsMessage}
use chxsql.Postgres.MessageParser.Laws.{AllFresh, message_parser-Answered, message_parser-resumes}
use chxsql.Postgres.MessageParser.{message_parser}
use chxsql.Postgres.Msg.Authentication.Streaming.{authentication-IsMessage}
use chxsql.Postgres.Msg.Authentication.{
  AuthenticationMethod, trust_or_finished, cleartext_password, authentication_method,
}
use chxsql.Postgres.Msg.Fixed.Streaming.{ready_for_query-IsMessage}
use chxsql.Postgres.Msg.Report.Streaming.{error_response-IsMessage, notice_response-IsMessage}
use chxsql.Postgres.Msg.Streaming.{backend_key_data-IsMessage, parameter_status-IsMessage}
use chxsql.Postgres.Operation.Streaming.{shown, resume_round, do_rounds-resumes, then_reply-resumes}
use chxsql.Postgres.Operation.Termination.{
  Settles, Proceeds, Progress, do_rounds-Settles, then_reply-Proceeds,
}
use chxsql.Postgres.Operation.{Round}
use chxsql.Postgres.Variant.{either-IsMessage}

abbrev reports-IsMessage : IsMessage reports
reports-IsMessage =
    either-IsMessage error_response-IsMessage
      (either-IsMessage parameter_status-IsMessage notice_response-IsMessage)

abbrev pub auth_law : IsMessage auth_variant
auth_law = either-IsMessage authentication-IsMessage reports-IsMessage

abbrev pub ready_law : IsMessage ready_variant
ready_law =
    either-IsMessage ready_for_query-IsMessage
      (either-IsMessage backend_key_data-IsMessage reports-IsMessage)

-- The parser in use is in a state that it may be in.
abbrev pub ValidConnecting : Connecting → Type 0
ValidConnecting (startup f) = Live auth_variant auth_law f
ValidConnecting (answered f) = Live auth_variant auth_law f
ValidConnecting (settling f) = Live ready_variant ready_law f

abbrev none_more : Connecting → ℕ
none_more s = 0

module _ (para : ConnectParameters) where
  -- The password fits its message.
  abbrev pub Fitting : Type 0
  Fitting = 6 + length para.password < 2 ^ 32

  abbrev Goes : ℕ → Round Connecting ConnectEnd → Type 0
  Goes = Proceeds ValidConnecting none_more

  method_case-Proceeds :
      (n : ℕ) (a : AuthenticationMethod) (rest : Bytes) → Fitting → Goes n (method_case para a rest)
  unfolding method_case send_password
  method_case-Proceeds n cleartext_password rest fit =
      let e = password_request_layout para.password fit in rw e tt
  method_case-Proceeds n trust_or_finished rest fit = tt
  method_case-Proceeds n _ rest fit = tt

  startup_value-Proceeds :
      (n : ℕ) (v : AuthValue) (rest : Bytes)
      → Fitting
      → length rest < n
      → Goes (2 * n + 0) (startup_value para v rest)
  unfolding startup_value
  startup_value-Proceeds n (inl auth) rest fit h =
      method_case-Proceeds (2 * n + 0) (authentication_method auth.result) rest fit
  startup_value-Proceeds n (inr (inl err)) rest fit h = tt
  startup_value-Proceeds n (inr (inr _)) rest fit h = ((omega arith, tt, tt), omega arith)

answer_case-Proceeds :
    (n : ℕ) (a : AuthenticationMethod) (rest : Bytes)
    → length rest < n
    → Proceeds ValidConnecting none_more (2 * n + 0) (answer_case a rest)
unfolding answer_case
answer_case-Proceeds n trust_or_finished rest h = ((tt, tt, tt), omega arith)
answer_case-Proceeds n _ rest h = tt

answered_value-Proceeds :
    (n : ℕ) (v : AuthValue) (rest : Bytes)
    → length rest < n
    → Proceeds ValidConnecting none_more (2 * n + 0) (answered_value v rest)
unfolding answered_value
answered_value-Proceeds n (inl auth) rest h =
    answer_case-Proceeds n (authentication_method auth.result) rest h
answered_value-Proceeds n (inr (inl err)) rest h = tt
answered_value-Proceeds n (inr (inr _)) rest h = ((omega arith, tt, tt), omega arith)

settling_value-Proceeds :
    (n : ℕ) (v : ReadyValue) (rest : Bytes)
    → length rest < n
    → Proceeds ValidConnecting none_more (2 * n + 0) (settling_value v rest)
unfolding settling_value
settling_value-Proceeds n (inl ready) rest h = tt
settling_value-Proceeds n (inr (inl key)) rest h = ((tt, tt, tt), omega arith)
settling_value-Proceeds n (inr (inr (inl err))) rest h = tt
settling_value-Proceeds n (inr (inr (inr _))) rest h = ((tt, tt, tt), omega arith)

auth_fresh : AllFresh auth_law.Valid auth_messages
auth_fresh = (omega arith, (tt, (tt, (tt, tt))))

ready_fresh : AllFresh ready_law.Valid ready_messages
ready_fresh = (tt, (omega arith, (tt, (tt, (tt, tt)))))

module _ (para : ConnectParameters) where
  send_password-resumes :
      (raw : Option Bytes) (rest ys : Bytes)
      → shown (send_password para raw (rest ++ ys))
        ≡ shown (resume_round (connect_round para) (send_password para raw rest) ys)
  unfolding send_password
  send_password-resumes none rest ys = refl
  send_password-resumes (some raw) rest ys = refl

  method_case-resumes :
      (a : AuthenticationMethod) (rest ys : Bytes)
      → shown (method_case para a (rest ++ ys))
        ≡ shown (resume_round (connect_round para) (method_case para a rest) ys)
  unfolding method_case
  method_case-resumes cleartext_password rest ys =
      send_password-resumes (password_request para.password) rest ys
  method_case-resumes trust_or_finished rest ys = refl
  method_case-resumes _ rest ys = refl

  answer_case-resumes :
      (a : AuthenticationMethod) (rest ys : Bytes)
      → shown (answer_case a (rest ++ ys))
        ≡ shown (resume_round (connect_round para) (answer_case a rest) ys)
  unfolding answer_case
  answer_case-resumes trust_or_finished rest ys = refl
  answer_case-resumes _ rest ys = refl

  startup_value-resumes :
      (v : AuthValue) (rest ys : Bytes)
      → shown (startup_value para v (rest ++ ys))
        ≡ shown (resume_round (connect_round para) (startup_value para v rest) ys)
  unfolding startup_value
  startup_value-resumes (inl auth) rest ys =
      method_case-resumes (authentication_method auth.result) rest ys
  startup_value-resumes (inr (inl err)) rest ys = refl
  startup_value-resumes (inr (inr _)) rest ys = refl

  answered_value-resumes :
      (v : AuthValue) (rest ys : Bytes)
      → shown (answered_value v (rest ++ ys))
        ≡ shown (resume_round (connect_round para) (answered_value v rest) ys)
  unfolding answered_value
  answered_value-resumes (inl auth) rest ys =
      answer_case-resumes (authentication_method auth.result) rest ys
  answered_value-resumes (inr (inl err)) rest ys = refl
  answered_value-resumes (inr (inr _)) rest ys = refl

  settling_value-resumes :
      (v : ReadyValue) (rest ys : Bytes)
      → shown (settling_value v (rest ++ ys))
        ≡ shown (resume_round (connect_round para) (settling_value v rest) ys)
  unfolding settling_value
  settling_value-resumes (inl ready) rest ys = refl
  settling_value-resumes (inr (inl key)) rest ys = refl
  settling_value-resumes (inr (inr (inl err))) rest ys = refl
  settling_value-resumes (inr (inr (inr _))) rest ys = refl

module _ (para : ConnectParameters) (fit : Fitting para) where
  connect_case-Proceeds :
      (s : Connecting) (xs : Bytes)
      → ValidConnecting s
      → Proceeds ValidConnecting none_more (2 * length xs + 0) (connect_round para s xs)
  unfolding connect_round
  connect_case-Proceeds (startup f) xs v =
      then_reply-Proceeds ValidConnecting none_more auth_variant auth_law
        (message_parser auth_variant auth_messages f xs) xs (2 * length xs + 0) startup
        (startup_value para) connect_refusal
        (message_parser-Answered auth_variant auth_law auth_messages auth_fresh f xs v) (λ g l. l)
        (λ m rest l. startup_value-Proceeds para (length xs) m rest fit l)
  connect_case-Proceeds (answered f) xs v =
      then_reply-Proceeds ValidConnecting none_more auth_variant auth_law
        (message_parser auth_variant auth_messages f xs) xs (2 * length xs + 0) answered
        answered_value connect_refusal
        (message_parser-Answered auth_variant auth_law auth_messages auth_fresh f xs v) (λ g l. l)
        (λ m rest l. answered_value-Proceeds (length xs) m rest l)
  connect_case-Proceeds (settling f) xs v =
      then_reply-Proceeds ValidConnecting none_more ready_variant ready_law
        (message_parser ready_variant ready_messages f xs) xs (2 * length xs + 0) settling
        settling_value connect_refusal
        (message_parser-Answered ready_variant ready_law ready_messages ready_fresh f xs v)
        (λ g l. l) (λ m rest l. settling_value-Proceeds (length xs) m rest l)

  connect_round-Progress : Progress ValidConnecting none_more (connect_round para)
  connect_round-Progress s xs v = connect_case-Proceeds s xs v

  -- With a password that fits its message, from a valid state of connecting, any bytes lead to a
  -- completion, to a request to send or to a wish for more bytes in a valid state: no assertion
  -- fails and the loop ends within its fuel.
  pub connect_parse-Settles :
      (s : Connecting) (xs : Bytes)
      → ValidConnecting s
      → Settles ValidConnecting (connect_parse para s xs)
  unfolding connect_parse
  connect_parse-Settles s xs v =
      do_rounds-Settles ValidConnecting none_more (connect_round para) s xs connect_round-Progress v
        (omega arith)

  connect_round-resumes :
      (s : Connecting) (xs ys : Bytes)
      → ValidConnecting s
      → shown (connect_round para s (xs ++ ys))
        ≡ shown (resume_round (connect_round para) (connect_round para s xs) ys)
  unfolding connect_round
  connect_round-resumes (startup f) xs ys v =
      then_reply-resumes (connect_round para) auth_variant auth_law startup (startup_value para)
        connect_refusal (message_parser auth_variant auth_messages)
        (message_parser auth_variant auth_messages f xs)
        (message_parser auth_variant auth_messages f (xs ++ ys)) ys
        (message_parser-resumes auth_variant auth_law auth_messages auth_fresh f xs ys (v.0, v.1))
        (λ g zs. refl) (λ m rest. startup_value-resumes para m rest ys)
  connect_round-resumes (answered f) xs ys v =
      then_reply-resumes (connect_round para) auth_variant auth_law answered answered_value
        connect_refusal (message_parser auth_variant auth_messages)
        (message_parser auth_variant auth_messages f xs)
        (message_parser auth_variant auth_messages f (xs ++ ys)) ys
        (message_parser-resumes auth_variant auth_law auth_messages auth_fresh f xs ys (v.0, v.1))
        (λ g zs. refl) (λ m rest. answered_value-resumes para m rest ys)
  connect_round-resumes (settling f) xs ys v =
      then_reply-resumes (connect_round para) ready_variant ready_law settling settling_value
        connect_refusal (message_parser ready_variant ready_messages)
        (message_parser ready_variant ready_messages f xs)
        (message_parser ready_variant ready_messages f (xs ++ ys)) ys
        (message_parser-resumes ready_variant ready_law ready_messages ready_fresh f xs ys
          (v.0, v.1))
        (λ g zs. refl) (λ m rest. settling_value-resumes para m rest ys)

  -- With a password that fits its message, from a valid state of connecting, the loop does the
  -- same whether its bytes come in one read or in two: the same end, whose left-over bytes are not
  -- compared, or the same state in which it waits for more.
  pub connect_parse-resumes :
      (s : Connecting) (xs ys : Bytes)
      → ValidConnecting s
      → shown (connect_parse para s (xs ++ ys))
        ≡ shown (resume_round (connect_parse para) (connect_parse para s xs) ys)
  unfolding connect_parse
  connect_parse-resumes s xs ys v =
      do_rounds-resumes ValidConnecting none_more (connect_round para) connect_round-Progress
        connect_round-resumes s xs ys v (λ t. omega arith)

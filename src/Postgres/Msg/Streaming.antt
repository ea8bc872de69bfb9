-- ===== src/Postgres/Msg/Streaming.antt =====
-- The other messages of include/chx/sql/postgresql/detail/msg/ are read the same however their
-- bytes are cut, and their loops end.
use chxsql.Base.{ℕ, suc, ◌<◌, Bytes, ◌++◌, ◌≡◌, refl, true, not, arith, length}
use chxsql.Postgres.Basic.Counted.{integer-Streams}
use chxsql.Postgres.Basic.Terminated.{string_bytes-Streams, string_nop-Streams}
use chxsql.Postgres.Basic.{Integer}
use chxsql.Postgres.Message.{expects-Definite, IsMessage, of_type-keeps}
use chxsql.Postgres.Msg.Status.{
  KeyStage, s1, s2, BackendKeyData, key_turn, backend_key_data_body, backend_key_data,
  CommandComplete, command_turn, command_complete_body, command_complete, ParameterStatus,
  parameter_turn, parameter_status_body, parameter_status,
}
use chxsql.Postgres.Outcome.{make_success}
use chxsql.Postgres.Turn.Laws.{
  then_turn-resumes, then_turn-keeps, stop-make_success, make_success-keeps, if-resumes, if-keeps,
}
use chxsql.Postgres.Turn.Loop.{body-BodyStreams}
use chxsql.Postgres.Turn.{again, stop, resume_turn, TurnKeeps, TurnStreams, BodyStreams}

abbrev pub ValidKey : BackendKeyData → Type 0
ValidKey k = length k.parser < 4

abbrev key : KeyStage → ℕ → ℕ → Integer → BackendKeyData
key st pid secret p = record { process_id = pid; secret_key = secret; stage = st; parser = p }

key-resumes :
    (st : KeyStage) (pid secret : ℕ) (p : Integer) (xs ys : Bytes)
    → length p < 4
    → key_turn (key st pid secret p) (xs ++ ys)
      ≡ resume_turn key_turn (key_turn (key st pid secret p) xs) ys
unfolding key_turn
key-resumes s1 pid secret p xs ys v =
    then_turn-resumes (integer-Streams 4) ValidKey key_turn (key s1 pid secret) _ (λ a zs. refl) p
      xs ys v (λ b zs. refl)
key-resumes s2 pid secret p xs ys v =
    then_turn-resumes (integer-Streams 4) ValidKey key_turn (key s2 pid secret) _ (λ a zs. refl) p
      xs ys v (λ b zs. stop-make_success key_turn _ zs ys)

key-keeps :
    (st : KeyStage) (pid secret : ℕ) (p : Integer) (xs : Bytes)
    → length p < 4
    → TurnKeeps ValidKey (length xs) (key_turn (key st pid secret p) xs)
unfolding key_turn
key-keeps s1 pid secret p xs v =
    then_turn-keeps (integer-Streams 4) ValidKey key_turn (key s1 pid secret) _ (λ a zs. refl) p xs
      v (λ b w. w) (λ b zs. (omega arith, omega arith))
key-keeps s2 pid secret p xs v =
    then_turn-keeps (integer-Streams 4) ValidKey key_turn (key s2 pid secret) _ (λ a zs. refl) p xs
      v (λ b w. w) (λ b zs. make_success-keeps ValidKey (suc (length zs)) _ zs)

key_turn-TurnStreams : TurnStreams ValidKey key_turn
key_turn-TurnStreams = record {
  resumes = λ k. key-resumes k.stage k.process_id k.secret_key k.parser;
  keeps = λ k. key-keeps k.stage k.process_id k.secret_key k.parser;
}

-- From every valid state, the body of a BackendKeyData gives the same answer and the same message
-- whether it comes at once or in pieces, bytes after its end being trailing data; the parser
-- always answers, and is in a valid state while it waits.
pub backend_key_data-BodyStreams : BodyStreams ValidKey backend_key_data_body
unfolding backend_key_data_body
backend_key_data-BodyStreams = body-BodyStreams key_turn-TurnStreams

abbrev pub backend_key_data-IsMessage : IsMessage backend_key_data
backend_key_data-IsMessage = record {
  Valid = ValidKey;
  typed = of_type-keeps ValidKey b'K';
  recognises = λ s. expects-Definite b'K';
  measures = λ s n. expects-Definite 12 n;
  streams = backend_key_data-BodyStreams;
}

abbrev pub ValidCommand : CommandComplete → Type 0
ValidCommand c = Unit

command_turn-TurnStreams : TurnStreams ValidCommand command_turn
unfolding command_turn
command_turn-TurnStreams = record {
  resumes = λ c xs ys v.
      then_turn-resumes string_bytes-Streams ValidCommand command_turn
        (λ q. record c { parser = q }) _ (λ a zs. refl) c.parser xs ys tt
        (λ b zs. stop-make_success command_turn _ zs ys);
  keeps = λ c xs v.
      then_turn-keeps string_bytes-Streams ValidCommand command_turn (λ q. record c { parser = q })
        _ (λ a zs. refl) c.parser xs tt (λ b w. tt)
        (λ b zs. make_success-keeps ValidCommand (suc (length zs)) _ zs);
}

-- From every valid state, the body of a CommandComplete gives the same answer and the same message
-- whether it comes at once or in pieces, bytes after its end being trailing data; the parser
-- always answers, and is in a valid state while it waits.
pub command_complete-BodyStreams : BodyStreams ValidCommand command_complete_body
unfolding command_complete_body
command_complete-BodyStreams = body-BodyStreams command_turn-TurnStreams

abbrev pub command_complete-IsMessage : IsMessage command_complete
command_complete-IsMessage = record {
  Valid = ValidCommand;
  typed = of_type-keeps ValidCommand b'C';
  recognises = λ s. expects-Definite b'C';
  measures = λ s n. tt;
  streams = command_complete-BodyStreams;
}

abbrev pub ValidParameter : ParameterStatus → Type 0
ValidParameter s = Unit

parameter_turn-TurnStreams : TurnStreams ValidParameter parameter_turn
unfolding parameter_turn
parameter_turn-TurnStreams = record {
  resumes = λ s xs ys v.
      then_turn-resumes string_nop-Streams ValidParameter parameter_turn
        (λ q. record s { parser = q }) _ (λ a zs. refl) s.parser xs ys tt
        (λ b zs.
          if-resumes parameter_turn _ ys _ _ _ _ refl (stop-make_success parameter_turn _ zs ys));
  keeps = λ s xs v.
      then_turn-keeps string_nop-Streams ValidParameter parameter_turn
        (λ q. record s { parser = q }) _ (λ a zs. refl) s.parser xs tt (λ b w. tt)
        (λ b zs.
          let s' = record s { parser = b } in
          if-keeps ValidParameter (suc (length zs)) (not s.stage)
            (again (record { stage = true; parser = 0 }) zs) (stop (make_success zs) s')
            (λ e. (tt, omega arith))
            (λ e. make_success-keeps ValidParameter (suc (length zs)) s' zs));
}

-- From every valid state, the body of a ParameterStatus gives the same answer and the same message
-- whether it comes at once or in pieces, bytes after its end being trailing data; the parser
-- always answers, and is in a valid state while it waits.
pub parameter_status-BodyStreams : BodyStreams ValidParameter parameter_status_body
unfolding parameter_status_body
parameter_status-BodyStreams = body-BodyStreams parameter_turn-TurnStreams

abbrev pub parameter_status-IsMessage : IsMessage parameter_status
parameter_status-IsMessage = record {
  Valid = ValidParameter;
  typed = of_type-keeps ValidParameter b'S';
  recognises = λ s. expects-Definite b'S';
  measures = λ s n. tt;
  streams = parameter_status-BodyStreams;
}

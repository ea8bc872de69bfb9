-- ===== src/Postgres/Execute/Termination.antt =====
-- Running a prepared statement always ends in a completion or waits for bytes.
use chxsql.Base.{
  ℕ, ◌+◌, ◌*◌, ◌%◌, ◌^◌, ◌<◌, ◌≡◌, refl, Bytes, [], ◌∷◌, arith, length, ◌==◌, Bool-cases, inl, inr,
  Option, none, some,
}
use chxsql.Postgres.ErrorCode.{ErrorCode}
use chxsql.Postgres.Execute.{
  Parsers, idle, error, notice, bind, columns, row, nothing, ready, command, empty_query, parsed,
  Expect, expect_parse_complete, bind_complete_next, row_desc_or_no_data, data_row_next,
  empty_query_next, ready_next, Execution, execute_type, oneshot_type, parsers_case, execute_round,
  oneshot_round, execute_parse, oneshot_parse,
}
use chxsql.Postgres.Frame.Answers.{Live}
use chxsql.Postgres.Msg.DataRow.Streaming.{data_row-IsMessage, new_row-Valid}
use chxsql.Postgres.Msg.DataRow.{data_row}
use chxsql.Postgres.Msg.Fixed.Streaming.{
  bind_complete-IsMessage, parse_complete-IsMessage, no_data-IsMessage,
  empty_query_response-IsMessage, ready_for_query-IsMessage,
}
use chxsql.Postgres.Msg.Fixed.{
  bind_complete, parse_complete, no_data, empty_query_response, ready_for_query,
}
use chxsql.Postgres.Msg.Report.Streaming.{error_response-IsMessage, notice_response-IsMessage}
use chxsql.Postgres.Msg.Report.{error_response, notice_response}
use chxsql.Postgres.Msg.RowDescription.Streaming.{row_description-IsMessage}
use chxsql.Postgres.Msg.RowDescription.{row_description}
use chxsql.Postgres.Msg.Status.{command_complete}
use chxsql.Postgres.Msg.Streaming.{command_complete-IsMessage}
use chxsql.Postgres.Operation.Termination.{
  Settles, Proceeds, do_rounds-Settles, then_round-Proceeds,
}
use chxsql.Postgres.Operation.{Completion}
use chxsql.Postgres.Rows.{ResultSet, ResultSets, HasSet}

-- Where rows are expected, the set that takes them is there.
abbrev pub Fits : Expect → Option ResultSet → Type 0
Fits data_row_next c = HasSet c
Fits _ c = Unit

-- `columns` is about to make the set, and `command` to take it away.
abbrev pub ValidParsers : Expect → Option ResultSet → Parsers → Type 0
ValidParsers e c idle = Fits e c
ValidParsers e c (error f) = Live error_response error_response-IsMessage f × Fits e c
ValidParsers e c (notice f) = Live notice_response notice_response-IsMessage f × Fits e c
ValidParsers e c (bind f) = Live bind_complete bind_complete-IsMessage f × Fits e c
ValidParsers e c (columns f) = Live row_description row_description-IsMessage f × Unit {0}
ValidParsers e c (row f) = Live data_row data_row-IsMessage f × HasSet c
ValidParsers e c (nothing f) = Live no_data no_data-IsMessage f × Fits e c
ValidParsers e c (ready f) = Live ready_for_query ready_for_query-IsMessage f × Fits e c
ValidParsers e c (command f) = Live command_complete command_complete-IsMessage f × Fits e none
ValidParsers e c (empty_query f) =
    Live empty_query_response empty_query_response-IsMessage f × Fits e c
ValidParsers e c (parsed f) = Live parse_complete parse_complete-IsMessage f × Fits e c

-- The parser in use is in a state that it may be in, and the set of rows is there when it is used.
abbrev pub ValidExecution : Execution → Type 0
ValidExecution s = ValidParsers s.expect s.curr s.parsers

abbrev pub choosing : Parsers → ℕ
choosing idle = 1
choosing _ = 0

abbrev pub extra : Execution → ℕ
extra s = choosing s.parsers

abbrev pub execution : ErrorCode → ResultSets → Option ResultSet → Parsers → Expect → Execution
execution err r c p e = record { err = err; result = r; curr = c; parsers = p; expect = e }

Fits-some : (e : Expect) (r : ResultSet) → Fits e (some r)
Fits-some data_row_next r = tt
Fits-some _ r = tt

new_row_valid : (n : ℕ) → n % 2 ^ 16 < 2 ^ 16
new_row_valid n = omega arith

execute_type-Proceeds :
    (err : ErrorCode) (r : ResultSets) (c : Option ResultSet) (e : Expect) (type : ℕ) (xs : Bytes)
    → Fits e c
    → Proceeds {R = Completion} ValidExecution extra
        (2 * length xs + 1)
        (execute_type (execution err r c idle e) type xs)
unfolding execute_type
execute_type-Proceeds err r none data_row_next type xs v = absurd v
execute_type-Proceeds err r (some c) data_row_next type xs v =
    let w = new_row-Valid (length c.desc % 2 ^ 16) (new_row_valid (length c.desc)) in ground arith
execute_type-Proceeds err r c expect_parse_complete type xs v = ground arith
execute_type-Proceeds err r c bind_complete_next type xs v = ground arith
execute_type-Proceeds err r c row_desc_or_no_data type xs v = ground arith
execute_type-Proceeds err r c empty_query_next type xs v = ground arith
execute_type-Proceeds err r c ready_next type xs v = ground arith

oneshot_type-Proceeds :
    (err : ErrorCode) (r : ResultSets) (c : Option ResultSet) (e : Expect) (type : ℕ) (xs : Bytes)
    → Fits e c
    → Proceeds {R = Completion} ValidExecution extra
        (2 * length xs + 1)
        (oneshot_type (execution err r c idle e) type xs)
unfolding oneshot_type
oneshot_type-Proceeds err r c e type xs v = elim (Bool-cases (type == b'1')) [
  | inl h ↦ rw h (parse_next e v)
  | inr h ↦ rw h (execute_type-Proceeds err r c e type xs v)
]
  where
    parse_next :
        (e : Expect)
        → Fits e c
        → Proceeds {R = Completion} ValidExecution extra
            (2 * length xs + 1)
            (oneshot_type (execution err r c idle e) b'1' xs)
    parse_next expect_parse_complete v = ground arith
    parse_next _ v = tt

parsers_case-Proceeds :
    (err : ErrorCode) (r : ResultSets) (c : Option ResultSet) (p : Parsers) (e : Expect)
    (xs : Bytes)
    → choosing p ≡ 0
    → ValidParsers e c p
    → Proceeds {R = Completion} ValidExecution extra
        (2 * length xs + 0)
        (parsers_case p (execution err r c p e) xs)
unfolding parsers_case
parsers_case-Proceeds err r c idle e xs b v = absurd (omega (arith, b))
parsers_case-Proceeds err r c (error f) e xs b v =
    then_round-Proceeds ValidExecution extra error_response error_response-IsMessage f xs _ _ _ _
      v.0 (λ g l. (l, v.1)) (λ m rest l. (v.1, omega arith))
parsers_case-Proceeds err r c (notice f) e xs b v =
    then_round-Proceeds ValidExecution extra notice_response notice_response-IsMessage f xs _ _ _ _
      v.0 (λ g l. (l, v.1)) (λ m rest l. (v.1, omega arith))
parsers_case-Proceeds err r c (bind f) e xs b v =
    then_round-Proceeds ValidExecution extra bind_complete bind_complete-IsMessage f xs _ _ _ _ v.0
      (λ g l. (l, v.1)) (λ m rest l. (v.1, omega arith))
parsers_case-Proceeds err r c (columns f) e xs b v =
    then_round-Proceeds ValidExecution extra row_description row_description-IsMessage f xs _ _ _ _
      v.0 (λ g l. (l, v.1)) (λ m rest l. (Fits-some e _, omega arith))
parsers_case-Proceeds err r c (nothing f) e xs b v =
    then_round-Proceeds ValidExecution extra no_data no_data-IsMessage f xs _ _ _ _ v.0
      (λ g l. (l, v.1)) (λ m rest l. (v.1, omega arith))
parsers_case-Proceeds err r c (ready f) e xs b v =
    then_round-Proceeds ValidExecution extra ready_for_query ready_for_query-IsMessage f xs _ _ _ _
      v.0 (λ g l. (l, v.1)) (λ m rest l. tt)
parsers_case-Proceeds err r c (command f) e xs b v =
    then_round-Proceeds ValidExecution extra command_complete command_complete-IsMessage f xs _ _ _
      _ v.0 (λ g l. (l, v.1)) (λ m rest l. (v.1, omega arith))
parsers_case-Proceeds err r c (empty_query f) e xs b v =
    then_round-Proceeds ValidExecution extra empty_query_response empty_query_response-IsMessage f
      xs _ _ _ _ v.0 (λ g l. (l, v.1)) (λ m rest l. (v.1, omega arith))
parsers_case-Proceeds err r c (parsed f) e xs b v =
    then_round-Proceeds ValidExecution extra parse_complete parse_complete-IsMessage f xs _ _ _ _
      v.0 (λ g l. (l, v.1)) (λ m rest l. (v.1, omega arith))
parsers_case-Proceeds err r none (row f) e xs b v = absurd v.1
parsers_case-Proceeds err r (some c) (row f) e xs b v =
    then_round-Proceeds ValidExecution extra data_row data_row-IsMessage f xs _ _ _ _ v.0
      (λ g l. (l, v.1)) (λ m rest l. (Fits-some e _, omega arith))

pub execute_switch-Proceeds :
    (err : ErrorCode) (r : ResultSets) (c : Option ResultSet) (p : Parsers) (e : Expect)
    (xs : Bytes)
    → ValidParsers e c p
    → Proceeds {R = Completion} ValidExecution extra
        (2 * length xs + choosing p)
        (execute_round (execution err r c p e) xs)
unfolding execute_round
execute_switch-Proceeds err r c idle e [] v = v
execute_switch-Proceeds err r c idle e (type ∷ xs) v =
    execute_type-Proceeds err r c e type (type ∷ xs) v
execute_switch-Proceeds err r c p e xs v = parsers_case-Proceeds err r c _ e xs refl v

pub oneshot_switch-Proceeds :
    (err : ErrorCode) (r : ResultSets) (c : Option ResultSet) (p : Parsers) (e : Expect)
    (xs : Bytes)
    → ValidParsers e c p
    → Proceeds {R = Completion} ValidExecution extra
        (2 * length xs + choosing p)
        (oneshot_round (execution err r c p e) xs)
unfolding oneshot_round
oneshot_switch-Proceeds err r c idle e [] v = v
oneshot_switch-Proceeds err r c idle e (type ∷ xs) v =
    oneshot_type-Proceeds err r c e type (type ∷ xs) v
oneshot_switch-Proceeds err r c p e xs v = parsers_case-Proceeds err r c _ e xs refl v

pub choosing_le : (p : Parsers) → choosing p < 2
choosing_le idle = omega arith
choosing_le _ = omega arith

-- From a valid state of execute, any bytes lead to a completion or to a wish for more bytes in a
-- valid state: no assertion fails, no empty optional is read, and the loop ends within its fuel.
pub execute_parse-Settles :
    (s : Execution) (xs : Bytes) → ValidExecution s → Settles ValidExecution (execute_parse s xs)
unfolding execute_parse
execute_parse-Settles s xs v =
    do_rounds-Settles ValidExecution extra execute_round s xs
      (λ s xs v. execute_switch-Proceeds s.err s.result s.curr s.parsers s.expect xs v) v
      (omega (arith, choosing_le s.parsers))

-- From a valid state of oneshot, any bytes lead to a completion or to a wish for more bytes in a
-- valid state: no assertion fails, no empty optional is read, and the loop ends within its fuel.
pub oneshot_parse-Settles :
    (s : Execution) (xs : Bytes) → ValidExecution s → Settles ValidExecution (oneshot_parse s xs)
unfolding oneshot_parse
oneshot_parse-Settles s xs v =
    do_rounds-Settles ValidExecution extra oneshot_round s xs
      (λ s xs v. oneshot_switch-Proceeds s.err s.result s.curr s.parsers s.expect xs v) v
      (omega (arith, choosing_le s.parsers))

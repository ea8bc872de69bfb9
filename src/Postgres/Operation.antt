-- ===== src/Postgres/Operation.antt =====
-- What the operations of include/chx/sql/postgresql/detail/ share: the loop of `do_parse`, and the
-- buffer of the connection, of which an operation leaves the unread part to the next one.
pub mod Steps
pub mod Termination
pub mod Streaming
use chxsql.Base.{ℕ, zero, suc, ◌+◌, ◌*◌, Bytes, length, Option, some, none, ◌==◌, if◌then◌else◌}
use chxsql.Postgres.ErrorCode.{ErrorCode}
use chxsql.Postgres.Rows.{ResultSets}
use chxsql.Postgres.Outcome.{parse_success, parse_need_more}
use chxsql.Postgres.Frame.{Frame, Reply, reply, fault}

-- What an operation that gathers result sets completes with.
abbrev pub Completion : Type 0
Completion = ErrorCode × ResultSets

-- One round of the loop: `go_on` is `break`, `read` is `return do_read()`, which drops the buffer,
-- and `complete` is `return cntl().complete(...)` with the bytes that stay in the buffer.
-- `crash` is no C++ value: `assert(false)`, an empty optional read, or no fuel.
pub data Round (S R : Type 0) : Type 0 where
  go_on : S → Bytes → Round S R
  read : S → Round S R
  complete : R → Bytes → Round S R
  crash : Round S R

-- `if (r == ParseSuccess) { … } else if (r == ParseNeedMore) { return do_read(); } else { … }`
-- after a frame parser; `keep` puts the parser back into the state.
abbrev pub then_round :
    {M S R : Type 0} → Reply (Frame M) → (Frame M → S) → (M → Bytes → Round S R) → R → Round S R
then_round (reply parse_success f rest) keep next refusal = next f.result rest
then_round (reply parse_need_more f rest) keep next refusal = read (keep f)
then_round (reply r f rest) keep next refusal = complete refusal rest
then_round fault keep next refusal = crash

pub rounds : {S R : Type 0} → (S → Bytes → Round S R) → ℕ → S → Bytes → Round S R
rounds round zero s xs = crash
rounds round (suc fuel) s xs = elim (round s xs) [
  | go_on s' rest ↦ rounds round fuel s' rest
  | read s' ↦ read s'
  | complete r rest ↦ complete r rest
  | crash ↦ crash
]

-- A message takes two rounds, one to choose its parser and one to run it, and at least a byte.
unfoldable pub do_rounds : {S R : Type 0} → (S → Bytes → Round S R) → S → Bytes → Round S R
unfolding rounds
do_rounds round s xs = rounds round (2 * length xs + 2) s xs

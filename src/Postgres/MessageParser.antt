-- ===== src/Postgres/MessageParser.antt =====
-- include/chx/sql/postgresql/detail/message_parser.hpp: the frame of one of several messages, which
-- its type chooses.
pub mod Laws
pub mod RoundTrip
use chxsql.Base.{ℕ, Bytes, List, [], ◌∷◌, Option, none, some, ◌==◌, if◌then◌else◌}
use chxsql.Postgres.Frame.{
  at_type, at_length, Frame, frame_at, Reply, reply, fault, length_case, staged,
}
use chxsql.Postgres.Message.{Message}
use chxsql.Postgres.Outcome.{
  parse_success, parse_malformed, parse_internal_error, parse_need_more, verdict,
}

-- `msg_type_jump_table`: for each message its `message_type` and the value that
-- `__M_result.emplace<I>()` makes. A later message takes the place of an earlier one of its type.
unfoldable pub jump_table : {S : Type 0} → List (ℕ × S) → ℕ → Option S
jump_table [] type = none
jump_table ((message_type, fresh) ∷ rest) type = elim (jump_table rest type) [
  | some s ↦ some s
  | none ↦ if message_type == type then some fresh else none
]

module _ (m : Message) (messages : List (ℕ × m.State)) where
  -- What follows the jump in `case 0`. The `break` goes round the loop to `case 1`.
  unfoldable pub emplaced : ℕ → m.State → ℕ → Bytes → Reply (Frame m.State)
  emplaced remain s type rest = elim (m.on_message_type s type) [
    | verdict parse_success s' ↦ length_case m remain s' [] rest
    | verdict parse_malformed s' ↦ reply parse_malformed (frame_at (at_length []) remain s') rest
    | verdict parse_internal_error s' ↦
        reply parse_internal_error (frame_at (at_length []) remain s') rest
    | _ ↦ fault
  ]

  -- `case 0`.
  unfoldable pub guess_case : ℕ → m.State → Bytes → Reply (Frame m.State)
  guess_case remain s [] = reply parse_need_more (frame_at at_type remain s) []
  guess_case remain s (type ∷ rest) = elim (jump_table messages type) [
    | some fresh ↦ emplaced remain fresh type rest
    | none ↦ reply parse_malformed (frame_at (at_length []) remain s) rest
  ]

  -- `operator()`.
  unfoldable pub message_parser : Frame m.State → Bytes → Reply (Frame m.State)
  message_parser f xs = staged m guess_case f xs

-- ===== src/Postgres/Frame.antt =====
-- include/chx/sql/postgresql/detail/basic_parser.hpp: the frame of a message, a type byte, a length
-- that counts itself, and a body that is handed to the message.
pub mod Streaming
pub mod RoundTrip
pub mod Answers
use chxsql.Base.{ℕ, ◌-◌, min, Bytes, [], ◌∷◌, length, take, drop, not, ltb, ◌==◌, if◌then◌else◌}
use chxsql.Postgres.Outcome.{
  ParseResult, parse_success, parse_need_more, parse_malformed, parse_malformed_incomplete,
  parse_malformed_trailing_data, parse_internal_error, outcome, Verdict, verdict, stuck,
}
use chxsql.Postgres.Basic.{Integer, integer, integer_value}
use chxsql.Postgres.Message.{Message}

-- The alternatives of `__M_parser`.
pub data FrameStage : Type 0 where
  at_type : FrameStage
  at_length : Integer → FrameStage
  at_body : FrameStage

pub record Frame (S : Type 0) : Type 0 where
  pub stage : FrameStage
  pub body_remain : ℕ
  pub result : S

-- `fault` is `assert(false)`, or a message whose loop ran out of the model's fuel.
pub data Reply (S : Type 0) : Type 0 where
  reply : ParseResult → S → Bytes → Reply S
  fault : Reply S

abbrev pub frame_at : {S : Type 0} → FrameStage → ℕ → S → Frame S
frame_at g n s = record { stage = g; body_remain = n; result = s }

-- `basic_parser(Message&&)`.
abbrev pub new_frame : {S : Type 0} → S → Frame S
new_frame s = frame_at at_type 0 s

module _ (m : Message) where
  -- What `case 2` makes of the message's answer.
  unfoldable pub body_reply : ℕ → Verdict m.State → Bytes → Reply (Frame m.State)
  body_reply remain (verdict parse_success s) rest =
      let f = frame_at at_body remain s in
      if remain == 0 then reply parse_success f rest else reply parse_malformed_trailing_data f rest
  body_reply remain (verdict parse_need_more s) rest =
      let f = frame_at at_body remain s in
      if not (remain == 0)
      then reply parse_need_more f rest
      else reply parse_malformed_incomplete f rest
  body_reply remain (verdict r s) rest = reply r (frame_at at_body remain s) rest
  body_reply remain stuck rest = fault

  -- `case 2`. `on_body` is given the bytes just consumed.
  unfoldable pub body_case : ℕ → m.State → Bytes → Reply (Frame m.State)
  body_case remain s xs =
      let consumed = min remain (length xs) in
      body_reply (remain - consumed) (m.on_body s (take consumed xs)) (drop consumed xs)

  -- What follows the length in `case 1`.
  unfoldable pub length_known : ℕ → m.State → Integer → Bytes → Reply (Frame m.State)
  length_known n s q rest =
      if ltb n 4
      then reply parse_malformed_incomplete (frame_at (at_length q) n s) rest
      else elim (m.on_message_length s n) [
        | parse_success ↦ body_case (n - 4) s rest
        | parse_malformed ↦ reply parse_malformed (frame_at (at_length q) (n - 4) s) rest
        | parse_internal_error ↦ reply parse_internal_error (frame_at (at_length q) (n - 4) s) rest
        | _ ↦ fault
      ]

  -- `case 1`. The `break` goes round the loop to `case 2`.
  unfoldable pub length_case : ℕ → m.State → Integer → Bytes → Reply (Frame m.State)
  length_case remain s p xs = elim (integer 4 p xs) [
    | outcome parse_success q rest ↦ length_known (integer_value 4 q) s q rest
    | outcome parse_need_more q rest ↦ reply parse_need_more (frame_at (at_length q) remain s) rest
    | outcome _ q rest ↦ fault
  ]

  -- `case 0`. The `break` goes round the loop to `case 1`.
  unfoldable pub type_case : ℕ → m.State → Bytes → Reply (Frame m.State)
  type_case remain s [] = reply parse_need_more (frame_at at_type remain s) []
  type_case remain s (type ∷ rest) = elim (m.on_message_type s type) [
    | verdict parse_success s' ↦ length_case remain s' [] rest
    | verdict parse_malformed s' ↦ reply parse_malformed (frame_at at_type remain s') rest
    | verdict parse_internal_error s' ↦ reply parse_internal_error (frame_at at_type remain s') rest
    | _ ↦ fault
  ]

  frame_in :
      (ℕ → m.State → Bytes → Reply (Frame m.State))
      → FrameStage
      → ℕ
      → m.State
      → Bytes
      → Reply (Frame m.State)
  frame_in first at_type remain s xs = first remain s xs
  frame_in first (at_length p) remain s xs = length_case remain s p xs
  frame_in first at_body remain s xs = body_case remain s xs

  -- The switch, over a `case 0`. message_parser.hpp has the same other cases.
  unfoldable pub staged :
      (ℕ → m.State → Bytes → Reply (Frame m.State)) → Frame m.State → Bytes → Reply (Frame m.State)
  unfolding frame_in
  staged first f xs = frame_in first f.stage f.body_remain f.result xs

  -- `operator()`.
  unfoldable pub basic_parser : Frame m.State → Bytes → Reply (Frame m.State)
  basic_parser f xs = staged type_case f xs

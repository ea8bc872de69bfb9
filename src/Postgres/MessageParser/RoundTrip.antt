-- ===== src/Postgres/MessageParser/RoundTrip.antt =====
-- The choice of a parser and a message that is whole.
use chxsql.Base.{ℕ, ◌+◌, ◌^◌, ◌<◌, Bytes, List, ◌∷◌, ◌++◌, ◌≡◌, ap, ◌∙◌, length, append_assoc, some}
use chxsql.Postgres.Basic.{integer_to_network}
use chxsql.Postgres.Frame.RoundTrip.{framed, length_case_framed}
use chxsql.Postgres.Frame.{at_body, frame_at, new_frame, reply, staged}
use chxsql.Postgres.Message.{Message}
use chxsql.Postgres.MessageParser.{jump_table, emplaced, guess_case, message_parser}
use chxsql.Postgres.Outcome.{parse_success, verdict}

module _ (m : Message) (messages : List (ℕ × m.State)) where
  -- A frame of a type in the table, whose message accepts it, is consumed whole.
  pub message_parser-framed :
      (stale fresh s s' : m.State) (type : ℕ) (bs rest : Bytes)
      → jump_table messages type ≡ some fresh
      → m.on_message_type fresh type ≡ verdict parse_success s
      → m.on_message_length s (4 + length bs) ≡ parse_success
      → m.on_body s bs ≡ verdict parse_success s'
      → 4 + length bs < 2 ^ 32
      → message_parser m messages (new_frame stale) (framed type bs ++ rest)
        ≡ reply parse_success (frame_at at_body 0 s') rest
  unfolding message_parser guess_case emplaced staged
  message_parser-framed stale fresh s s' type bs rest j t l e h =
      let split = append_assoc (integer_to_network 4 (4 + length bs)) bs rest in
      ap (λ zs. guess_case m messages 0 stale (type ∷ zs)) split
      ∙ rw (j, guess_case, t, emplaced) (length_case_framed m s s' bs rest l e h)

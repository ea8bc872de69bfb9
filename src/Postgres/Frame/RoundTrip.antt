-- ===== src/Postgres/Frame/RoundTrip.antt =====
-- A whole message in front of any bytes is parsed, and the bytes are left.
use chxsql.Base.{
  ℕ, ◌+◌, ◌-◌, ◌<◌, ◌^◌, min, Bytes, [], ◌∷◌, ◌++◌, ◌≡◌, ap, ◌∙◌, false, arith, length,
  length-append, take-append_add, drop-append_add, append-nil, append_assoc, ltb,
}
use chxsql.Postgres.Basic.RoundTrip.{integer-to_network, integer_value-to_network32}
use chxsql.Postgres.Basic.{integer_to_network}
use chxsql.Postgres.Frame.{
  at_body, frame_at, new_frame, reply, body_reply, body_case, length_known, length_case, type_case,
  basic_parser,
}
use chxsql.Postgres.Message.{Message}
use chxsql.Postgres.Outcome.{parse_success, verdict}

-- The protocol's frame: the type, the length of what follows it, the body.
abbrev pub framed : ℕ → Bytes → Bytes
framed type bs = type ∷ (integer_to_network 4 (4 + length bs) ++ bs)

module _ (m : Message) where
  body_case_framed :
      (s s' : m.State) (bs rest : Bytes)
      → m.on_body s bs ≡ verdict parse_success s'
      → body_case m (length bs) s (bs ++ rest) ≡ reply parse_success (frame_at at_body 0 s') rest
  unfolding body_case body_reply
  body_case_framed s s' bs rest e =
      let c : min (length bs) (length (bs ++ rest)) ≡ length bs + 0 =
        rw length-append (omega arith) in
      let z : length bs - (length bs + 0) ≡ 0 = omega arith in
      rw (c, z, take-append_add, drop-append_add, append-nil, e)

  length_known_framed :
      (s s' : m.State) (q bs rest : Bytes)
      → m.on_message_length s (4 + length bs) ≡ parse_success
      → m.on_body s bs ≡ verdict parse_success s'
      → length_known m (4 + length bs) s q (bs ++ rest)
        ≡ reply parse_success (frame_at at_body 0 s') rest
  unfolding length_known
  length_known_framed s s' q bs rest l e =
      let t : ltb (4 + length bs) 4 ≡ false = ground arith in
      let n : 4 + length bs - 4 ≡ length bs = omega arith in
      rw (t, l, n) (body_case_framed s s' bs rest e)

  pub length_case_framed :
      (s s' : m.State) (bs rest : Bytes)
      → m.on_message_length s (4 + length bs) ≡ parse_success
      → m.on_body s bs ≡ verdict parse_success s'
      → 4 + length bs < 2 ^ 32
      → length_case m 0 s [] (integer_to_network 4 (4 + length bs) ++ (bs ++ rest))
        ≡ reply parse_success (frame_at at_body 0 s') rest
  unfolding length_case
  length_case_framed s s' bs rest l e h =
      let i = integer-to_network 4 (4 + length bs) (bs ++ rest) in
      let n = integer_value-to_network32 (4 + length bs) h in
      rw (i, length_case)
        (ap (λ (k : ℕ). length_known m k s (integer_to_network 4 (4 + length bs)) (bs ++ rest)) n
          ∙ length_known_framed s s' _ bs rest l e)

  -- A frame of a type, a length below 2 ^ 32 and a body that the message accepts is consumed whole
  -- and gives what the message makes of its body, whatever bytes follow.
  pub basic_parser-framed :
      (s s' s'' : m.State) (type : ℕ) (bs rest : Bytes)
      → m.on_message_type s type ≡ verdict parse_success s'
      → m.on_message_length s' (4 + length bs) ≡ parse_success
      → m.on_body s' bs ≡ verdict parse_success s''
      → 4 + length bs < 2 ^ 32
      → basic_parser m (new_frame s) (framed type bs ++ rest)
        ≡ reply parse_success (frame_at at_body 0 s'') rest
  unfolding basic_parser type_case chxsql.Postgres.Frame.staged
  basic_parser-framed s s' s'' type bs rest t l e h =
      let split = append_assoc (integer_to_network 4 (4 + length bs)) bs rest in
      ap (λ zs. type_case m 0 s (type ∷ zs)) split
      ∙ rw (t, type_case) (length_case_framed s' s'' bs rest l e h)

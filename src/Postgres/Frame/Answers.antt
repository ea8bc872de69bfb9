-- ===== src/Postgres/Frame/Answers.antt =====
-- The frame always answers: no assertion fails and no loop runs out of fuel.
use native.Mathlib.Decide.{dec_le}
use chxsql.Base.{
  ℕ, suc, ◌-◌, ◌≤◌, ◌<◌, min, Bytes, [], ◌∷◌, ◌++◌, ◌≡◌, refl, arith, length, take, length-drop,
  ltb, ◌==◌, Bool-cases, inl, inr, ==_iff,
}
use chxsql.Postgres.Basic.Counted.{integer-Streams}
use chxsql.Postgres.Basic.{Integer, integer, integer_value}
use chxsql.Postgres.Frame.{
  FrameStage, at_type, at_length, at_body, Frame, Reply, reply, fault, body_reply, body_case,
  length_known, length_case, type_case, basic_parser, staged, frame_at,
}
use chxsql.Postgres.Frame.Streaming.{StageValid}
use chxsql.Postgres.Message.{Message, IsMessage, Definite, DefiniteVerdict}
use chxsql.Postgres.Outcome.{
  ParseResult, parse_success, parse_need_more, parse_malformed, parse_internal_error, outcome,
  Outcome, Verdict, verdict, stuck, Waits,
}

-- `integer` succeeds or waits.
Answers : Outcome Integer → Type 0
Answers (outcome parse_success q rest) = Unit
Answers (outcome parse_need_more q rest) = Unit
Answers (outcome _ q rest) = ⊥

integer-Answers : (size : ℕ) (got xs : Bytes) → Answers (integer size got xs)
unfolding integer Answers
integer-Answers size got xs =
    let got' = got ++ take (min (length xs) (size - length got)) xs in
    elim (Bool-cases (length got' == size)) [ inl e ↦ rw e tt | inr e ↦ rw e tt ]

module _ (m : Message) (law : IsMessage m) where
  -- A body that is waited for is not at its end.
  abbrev Unfinished : FrameStage → ℕ → Type 0
  Unfinished at_body remain = 0 < remain
  Unfinished g remain = Unit

  -- What holds of a frame between two calls.
  abbrev pub Live : Frame m.State → Type 0
  Live f = law.Valid f.result × StageValid m law f.stage × Unfinished f.stage f.body_remain

  -- The answer to fewer than `n` bytes: a message, which takes some of them, or the wish for more,
  -- or a refusal.
  abbrev pub Answered : ℕ → Reply (Frame m.State) → Type 0
  Answered n (reply parse_success f rest) = length rest < n
  Answered n (reply parse_need_more f rest) = Live f
  Answered n (reply r f rest) = Unit
  Answered n fault = ⊥

  body_reply-Answered :
      (remain n : ℕ) (s : m.State) (bs rest : Bytes)
      → law.Valid s
      → (remain ≡ 0 → length rest < n)
      → Answered n (body_reply m remain (m.on_body s bs) rest)
  unfolding body_reply
  body_reply-Answered remain n s bs rest v h =
      let a = law.streams.answers s bs v in
      go (m.on_body s bs) a.0 a.1 a.2 (λ s' e. law.streams.waits s s' bs v e)
    where
      go :
          (o : Verdict m.State) (r : ParseResult) (s' : m.State)
          → o ≡ verdict r s'
          → ((t : m.State) → o ≡ verdict parse_need_more t → law.Valid t)
          → Answered n (body_reply m remain o rest)
      go (verdict parse_success s) r s' e w = elim (Bool-cases (remain == 0)) [
        | inl z ↦ rw z (h ((==_iff remain 0).0 z))
        | inr z ↦ rw z tt
      ]
      go (verdict parse_need_more s) r s' e w = elim (Bool-cases (remain == 0)) [
        | inl z ↦ rw z tt
        | inr z ↦ rw z (w s refl, tt, ground (arith, z))
      ]
      go (verdict _ s) r s' e w = tt
      go stuck r s' e w = absurd (cc e)

  -- `n` bounds what is left of the input where some of it was read before the body.
  body_case-Answered :
      (remain n : ℕ) (s : m.State) (xs : Bytes)
      → law.Valid s
      → length xs ≤ n
      → (remain ≡ 0 → length xs < n)
      → Answered n (body_case m remain s xs)
  unfolding body_case
  body_case-Answered remain n s xs v h k =
      body_reply-Answered (remain - min remain (length xs)) n s _ _ v (λ e.
        rw length-drop (elim (dec_le remain 0) [
          | yes z ↦ omega (arith, k (omega arith))
          | no z ↦ omega (arith, h)
        ]))

  length_known-Answered :
      (k n : ℕ) (s : m.State) (q : Integer) (rest : Bytes)
      → law.Valid s
      → length rest < n
      → Answered n (length_known m k s q rest)
  unfolding length_known
  length_known-Answered k n s q rest v h = elim (Bool-cases (ltb k 4)) [
    | inl e ↦ rw e tt
    | inr e ↦ rw e (go (m.on_message_length s k) (law.measures s k))
  ]
    where
      go :
          (r : ParseResult)
          → Definite r
          → Answered n (elim r [
            | parse_success ↦ body_case m (k - 4) s rest
            | parse_malformed ↦ reply parse_malformed (frame_at (at_length q) (k - 4) s) rest
            | parse_internal_error ↦
                reply parse_internal_error (frame_at (at_length q) (k - 4) s) rest
            | _ ↦ fault
          ])
      go parse_success d = body_case-Answered (k - 4) n s rest v (omega arith) (λ _. h)
      go parse_malformed d = tt
      go parse_internal_error d = tt
      go _ d = absurd d

  pub length_case-Answered :
      (remain n : ℕ) (s : m.State) (p : Integer) (xs : Bytes)
      → law.Valid s
      → length p < 4
      → length xs ≤ n
      → Answered n (length_case m remain s p xs)
  unfolding length_case Answers
  length_case-Answered remain n s p xs v h k =
      go (integer 4 p xs) (λ q rest e. (integer-Streams 4).consumes p q xs rest h e)
        ((integer-Streams 4).waits p xs h) (integer-Answers 4 p xs)
    where
      go :
          (o : Outcome Integer)
          → ((q : Integer) (rest : Bytes)
              → o ≡ outcome parse_success q rest
              → length rest < length xs)
          → Waits (λ (q : Integer). length q < 4) o
          → Answers o
          → Answered n (elim o [
            | outcome parse_success q rest ↦ length_known m (integer_value 4 q) s q rest
            | outcome parse_need_more q rest ↦
                reply parse_need_more (frame_at (at_length q) remain s) rest
            | outcome _ q rest ↦ fault
          ])
      go (outcome parse_success q rest) c w a =
          let l = c q rest refl in
          length_known-Answered (integer_value 4 q) n s q rest v (omega arith)
      go (outcome parse_need_more q rest) c w a = (v, w, tt)
      go (outcome _ q rest) c w a = absurd a

  type_case-Answered :
      (remain : ℕ) (s : m.State) (xs : Bytes)
      → law.Valid s
      → Answered (length xs) (type_case m remain s xs)
  unfolding type_case
  type_case-Answered remain s [] v = (v, tt, tt)
  type_case-Answered remain s (type ∷ rest) v =
      go (m.on_message_type s type) (λ s' e. law.typed s s' type v e) (law.recognises s type)
    where
      go :
          (o : Verdict m.State)
          → ((s' : m.State) → o ≡ verdict parse_success s' → law.Valid s')
          → DefiniteVerdict o
          → Answered (suc (length rest)) (elim o [
            | verdict parse_success s' ↦ length_case m remain s' [] rest
            | verdict parse_malformed s' ↦ reply parse_malformed (frame_at at_type remain s') rest
            | verdict parse_internal_error s' ↦
                reply parse_internal_error (frame_at at_type remain s') rest
            | _ ↦ fault
          ])
      go (verdict parse_success s') w d =
          length_case-Answered remain (suc (length rest)) s' [] rest (w s' refl) (omega arith)
            (omega arith)
      go (verdict parse_malformed s') w d = tt
      go (verdict parse_internal_error s') w d = tt
      go (verdict _ s') w d = absurd d
      go stuck w d = absurd d

  pub staged-Answered :
      (first : ℕ → m.State → Bytes → Reply (Frame m.State)) (f : Frame m.State) (xs : Bytes)
      → Live f
      → ((n : ℕ) (s : m.State) → law.Valid s → Answered (length xs) (first n s xs))
      → Answered (length xs) (staged m first f xs)
  unfolding staged
  staged-Answered first f xs h start = go f.stage h.1 h.2
    where
      go :
          (g : FrameStage)
          → StageValid m law g
          → Unfinished g f.body_remain
          → Answered (length xs) (staged m first (frame_at g f.body_remain f.result) xs)
      go at_type v u = start f.body_remain f.result h.0
      go (at_length p) v u =
          length_case-Answered f.body_remain (length xs) f.result p xs h.0 v (omega arith)
      go at_body v u =
          body_case-Answered f.body_remain (length xs) f.result xs h.0 (omega arith)
            (λ e. absurd (omega (arith, u)))

  -- From a state in which it may be, the frame parser answers any bytes: it fails no assertion,
  -- takes at least a byte for a message, and is again in such a state where it wants more.
  pub basic_parser-Answered :
      (f : Frame m.State) (xs : Bytes) → Live f → Answered (length xs) (basic_parser m f xs)
  unfolding basic_parser
  basic_parser-Answered f xs h =
      staged-Answered (type_case m) f xs h (λ n s v. type_case-Answered n s xs v)

-- ===== src/Postgres/Frame/Streaming.antt =====
-- The frame of a message is read the same however its bytes are cut.
use native.Mathlib.Decide.{dec_le}
use chxsql.Base.{
  ℕ, zero, suc, ◌+◌, ◌-◌, ◌≤◌, ◌<◌, min, Bytes, [], ◌∷◌, ◌++◌, ◌≡◌, refl, ap, ◌∙◌, false, arith,
  length, take, drop, length-append, take_all, drop_all, take-append_le, drop-append_le,
  take-append_add, drop-append_add, ltb, ◌==◌, Bool-cases, inl, inr,
}
use chxsql.Postgres.Basic.Counted.{integer-Streams}
use chxsql.Postgres.Basic.{Integer, integer, integer_value}
use chxsql.Postgres.Frame.{
  FrameStage, at_type, at_length, at_body, Frame, Reply, reply, fault, body_reply, body_case,
  length_known, length_case, type_case, basic_parser, staged, frame_at,
}
use chxsql.Postgres.Message.{Message, IsMessage}
use chxsql.Postgres.Outcome.{
  ParseResult, parse_success, parse_need_more, parse_malformed, parse_internal_error, outcome,
  Outcome, Verdict, verdict, stuck, make_success, resume_body, resume,
}

-- What the callers make of an answer: of a refusal they keep no more than that it is one.
pub data Observed (S : Type 0) : Type 0 where
  done waiting : S → Bytes → Observed S
  refused : ParseResult → Observed S
  failed : Observed S

abbrev pub observe : {S : Type 0} → Reply S → Observed S
observe (reply parse_success s rest) = done s rest
observe (reply parse_need_more s rest) = waiting s rest
observe (reply r s rest) = refused r
observe fault = failed

abbrev pub resume_reply : {S : Type 0} → (S → Bytes → Reply S) → Reply S → Bytes → Reply S
resume_reply run (reply parse_need_more s rest) ys = run s ys
resume_reply run (reply r s rest) ys = reply r s (rest ++ ys)
resume_reply run fault ys = fault

suc-ne_zero : (n : ℕ) → (suc n == 0) ≡ false
suc-ne_zero n = ground arith

min_left : (n : ℕ) (xs : Bytes) → n ≤ length xs → min n (length xs) ≡ n
min_left n xs h = omega arith

module _ (m : Message) (law : IsMessage m)
    (first : ℕ → m.State → Bytes → Reply (Frame m.State)) where
  -- The body ends within the first piece.
  body_case_whole :
      (remain : ℕ) (s : m.State) (xs : Bytes)
      → remain ≤ length xs
      → body_case m remain s xs ≡ body_reply m 0 (m.on_body s (take remain xs)) (drop remain xs)
  unfolding body_case
  body_case_whole remain s xs h =
      let c = min_left remain xs h in let z : remain - remain ≡ 0 = omega arith in rw (c, z)

  -- The body goes on after it.
  body_case_part :
      (remain : ℕ) (s : m.State) (xs : Bytes)
      → length xs < remain
      → body_case m remain s xs ≡ body_reply m (remain - length xs) (m.on_body s xs) []
  unfolding body_case
  body_case_part remain s xs h =
      let c : min remain (length xs) ≡ length xs = omega arith in
      let a = take_all (length xs) xs (omega arith) in
      let b = drop_all (length xs) xs (omega arith) in rw (c, a, b)

  body_reply_whole :
      (v : Verdict m.State) (rest ys : Bytes)
      → body_reply m 0 v (rest ++ ys) ≡ resume_reply (staged m first) (body_reply m 0 v rest) ys
  unfolding body_reply
  body_reply_whole (verdict parse_success s) rest ys = refl
  body_reply_whole (verdict parse_need_more s) rest ys = refl
  body_reply_whole (verdict _ s) rest ys = refl
  body_reply_whole stuck rest ys = refl

  -- More of the body after a first piece that did not end it: `n` bytes are still missing.
  body_reply_part :
      (v : Verdict m.State) (n : ℕ) (ys : Bytes)
      → 0 < n
      → observe (
          body_reply m
            (n - min n (length ys))
            (resume_body m.on_body v (take (min n (length ys)) ys))
            (drop (min n (length ys)) ys))
        ≡ observe (resume_reply (staged m first) (body_reply m n v []) ys)
  unfolding body_reply body_case staged make_success
  body_reply_part v zero ys h = absurd (omega arith)
  body_reply_part (verdict parse_success s) (suc n) [] h =
      let e : min (suc n) 0 ≡ 0 = omega arith in
      let e' : suc n - 0 ≡ suc n = omega arith in rw (e, e', suc-ne_zero n)
  body_reply_part (verdict parse_success s) (suc n) (y ∷ ys) h =
      let e : min (suc n) (suc (length ys)) ≡ suc (min n (length ys)) = omega arith in
      rw (e, suc-ne_zero n)
  body_reply_part (verdict parse_need_more s) (suc n) ys h = rw (suc-ne_zero n)
  body_reply_part (verdict _ s) (suc n) ys h = refl
  body_reply_part stuck (suc n) ys h = refl

  body_case-resumes :
      (remain : ℕ) (s : m.State) (xs ys : Bytes)
      → law.Valid s
      → observe (body_case m remain s (xs ++ ys))
        ≡ observe (resume_reply (staged m first) (body_case m remain s xs) ys)
  body_case-resumes remain s xs ys v = elim (dec_le remain (length xs)) [
    | yes h ↦ rw (
      body_case_whole remain s xs h,
      body_case_whole remain s (xs ++ ys) (rw length-append (omega arith)),
      take-append_le remain xs ys h,
      drop-append_le remain xs ys h,
      body_reply_whole,
    )
    | no h ↦
        let n = remain - length xs in
        let c = min n (length ys) in
        let e : min remain (length (xs ++ ys)) ≡ length xs + c = rw length-append (omega arith) in
        let e' : remain - (length xs + c) ≡ n - c = omega arith in
        rw (body_case_part remain s xs (omega arith)) (
          unfold body_case in
          (rw (e, e', take-append_add, drop-append_add, law.streams.resumes s xs (take c ys) v)
            (body_reply_part (m.on_body s xs) n ys (omega arith))))
  ]

  length_known-resumes :
      (n : ℕ) (s : m.State) (q : Integer) (rest ys : Bytes)
      → law.Valid s
      → observe (length_known m n s q (rest ++ ys))
        ≡ observe (resume_reply (staged m first) (length_known m n s q rest) ys)
  unfolding length_known
  length_known-resumes n s q rest ys v = elim (Bool-cases (ltb n 4)) [
    | inl e ↦ rw e
    | inr e ↦ rw e (go (m.on_message_length s n))
  ]
    where
      after : ParseResult → Bytes → Reply (Frame m.State)
      after r zs = elim r [
        | parse_success ↦ body_case m (n - 4) s zs
        | parse_malformed ↦ reply parse_malformed (frame_at (at_length q) (n - 4) s) zs
        | parse_internal_error ↦ reply parse_internal_error (frame_at (at_length q) (n - 4) s) zs
        | _ ↦ fault
      ]

      go :
          (r : ParseResult)
          → observe (after r (rest ++ ys))
            ≡ observe (resume_reply (staged m first) (after r rest) ys)
      go parse_success = body_case-resumes (n - 4) s rest ys v
      go _ = refl

  pub length_case-resumes :
      (remain : ℕ) (s : m.State) (p : Integer) (xs ys : Bytes)
      → law.Valid s
      → length p < 4
      → observe (length_case m remain s p (xs ++ ys))
        ≡ observe (resume_reply (staged m first) (length_case m remain s p xs) ys)
  unfolding length_case staged
  length_case-resumes remain s p xs ys v h =
      ap (λ o. observe (after o)) ((integer-Streams 4).resumes p xs ys h) ∙ go (integer 4 p xs)
    where
      after : Outcome Integer → Reply (Frame m.State)
      after o = elim o [
        | outcome parse_success q rest ↦ length_known m (integer_value 4 q) s q rest
        | outcome parse_need_more q rest ↦
            reply parse_need_more (frame_at (at_length q) remain s) rest
        | outcome _ q rest ↦ fault
      ]

      go :
          (o : Outcome Integer)
          → observe (after (resume (integer 4) o ys))
            ≡ observe (resume_reply (staged m first) (after o) ys)
      go (outcome parse_success q rest) = length_known-resumes (integer_value 4 q) s q rest ys v
      go (outcome _ q rest) = refl

module _ (m : Message) (law : IsMessage m) where
  type_case-resumes :
      (remain : ℕ) (s : m.State) (xs ys : Bytes)
      → law.Valid s
      → observe (type_case m remain s (xs ++ ys))
        ≡ observe (resume_reply (basic_parser m) (type_case m remain s xs) ys)
  unfolding type_case basic_parser staged
  type_case-resumes remain s [] ys v = refl
  type_case-resumes remain s (type ∷ rest) ys v =
      go (m.on_message_type s type) (λ s' e. law.typed s s' type v e)
    where
      after : Verdict m.State → Bytes → Reply (Frame m.State)
      after o zs = elim o [
        | verdict parse_success s' ↦ length_case m remain s' [] zs
        | verdict parse_malformed s' ↦ reply parse_malformed (frame_at at_type remain s') zs
        | verdict parse_internal_error s' ↦
            reply parse_internal_error (frame_at at_type remain s') zs
        | _ ↦ fault
      ]

      go :
          (o : Verdict m.State)
          → ((s' : m.State) → o ≡ verdict parse_success s' → law.Valid s')
          → observe (after o (rest ++ ys))
            ≡ observe (resume_reply (basic_parser m) (after o rest) ys)
      go (verdict parse_success s') w =
          length_case-resumes m law (type_case m) remain s' [] rest ys (w s' refl) (omega arith)
      go (verdict _ s') w = refl
      go stuck w = refl

  abbrev pub StageValid : FrameStage → Type 0
  StageValid at_type = Unit
  StageValid (at_length p) = length p < 4
  StageValid at_body = Unit

  -- The frame waits where it may.
  abbrev pub ValidFrame : Frame m.State → Type 0
  ValidFrame f = law.Valid f.result × StageValid f.stage

  -- The switch is as indifferent to the cut as its `case 0`.
  pub staged-resumes :
      (first : ℕ → m.State → Bytes → Reply (Frame m.State)) (f : Frame m.State) (xs ys : Bytes)
      → ValidFrame f
      → ((n : ℕ) (s : m.State)
          → law.Valid s
          → observe (first n s (xs ++ ys))
            ≡ observe (resume_reply (staged m first) (first n s xs) ys))
      → observe (staged m first f (xs ++ ys))
        ≡ observe (resume_reply (staged m first) (staged m first f xs) ys)
  unfolding staged
  staged-resumes first f xs ys v h = go f.stage v.1
    where
      go :
          (g : FrameStage)
          → StageValid g
          → observe (staged m first (frame_at g f.body_remain f.result) (xs ++ ys))
            ≡ observe (
                resume_reply
                  (staged m first)
                  (staged m first (frame_at g f.body_remain f.result) xs)
                  ys)
      go at_type w = h f.body_remain f.result v.0
      go (at_length p) w = length_case-resumes m law first f.body_remain f.result p xs ys v.0 w
      go at_body w = body_case-resumes m law first f.body_remain f.result xs ys v.0

  -- From a valid frame, a message that arrives in two pieces is read as one that arrives at once:
  -- the same message and the same bytes left, or the same refusal.
  pub basic_parser-resumes :
      (f : Frame m.State) (xs ys : Bytes)
      → ValidFrame f
      → observe (basic_parser m f (xs ++ ys))
        ≡ observe (resume_reply (basic_parser m) (basic_parser m f xs) ys)
  unfolding basic_parser
  basic_parser-resumes f xs ys v =
      staged-resumes (type_case m) f xs ys v (λ n s w. type_case-resumes n s xs ys w)

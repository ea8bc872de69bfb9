-- ===== src/Postgres/MessageParser/Laws.antt =====
-- The frame of one of several messages: its answers, and the cutting of its input.
use chxsql.Base.{
  ℕ, suc, Bytes, List, [], ◌∷◌, ◌++◌, ◌≡◌, refl, Option, none, some, ◌==◌, if◌then◌else◌, arith,
  length, Bool-cases, inl, inr,
}
use chxsql.Postgres.Frame.Answers.{Live, Answered, staged-Answered, length_case-Answered}
use chxsql.Postgres.Frame.Streaming.{
  observe, resume_reply, ValidFrame, length_case-resumes, staged-resumes,
}
use chxsql.Postgres.Frame.{at_length, Frame, frame_at, Reply, reply, fault, length_case, staged}
use chxsql.Postgres.Message.{Message, IsMessage, DefiniteVerdict}
use chxsql.Postgres.MessageParser.{jump_table, emplaced, guess_case, message_parser}
use chxsql.Postgres.Outcome.{
  parse_success, parse_malformed, parse_internal_error, Verdict, verdict, stuck,
}

-- A predicate of every value of the table.
abbrev pub AllFresh : {S : Type 0} → (S → Type 0) → List (ℕ × S) → Type 0
AllFresh V [] = Unit
AllFresh V (e ∷ es) = V e.1 × AllFresh V es

module _ (m : Message) (law : IsMessage m) (messages : List (ℕ × m.State))
    (fresh_valid : AllFresh law.Valid messages) where
  abbrev FoundValid : Option m.State → Type 0
  FoundValid none = Unit
  FoundValid (some s) = law.Valid s

  found_valid :
      (es : List (ℕ × m.State)) (type : ℕ) → AllFresh law.Valid es → FoundValid (jump_table es type)
  unfolding jump_table
  found_valid [] type v = tt
  found_valid ((c, s) ∷ es) type v = go (jump_table es type) (found_valid es type v.1)
    where
      go :
          (o : Option m.State)
          → FoundValid o
          → FoundValid (elim o [ some s' ↦ some s' | none ↦ if c == type then some s else none ])
      go (some s') w = w
      go none w = elim (Bool-cases (c == type)) [ inl e ↦ rw e v.0 | inr e ↦ rw e tt ]

  emplaced-Answered :
      (remain : ℕ) (s : m.State) (type : ℕ) (rest : Bytes)
      → law.Valid s
      → Answered m law (suc (length rest)) (emplaced m messages remain s type rest)
  unfolding emplaced
  emplaced-Answered remain s type rest v =
      go (m.on_message_type s type) (λ s' e. law.typed s s' type v e) (law.recognises s type)
    where
      go :
          (o : Verdict m.State)
          → ((s' : m.State) → o ≡ verdict parse_success s' → law.Valid s')
          → DefiniteVerdict o
          → Answered m law (suc (length rest)) (elim o [
            | verdict parse_success s' ↦ length_case m remain s' [] rest
            | verdict parse_malformed s' ↦
                reply parse_malformed (frame_at (at_length []) remain s') rest
            | verdict parse_internal_error s' ↦
                reply parse_internal_error (frame_at (at_length []) remain s') rest
            | _ ↦ fault
          ])
      go (verdict parse_success s') w d =
          length_case-Answered m law remain (suc (length rest)) s' [] rest (w s' refl) (omega arith)
            (omega arith)
      go (verdict parse_malformed s') w d = tt
      go (verdict parse_internal_error s') w d = tt
      go (verdict _ s') w d = absurd d
      go stuck w d = absurd d

  guess_case-Answered :
      (remain : ℕ) (s : m.State) (xs : Bytes)
      → law.Valid s
      → Answered m law (length xs) (guess_case m messages remain s xs)
  unfolding guess_case
  guess_case-Answered remain s [] v = (v, tt, tt)
  guess_case-Answered remain s (type ∷ rest) v =
      go (jump_table messages type) (found_valid messages type fresh_valid)
    where
      go :
          (o : Option m.State)
          → FoundValid o
          → Answered m law (suc (length rest)) (elim o [
            | some fresh ↦ emplaced m messages remain fresh type rest
            | none ↦ reply parse_malformed (frame_at (at_length []) remain s) rest
          ])
      go (some fresh) w = emplaced-Answered remain fresh type rest w
      go none w = tt

  pub message_parser-Answered :
      (f : Frame m.State) (xs : Bytes)
      → Live m law f
      → Answered m law (length xs) (message_parser m messages f xs)
  unfolding message_parser
  message_parser-Answered f xs h =
      staged-Answered m law (guess_case m messages) f xs h (λ n s v. guess_case-Answered n s xs v)

  emplaced-resumes :
      (remain : ℕ) (s : m.State) (type : ℕ) (rest ys : Bytes)
      → law.Valid s
      → observe (emplaced m messages remain s type (rest ++ ys))
        ≡ observe (
            resume_reply
              (staged m (guess_case m messages))
              (emplaced m messages remain s type rest)
              ys)
  unfolding emplaced
  emplaced-resumes remain s type rest ys v =
      go (m.on_message_type s type) (λ s' e. law.typed s s' type v e)
    where
      after : Verdict m.State → Bytes → Reply (Frame m.State)
      after o zs = elim o [
        | verdict parse_success s' ↦ length_case m remain s' [] zs
        | verdict parse_malformed s' ↦ reply parse_malformed (frame_at (at_length []) remain s') zs
        | verdict parse_internal_error s' ↦
            reply parse_internal_error (frame_at (at_length []) remain s') zs
        | _ ↦ fault
      ]

      go :
          (o : Verdict m.State)
          → ((s' : m.State) → o ≡ verdict parse_success s' → law.Valid s')
          → observe (after o (rest ++ ys))
            ≡ observe (resume_reply (staged m (guess_case m messages)) (after o rest) ys)
      go (verdict parse_success s') w =
          length_case-resumes m law (guess_case m messages) remain s' [] rest ys (w s' refl)
            (omega arith)
      go (verdict _ s') w = refl
      go stuck w = refl

  guess_case-resumes :
      (remain : ℕ) (s : m.State) (xs ys : Bytes)
      → observe (guess_case m messages remain s (xs ++ ys))
        ≡ observe
            (resume_reply (staged m (guess_case m messages)) (guess_case m messages remain s xs) ys)
  unfolding guess_case staged
  guess_case-resumes remain s [] ys = refl
  guess_case-resumes remain s (type ∷ rest) ys =
      go (jump_table messages type) (found_valid messages type fresh_valid)
    where
      after : Option m.State → Bytes → Reply (Frame m.State)
      after o zs = elim o [
        | some fresh ↦ emplaced m messages remain fresh type zs
        | none ↦ reply parse_malformed (frame_at (at_length []) remain s) zs
      ]

      go :
          (o : Option m.State)
          → FoundValid o
          → observe (after o (rest ++ ys))
            ≡ observe (resume_reply (staged m (guess_case m messages)) (after o rest) ys)
      go (some fresh) w = emplaced-resumes remain fresh type rest ys w
      go none w = refl

  pub message_parser-resumes :
      (f : Frame m.State) (xs ys : Bytes)
      → ValidFrame m law f
      → observe (message_parser m messages f (xs ++ ys))
        ≡ observe (resume_reply (message_parser m messages) (message_parser m messages f xs) ys)
  unfolding message_parser
  message_parser-resumes f xs ys v =
      staged-resumes m law (guess_case m messages) f xs ys v (λ n s w. guess_case-resumes n s xs ys)

-- ===== src/Postgres/Variant.antt =====
-- The messages in the variant of include/chx/sql/postgresql/detail/message_parser.hpp: two messages
-- as one, of which the callbacks go to the alternative that is there.
use mathlib.Core.Path.{subst}
use chxsql.Base.{ℕ, Bytes, ◌++◌, ◌≡◌, refl, ap, sym, ◌∙◌, ◌⊎◌, inl, inr}
use chxsql.Postgres.Message.{Message, IsMessage, Definite, DefiniteVerdict}
use chxsql.Postgres.Outcome.{
  ParseResult, parse_success, parse_need_more, Verdict, verdict, stuck, resume_body,
}

abbrev pub map_verdict : {A B : Type 0} → (A → B) → Verdict A → Verdict B
map_verdict f (verdict r s) = verdict r (f s)
map_verdict f stuck = stuck

-- `result_emplace_and_invoke`, `invoke_on_message_length` and `invoke_on_body`, one step of the
-- recursion over the alternatives.
module _ (m n : Message) where
  abbrev pub either_type : m.State ⊎ n.State → ℕ → Verdict (m.State ⊎ n.State)
  either_type (inl s) type = map_verdict inl (m.on_message_type s type)
  either_type (inr s) type = map_verdict inr (n.on_message_type s type)

  abbrev pub either_length : m.State ⊎ n.State → ℕ → ParseResult
  either_length (inl s) len = m.on_message_length s len
  either_length (inr s) len = n.on_message_length s len

  abbrev pub either_body : m.State ⊎ n.State → Bytes → Verdict (m.State ⊎ n.State)
  either_body (inl s) bs = map_verdict inl (m.on_body s bs)
  either_body (inr s) bs = map_verdict inr (n.on_body s bs)

  abbrev pub either : Message
  either = record {
    State = m.State ⊎ n.State;
    on_message_type = either_type;
    on_message_length = either_length;
    on_body = either_body;
  }

module _ {A B : Type 0} (f : A → B) where
  map_verdict-resume :
      (run : A → Bytes → Verdict A) (run' : B → Bytes → Verdict B) (v : Verdict A) (ys : Bytes)
      → ((s : A) → run' (f s) ys ≡ map_verdict f (run s ys))
      → map_verdict f (resume_body run v ys) ≡ resume_body run' (map_verdict f v) ys
  map_verdict-resume run run' (verdict parse_need_more s) ys h = sym (h s)
  map_verdict-resume run run' (verdict parse_success s) ys h = refl
  map_verdict-resume run run' (verdict _ s) ys h = refl
  map_verdict-resume run run' stuck ys h = refl

  -- A mapped answer is that of the message.
  map_verdict_back :
      (v : Verdict A) (r : ParseResult) (t : B)
      → map_verdict f v ≡ verdict r t
      → (s : A) × (v ≡ verdict r s) × (f s ≡ t)
  map_verdict_back (verdict q s) r t e = (s, ap (λ x. verdict x s) (cc e), cc e)
  map_verdict_back stuck r t e = absurd (cc e)

  map_verdict-Definite : (v : Verdict A) → DefiniteVerdict v → DefiniteVerdict (map_verdict f v)
  map_verdict-Definite (verdict r s) d = d
  map_verdict-Definite stuck d = d

module _ {m n : Message} (a : IsMessage m) (b : IsMessage n) where
  abbrev EitherValid : m.State ⊎ n.State → Type 0
  EitherValid (inl s) = a.Valid s
  EitherValid (inr s) = b.Valid s

  pub either-typed :
      (s s' : m.State ⊎ n.State) (type : ℕ)
      → EitherValid s
      → either_type m n s type ≡ verdict parse_success s'
      → EitherValid s'
  either-typed (inl s) s' type v e =
      let h = map_verdict_back inl (m.on_message_type s type) parse_success s' e in
      subst EitherValid h.2 (a.typed s h.0 type v h.1)
  either-typed (inr s) s' type v e =
      let h = map_verdict_back inr (n.on_message_type s type) parse_success s' e in
      subst EitherValid h.2 (b.typed s h.0 type v h.1)

  pub either-recognises :
      (s : m.State ⊎ n.State) (type : ℕ) → DefiniteVerdict (either_type m n s type)
  either-recognises (inl s) type = map_verdict-Definite inl _ (a.recognises s type)
  either-recognises (inr s) type = map_verdict-Definite inr _ (b.recognises s type)

  pub either-measures : (s : m.State ⊎ n.State) (len : ℕ) → Definite (either_length m n s len)
  either-measures (inl s) len = a.measures s len
  either-measures (inr s) len = b.measures s len

  pub either-resumes :
      (s : m.State ⊎ n.State) (xs ys : Bytes)
      → EitherValid s
      → either_body m n s (xs ++ ys) ≡ resume_body (either_body m n) (either_body m n s xs) ys
  either-resumes (inl s) xs ys v =
      ap (map_verdict inl) (a.streams.resumes s xs ys v)
      ∙ map_verdict-resume inl m.on_body (either_body m n) (m.on_body s xs) ys (λ t. refl)
  either-resumes (inr s) xs ys v =
      ap (map_verdict inr) (b.streams.resumes s xs ys v)
      ∙ map_verdict-resume inr n.on_body (either_body m n) (n.on_body s xs) ys (λ t. refl)

  pub either-answers :
      (s : m.State ⊎ n.State) (xs : Bytes)
      → EitherValid s
      → (r : ParseResult) × (s' : m.State ⊎ n.State) × (either_body m n s xs ≡ verdict r s')
  either-answers (inl s) xs v =
      let h = a.streams.answers s xs v in (h.0, inl h.1, ap (map_verdict inl) h.2)
  either-answers (inr s) xs v =
      let h = b.streams.answers s xs v in (h.0, inr h.1, ap (map_verdict inr) h.2)

  pub either-waits :
      (s s' : m.State ⊎ n.State) (xs : Bytes)
      → EitherValid s
      → either_body m n s xs ≡ verdict parse_need_more s'
      → EitherValid s'
  either-waits (inl s) s' xs v e =
      let h = map_verdict_back inl (m.on_body s xs) parse_need_more s' e in
      subst EitherValid h.2 (a.streams.waits s h.0 xs v h.1)
  either-waits (inr s) s' xs v e =
      let h = map_verdict_back inr (n.on_body s xs) parse_need_more s' e in
      subst EitherValid h.2 (b.streams.waits s h.0 xs v h.1)

  -- A variant of two lawful messages is lawful.
  abbrev pub either-IsMessage : IsMessage (either m n)
  either-IsMessage = record {
    Valid = EitherValid;
    typed = either-typed;
    recognises = either-recognises;
    measures = either-measures;
    streams = record { resumes = either-resumes; answers = either-answers; waits = either-waits };
  }

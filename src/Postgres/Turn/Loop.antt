-- ===== src/Postgres/Turn/Loop.antt =====
-- A loop of turns that stream streams itself, and its fuel is enough.
use chxsql.Base.{
  ℕ, zero, suc, ◌<◌, Bytes, ◌++◌, ◌≡◌, ◌⊎◌, inl, inr, refl, sym, ap, ◌∙◌, arith, length,
  length-append,
}
use mathlib.Core.Path.{subst}
use chxsql.Postgres.Outcome.{
  ParseResult, parse_success, parse_need_more, Verdict, verdict, stuck, resume_body,
}
use chxsql.Postgres.Turn.{
  Turn, again, stop, body_loop, body, resume_turn, TurnKeeps, TurnStreams, BodyStreams,
}

Turn-cases :
    {S : Type 0} (t : Turn S)
    → ((s : S) × (rest : Bytes) × (t ≡ again s rest))
      ⊎ ((r : ParseResult) × (s : S) × (t ≡ stop r s))
Turn-cases (again s rest) = inl (s, rest, refl)
Turn-cases (stop r s) = inr (r, s, refl)

abbrev verdict_turn : {S : Type 0} → Verdict S → S → Turn S
verdict_turn (verdict r s) d = stop r s
verdict_turn stuck d = stop parse_need_more d

module _ {S : Type 0} (turn : S → Bytes → Turn S) (f : ℕ) (s : S) (xs : Bytes) where
  pub body_loop_again :
      {s' : S} {rest : Bytes}
      → turn s xs ≡ again s' rest
      → body_loop turn (suc f) s xs ≡ body_loop turn f s' rest
  unfolding body_loop
  body_loop_again e = rw (e, body_loop)

  pub body_loop_stop :
      {r : ParseResult} {s' : S}
      → turn s xs ≡ stop r s'
      → body_loop turn (suc f) s xs ≡ verdict r s'
  unfolding body_loop
  body_loop_stop e = rw (e, body_loop)

body_loop_cong :
    {S : Type 0} (turn : S → Bytes → Turn S) (f : ℕ) (s s' : S) (xs ys : Bytes)
    → turn s xs ≡ turn s' ys
    → body_loop turn (suc f) s xs ≡ body_loop turn (suc f) s' ys
unfolding body_loop
body_loop_cong turn f s s' xs ys e = rw (e, body_loop)

module _ {S : Type 0} {V : S → Type 0} {turn : S → Bytes → Turn S} (ts : TurnStreams V turn) where
  keeps_again :
      {s s' : S} {xs rest : Bytes}
      → V s
      → turn s xs ≡ again s' rest
      → V s' × (length rest < length xs)
  keeps_again {s} {s'} {xs} v e = subst (TurnKeeps V (length xs)) e (ts.keeps s xs v)

  loop_answers :
      (f : ℕ) (s : S) (xs : Bytes)
      → V s
      → length xs < f
      → (r : ParseResult) × (s' : S) × (body_loop turn f s xs ≡ verdict r s')
  loop_answers zero s xs v h = absurd (omega arith)
  loop_answers (suc f) s xs v h = elim (Turn-cases (turn s xs)) [
    | inl (s', rest, e) ↦
        let k = keeps_again {xs = xs} v e in
        let (r, q, a) = loop_answers f s' rest k.0 (omega arith) in
        (r, q, body_loop_again turn f s xs e ∙ a)
    | inr (r, s', e) ↦ (r, s', body_loop_stop turn f s xs e)
  ]

  -- More fuel than bytes gives the same answer, whatever the fuel.
  loop_fuel :
      (f g : ℕ) (s : S) (xs : Bytes)
      → V s
      → length xs < f
      → length xs < g
      → body_loop turn f s xs ≡ body_loop turn g s xs
  loop_fuel zero g s xs v h k = absurd (omega arith)
  loop_fuel (suc f) zero s xs v h k = absurd (omega arith)
  loop_fuel (suc f) (suc g) s xs v h k = elim (Turn-cases (turn s xs)) [
    | inl (s', rest, e) ↦
        let w = keeps_again {xs = xs} v e in
        body_loop_again turn f s xs e
        ∙ loop_fuel f g s' rest w.0 (omega arith) (omega arith)
        ∙ sym (body_loop_again turn g s xs e)
    | inr (r, s', e) ↦ body_loop_stop turn f s xs e ∙ sym (body_loop_stop turn g s xs e)
  ]

  -- What stopped goes on with more input as `resume_body` says.
  stopped_resumes :
      (g : ℕ) (s s' : S) (r : ParseResult) (xs ys : Bytes)
      → V s
      → turn s xs ≡ stop r s'
      → length (xs ++ ys) < suc g
      → body_loop turn (suc g) s (xs ++ ys) ≡ resume_body (body turn) (verdict r s') ys
  stopped_resumes g s s' parse_need_more xs ys v e h =
      let here = ts.resumes s xs ys v ∙ ap (λ t. resume_turn turn t ys) e in
      let v' = subst (TurnKeeps V (length xs)) e (ts.keeps s xs v) in
      let fewer : length ys < suc g = omega (arith, length-append xs ys) in
      body_loop_cong turn g s s' (xs ++ ys) ys here
      ∙ unfold body in loop_fuel (suc g) (suc (length ys)) s' ys v' fewer (omega arith)
  stopped_resumes g s s' parse_success xs ys v e h =
      body_loop_stop turn g s (xs ++ ys) (ts.resumes s xs ys v ∙ ap (λ t. resume_turn turn t ys) e)
  stopped_resumes g s s' _ xs ys v e h =
      body_loop_stop turn g s (xs ++ ys) (ts.resumes s xs ys v ∙ ap (λ t. resume_turn turn t ys) e)

  loop_resumes :
      (f g : ℕ) (s : S) (xs ys : Bytes)
      → V s
      → length xs < f
      → length (xs ++ ys) < g
      → body_loop turn g s (xs ++ ys) ≡ resume_body (body turn) (body_loop turn f s xs) ys
  loop_resumes zero g s xs ys v h k = absurd (omega arith)
  loop_resumes (suc f) zero s xs ys v h k = absurd (omega arith)
  loop_resumes (suc f) (suc g) s xs ys v h k = elim (Turn-cases (turn s xs)) [
    | inl (s', rest, e) ↦
        let w = keeps_again {xs = xs} v e in
        let here = ts.resumes s xs ys v ∙ ap (λ t. resume_turn turn t ys) e in
        let shorter : length (rest ++ ys) < g =
          omega (arith, length-append rest ys, length-append xs ys) in
        body_loop_again turn g s (xs ++ ys) here
        ∙ loop_resumes f g s' rest ys w.0 (omega arith) shorter
        ∙ ap (λ o. resume_body (body turn) o ys) (sym (body_loop_again turn f s xs e))
    | inr (r, s', e) ↦
        stopped_resumes g s s' r xs ys v e k
        ∙ ap (λ o. resume_body (body turn) o ys) (sym (body_loop_stop turn f s xs e))
  ]

  loop_waits :
      (f : ℕ) (s s' : S) (xs : Bytes)
      → V s
      → body_loop turn f s xs ≡ verdict parse_need_more s'
      → V s'
  loop_waits zero s s' xs v q = unfold body_loop in cc
  loop_waits (suc f) s s' xs v q = elim (Turn-cases (turn s xs)) [
    | inl (t, rest, e) ↦
        loop_waits f t s' rest (keeps_again {xs = xs} v e).0
          (sym (body_loop_again turn f s xs e) ∙ q)
    | inr (r, t, e) ↦
        let same : verdict r t ≡ verdict parse_need_more s' =
          sym (body_loop_stop turn f s xs e) ∙ q in
        let waited : turn s xs ≡ stop parse_need_more s' = e ∙ ap (λ o. verdict_turn o s) same in
        subst (TurnKeeps V (length xs)) waited (ts.keeps s xs v)
  ]

  pub body-BodyStreams : BodyStreams V (body turn)
  unfolding body
  body-BodyStreams = record {
    resumes = λ s xs ys v.
        loop_resumes (suc (length xs)) (suc (length (xs ++ ys))) s xs ys v (omega arith)
          (omega arith);
    answers = λ s xs v. loop_answers (suc (length xs)) s xs v (omega arith);
    waits = λ s s' xs v. loop_waits (suc (length xs)) s s' xs v;
  }

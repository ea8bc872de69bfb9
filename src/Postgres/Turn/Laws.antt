-- ===== src/Postgres/Turn/Laws.antt =====
-- A turn made of parsers that stream streams itself.
use chxsql.Base.{
  [], ◌∷◌, ◌∷◌, Bool, true, false, if◌then◌else◌, ℕ, suc, Bytes, ◌++◌, ◌≡◌, refl, sym, ap, ◌∙◌,
  length,
}
use chxsql.Postgres.Outcome.{
  make_success, parse_success, parse_need_more, Outcome, outcome, resume, Waits, Streams,
}
use chxsql.Postgres.Turn.{Turn, stop, then_turn, resume_turn, TurnKeeps, TurnKeeps-mono}

-- A turn that begins with a basic parser, when the turn from the state where that parser waits
-- begins with it too.
module _ {A S : Type 0} {VA : A → Type 0} {run : A → Bytes → Outcome A} (rs : Streams VA run)
    (V : S → Type 0) (turn : S → Bytes → Turn S) (keep : A → S) (next : A → Bytes → Turn S)
    (enters : (a : A) (ys : Bytes) → turn (keep a) ys ≡ then_turn (run a ys) keep next) where
  pub then_turn-resumes :
      (a : A) (xs ys : Bytes)
      → VA a
      → ((b : A) (zs : Bytes) → next b (zs ++ ys) ≡ resume_turn turn (next b zs) ys)
      → then_turn (run a (xs ++ ys)) keep next
        ≡ resume_turn turn (then_turn (run a xs) keep next) ys
  then_turn-resumes a xs ys v n =
      ap (λ o. then_turn o keep next) (rs.resumes a xs ys v) ∙ go (run a xs)
    where
      go :
          (o : Outcome A)
          → then_turn (resume run o ys) keep next ≡ resume_turn turn (then_turn o keep next) ys
      go (outcome parse_success b rest) = n b rest
      go (outcome parse_need_more b rest) = sym (enters b ys)
      go (outcome _ b rest) = refl

  pub then_turn-keeps :
      (a : A) (xs : Bytes)
      → VA a
      → ((b : A) → VA b → V (keep b))
      → ((b : A) (zs : Bytes) → TurnKeeps V (suc (length zs)) (next b zs))
      → TurnKeeps V (length xs) (then_turn (run a xs) keep next)
  then_turn-keeps a xs v w n = go (run a xs) refl (rs.waits a xs v)
    where
      go :
          (o : Outcome A)
          → run a xs ≡ o
          → Waits VA o
          → TurnKeeps V (length xs) (then_turn o keep next)
      go (outcome parse_success b rest) e k =
          TurnKeeps-mono V (suc (length rest)) (length xs) (next b rest)
            (rs.consumes a b xs rest v e) (n b rest)
      go (outcome parse_need_more b rest) e k = w b k
      go (outcome _ b rest) e k = tt

module _ {S : Type 0} where
  -- An end that demands that nothing follows.
  pub stop-make_success :
      (turn : S → Bytes → Turn S) (s : S) (zs ys : Bytes)
      → stop (make_success (zs ++ ys)) s ≡ resume_turn turn (stop (make_success zs) s) ys
  unfolding make_success
  stop-make_success turn s [] ys = refl
  stop-make_success turn s (z ∷ zs) ys = refl

  pub make_success-keeps :
      (V : S → Type 0) (n : ℕ) (s : S) (zs : Bytes) → TurnKeeps V n (stop (make_success zs) s)
  unfolding make_success
  make_success-keeps V n s [] = tt
  make_success-keeps V n s (z ∷ zs) = tt

  pub if-resumes :
      (turn : S → Bytes → Turn S) (b : Bool) (ys : Bytes) (t t' u u' : Turn S)
      → t ≡ resume_turn turn t' ys
      → u ≡ resume_turn turn u' ys
      → (if b then t else u) ≡ resume_turn turn (if b then t' else u') ys
  if-resumes turn true ys t t' u u' p q = p
  if-resumes turn false ys t t' u u' p q = q

  pub if-keeps :
      (V : S → Type 0) (n : ℕ) (b : Bool) (t u : Turn S)
      → (b ≡ true → TurnKeeps V n t)
      → (b ≡ false → TurnKeeps V n u)
      → TurnKeeps V n (if b then t else u)
  if-keeps V n true t u p q = p refl
  if-keeps V n false t u p q = q refl

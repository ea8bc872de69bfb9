-- ===== src/Postgres/Turn.antt =====
-- The loops of the message parsers in include/chx/sql/postgresql/detail/msg/: `while` around a
-- `switch`, or `return on_body(begin, end)` at the end of a case. One turn is one pass through the
-- switch, falls into the next case included.
pub mod Loop
pub mod Laws
use chxsql.Base.{
  ℕ, zero, suc, ◌≤◌, ◌<◌, Bytes, [], ◌∷◌, ◌++◌, ◌≡◌, refl, sym, ap, ◌∙◌, arith, length,
  length-append,
}
use chxsql.Postgres.Outcome.{
  ParseResult, parse_success, parse_need_more, Outcome, outcome, Verdict, verdict, stuck,
  make_success, resume, resume_body, Waits, Streams,
}

-- A pass that goes round again with the bytes left, or returns.
pub data Turn (S : Type 0) : Type 0 where
  again : S → Bytes → Turn S
  stop : ParseResult → S → Turn S

-- `if (r == ParseSuccess) { … } else { return r; }` after a parser of basic_type.hpp; `keep` puts
-- the parser's state back where it is kept.
abbrev pub then_turn : {A S : Type 0} → Outcome A → (A → S) → (A → Bytes → Turn S) → Turn S
then_turn (outcome parse_success a rest) keep next = next a rest
then_turn (outcome r a rest) keep next = stop r (keep a)

pub body_loop : {S : Type 0} → (S → Bytes → Turn S) → ℕ → S → Bytes → Verdict S
body_loop turn zero s xs = stuck
body_loop turn (suc fuel) s xs = elim (turn s xs) [
  | again s' rest ↦ body_loop turn fuel s' rest
  | stop r s' ↦ verdict r s'
]

-- Each turn that goes round again takes a byte, so one round for each byte and one more do.
unfoldable pub body : {S : Type 0} → (S → Bytes → Turn S) → S → Bytes → Verdict S
unfolding body_loop
body turn s xs = body_loop turn (suc (length xs)) s xs

abbrev pub resume_turn : {S : Type 0} → (S → Bytes → Turn S) → Turn S → Bytes → Turn S
resume_turn turn (again s rest) ys = again s (rest ++ ys)
resume_turn turn (stop parse_need_more s) ys = turn s ys
resume_turn turn (stop parse_success s) ys = stop (make_success ys) s
resume_turn turn (stop r s) ys = stop r s

-- A turn that goes on or waits stays in `V`, and goes on with fewer than `n` bytes.
abbrev pub TurnKeeps : {S : Type 0} → (S → Type 0) → ℕ → Turn S → Type 0
TurnKeeps V n (again s rest) = V s × (length rest < n)
TurnKeeps V n (stop parse_need_more s) = V s
TurnKeeps V n (stop r s) = Unit

pub TurnKeeps-mono :
    {S : Type 0} (V : S → Type 0) (n m : ℕ) (t : Turn S) → n ≤ m → TurnKeeps V n t → TurnKeeps V m t
TurnKeeps-mono V n m (again s rest) h k = (k.0, omega arith)
TurnKeeps-mono V n m (stop parse_need_more s) h k = k
TurnKeeps-mono V n m (stop _ s) h k = tt

pub record TurnStreams {S : Type 0} (V : S → Type 0) (turn : S → Bytes → Turn S) : Type 0 where
  pub resumes : (s : S) (xs ys : Bytes) → V s → turn s (xs ++ ys) ≡ resume_turn turn (turn s xs) ys
  pub keeps : (s : S) (xs : Bytes) → V s → TurnKeeps V (length xs) (turn s xs)

-- A message parser that is indifferent to how its body is cut, and always answers.
pub record BodyStreams {S : Type 0} (V : S → Type 0) (run : S → Bytes → Verdict S) : Type 0 where
  pub resumes : (s : S) (xs ys : Bytes) → V s → run s (xs ++ ys) ≡ resume_body run (run s xs) ys
  pub answers :
      (s : S) (xs : Bytes) → V s → (r : ParseResult) × (s' : S) × (run s xs ≡ verdict r s')
  pub waits : (s s' : S) (xs : Bytes) → V s → run s xs ≡ verdict parse_need_more s' → V s'

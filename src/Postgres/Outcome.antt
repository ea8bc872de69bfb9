-- ===== src/Postgres/Outcome.antt =====
-- include/chx/sql/postgresql/detail/result.hpp and make_success.hpp: what a parser answers.
-- A C++ parser takes `begin` by reference and advances it; here it returns what it left unread.
use chxsql.Base.{Bytes, [], ◌∷◌, ◌++◌, ◌≡◌, ◌<◌, length}

pub data ParseResult : Type 0 where
  parse_success parse_need_more : ParseResult
  parse_malformed parse_malformed_incomplete parse_malformed_trailing_data : ParseResult
  parse_internal_error : ParseResult

-- The answer of a parser that advances `begin`: the result, its state and the bytes left unread.
pub data Outcome {ℓ} (S : Type ℓ) : Type ℓ where
  outcome : ParseResult → S → Bytes → Outcome S

-- The answer of a parser that takes its two pointers by value: the result and its state.
-- `stuck` is no C++ value: a loop of the model ran out of fuel.
pub data Verdict {ℓ} (S : Type ℓ) : Type ℓ where
  verdict : ParseResult → S → Verdict S
  stuck : Verdict S

abbrev pub outcome_rest {ℓ} : {S : Type ℓ} → Outcome S → Bytes
outcome_rest (outcome r s rest) = rest

unfoldable pub make_success : Bytes → ParseResult
make_success [] = parse_success
make_success (b ∷ bs) = parse_malformed_trailing_data

-- A parser that was stopped by the end of its input, given more input.
abbrev pub resume {ℓ} : {S : Type ℓ} → (S → Bytes → Outcome S) → Outcome S → Bytes → Outcome S
resume run (outcome parse_need_more s rest) ys = run s ys
resume run (outcome r s rest) ys = outcome r s (rest ++ ys)

-- The same for one that must end with its input: more input after a success is trailing data.
abbrev pub resume_body {ℓ} : {S : Type ℓ} → (S → Bytes → Verdict S) → Verdict S → Bytes → Verdict S
resume_body run (verdict parse_need_more s) ys = run s ys
resume_body run (verdict parse_success s) ys = verdict (make_success ys) s
resume_body run (verdict r s) ys = verdict r s
resume_body run stuck ys = stuck

-- What holds of the state in which a parser waits for more.
abbrev pub Waits {ℓ κ} : {S : Type ℓ} → (S → Type κ) → Outcome S → Type κ
Waits V (outcome parse_need_more s rest) = V s
Waits V (outcome r s rest) = Unit

-- `run` gives the same answer whether its input comes at once or in pieces, from every state in
-- `V`; it stays in `V` while it waits, and a success has consumed something.
pub record Streams {ℓ κ} {S : Type ℓ} (V : S → Type κ) (run : S → Bytes → Outcome S)
    : Type (ℓ ⊔ κ) where
  pub resumes : (s : S) (xs ys : Bytes) → V s → run s (xs ++ ys) ≡ resume run (run s xs) ys
  pub waits : (s : S) (xs : Bytes) → V s → Waits V (run s xs)
  pub consumes :
      (s s' : S) (xs rest : Bytes)
      → V s
      → run s xs ≡ outcome parse_success s' rest
      → length rest < length xs

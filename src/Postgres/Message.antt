-- ===== src/Postgres/Message.antt =====
-- What include/chx/sql/postgresql/detail/basic_parser.hpp and message_parser.hpp ask of a message:
-- the three callbacks. The laws that a message owes them are `IsMessage`.
use mathlib.Core.Path.{subst}
use chxsql.Base.{ℕ, Bytes, ◌≡◌, ap, ◌==◌, if◌then◌else◌, Bool-cases, inl, inr}
use chxsql.Postgres.Outcome.{
  ParseResult, parse_success, parse_malformed, parse_internal_error, Verdict, verdict, stuck,
}
use chxsql.Postgres.Turn.{BodyStreams}

pub record Message : Type 1 where
  pub State : Type 0
  pub on_message_type : State → ℕ → Verdict State
  pub on_message_length : State → ℕ → ParseResult
  pub on_body : State → Bytes → Verdict State

-- `type == c ? ParseSuccess : ParseMalformed`, and the same for a length.
abbrev pub expects : ℕ → ℕ → ParseResult
expects c v = if v == c then parse_success else parse_malformed

-- The callbacks of a message of one type, which leave it as it is.
abbrev pub of_type : {S : Type 0} → ℕ → S → ℕ → Verdict S
of_type c s type = verdict (expects c type) s

abbrev pub of_length : {S : Type 0} → ℕ → S → ℕ → ParseResult
of_length n s len = expects n len

abbrev pub any_length : {S : Type 0} → S → ℕ → ParseResult
any_length s len = parse_success

-- What the frame takes for an answer about a type or a length; it asserts that there is no other.
abbrev pub Definite : ParseResult → Type 0
Definite parse_success = Unit
Definite parse_malformed = Unit
Definite parse_internal_error = Unit
Definite _ = ⊥

abbrev pub DefiniteVerdict : {S : Type 0} → Verdict S → Type 0
DefiniteVerdict (verdict r s) = Definite r
DefiniteVerdict stuck = ⊥

pub expects-Definite : (c v : ℕ) → Definite (expects c v)
expects-Definite c v = elim (Bool-cases (v == c)) [ inl e ↦ rw e tt | inr e ↦ rw e tt ]

-- `Valid` holds of every state in which the message may be fed.
pub record IsMessage (m : Message) : Type 1 where
  pub Valid : m.State → Type 0
  pub typed :
      (s s' : m.State) (type : ℕ)
      → Valid s
      → m.on_message_type s type ≡ verdict parse_success s'
      → Valid s'
  pub recognises : (s : m.State) (type : ℕ) → DefiniteVerdict (m.on_message_type s type)
  pub measures : (s : m.State) (n : ℕ) → Definite (m.on_message_length s n)
  pub streams : BodyStreams Valid m.on_body

abbrev verdict_state : {S : Type 0} → S → Verdict S → S
verdict_state d (verdict r s) = s
verdict_state d stuck = d

pub of_type-keeps :
    {S : Type 0} (V : S → Type 0) (c : ℕ) (s s' : S) (type : ℕ)
    → V s
    → of_type c s type ≡ verdict parse_success s'
    → V s'
of_type-keeps V c s s' type v e = subst V (ap (verdict_state s) e) v

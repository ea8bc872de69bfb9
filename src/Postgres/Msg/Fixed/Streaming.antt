-- ===== src/Postgres/Msg/Fixed/Streaming.antt =====
-- The messages of a fixed length are read the same however their bytes are cut.
use chxsql.Base.{ℕ, Bytes, [], ◌∷◌, ◌++◌, ◌≡◌, refl, arith, Bool-cases, inl, inr, ◌||◌, ◌==◌}
use chxsql.Postgres.Message.{expects-Definite, IsMessage, of_type-keeps}
use chxsql.Postgres.Msg.Fixed.{
  empty_body, bind_complete, parse_complete, no_data, empty_query_response, ready_for_query_body,
  ready_for_query,
}
use chxsql.Postgres.Outcome.{
  ParseResult, parse_need_more, parse_malformed, verdict, make_success, resume_body,
}
use chxsql.Postgres.Turn.{BodyStreams}

abbrev pub Always : {S : Type 0} → S → Type 0
Always s = Unit

empty_body-resumes :
    (s : Unit {0}) (xs ys : Bytes)
    → empty_body s (xs ++ ys) ≡ resume_body empty_body (empty_body s xs) ys
unfolding empty_body
empty_body-resumes s [] ys = refl
empty_body-resumes s (x ∷ xs) ys = refl

pub empty_body-BodyStreams : BodyStreams Always empty_body
empty_body-BodyStreams = record {
  resumes = λ s xs ys v. empty_body-resumes s xs ys;
  answers = λ s xs v. unfold empty_body in (make_success xs, s, refl);
  waits = λ s s' xs v e. tt;
}

ready-resumes :
    (s : ℕ) (xs ys : Bytes)
    → ready_for_query_body s (xs ++ ys)
      ≡ resume_body ready_for_query_body (ready_for_query_body s xs) ys
unfolding ready_for_query_body
ready-resumes s [] ys = refl
ready-resumes s (x ∷ []) ys = ground arith
ready-resumes s (x ∷ y ∷ xs) ys = ground arith

ready-answers :
    (s : ℕ) (xs : Bytes) → (r : ParseResult) × (s' : ℕ) × (ready_for_query_body s xs ≡ verdict r s')
unfolding ready_for_query_body
ready-answers s [] = (parse_need_more, s, refl)
ready-answers s (x ∷ xs) = elim (Bool-cases (x == b'T' || x == b'E' || x == b'I')) [
  | inl e ↦ (make_success xs, x, rw e)
  | inr e ↦ (parse_malformed, x, rw e)
]

-- From every valid state, the body of a ReadyForQuery gives the same answer and the same message
-- whether it comes at once or in pieces, bytes after its end being trailing data; the parser
-- always answers, and is in a valid state while it waits.
pub ready_for_query-BodyStreams : BodyStreams Always ready_for_query_body
ready_for_query-BodyStreams = record {
  resumes = λ s xs ys v. ready-resumes s xs ys;
  answers = λ s xs v. ready-answers s xs;
  waits = λ s s' xs v e. tt;
}

abbrev pub bind_complete-IsMessage : IsMessage bind_complete
bind_complete-IsMessage = record {
  Valid = Always;
  typed = of_type-keeps Always b'2';
  recognises = λ s. expects-Definite b'2';
  measures = λ s n. expects-Definite 4 n;
  streams = empty_body-BodyStreams;
}

abbrev pub parse_complete-IsMessage : IsMessage parse_complete
parse_complete-IsMessage = record {
  Valid = Always;
  typed = of_type-keeps Always b'1';
  recognises = λ s. expects-Definite b'1';
  measures = λ s n. expects-Definite 4 n;
  streams = empty_body-BodyStreams;
}

abbrev pub no_data-IsMessage : IsMessage no_data
no_data-IsMessage = record {
  Valid = Always;
  typed = of_type-keeps Always b'n';
  recognises = λ s. expects-Definite b'n';
  measures = λ s n. expects-Definite 4 n;
  streams = empty_body-BodyStreams;
}

abbrev pub empty_query_response-IsMessage : IsMessage empty_query_response
empty_query_response-IsMessage = record {
  Valid = Always;
  typed = of_type-keeps Always b'I';
  recognises = λ s. expects-Definite b'I';
  measures = λ s n. expects-Definite 4 n;
  streams = empty_body-BodyStreams;
}

abbrev pub ready_for_query-IsMessage : IsMessage ready_for_query
ready_for_query-IsMessage = record {
  Valid = Always;
  typed = of_type-keeps Always b'Z';
  recognises = λ s. expects-Definite b'Z';
  measures = λ s n. expects-Definite 5 n;
  streams = ready_for_query-BodyStreams;
}

-- ===== src/Postgres/Basic/Terminated.antt =====
-- `string` of basic_type.hpp does not see how its input is cut into pieces.
use chxsql.Base.{
  ℕ, ◌+◌, ◌≤◌, ◌<◌, Bytes, [], ◌∷◌, ◌++◌, ◌≡◌, ◌≢◌, refl, sym, ap, ◌∙◌, inl, inr, arith, length,
  take, drop, length-append, take_all, drop_all, length-drop, take-append_le, drop-append_le,
  take-append_add, drop-append_add, append_assoc, ◌==◌, ==_iff, Bool-cases,
}
use native.Mathlib.Decide.{ℕ_discrete}
use chxsql.Postgres.Outcome.{
  parse_success, parse_need_more, Outcome, outcome, outcome_rest, resume, Waits, Streams,
}
use chxsql.Postgres.Basic.{strnlen, string, insert_bytes, insert_nop}

strnlen-le : (xs : Bytes) → strnlen xs ≤ length xs
unfolding strnlen
strnlen-le [] = omega arith
strnlen-le (x ∷ xs) = ground (arith, strnlen-le xs)

-- With no nul in the first part the search goes on; a nul there ends it.
strnlen-append_none :
    (xs ys : Bytes) → strnlen xs ≡ length xs → strnlen (xs ++ ys) ≡ length xs + strnlen ys
unfolding strnlen
strnlen-append_none [] ys h = omega arith
strnlen-append_none (x ∷ xs) ys h = ground (arith, strnlen-append_none xs ys)

strnlen-append_some : (xs ys : Bytes) → strnlen xs ≢ length xs → strnlen (xs ++ ys) ≡ strnlen xs
unfolding strnlen
strnlen-append_some [] ys h = absurd (h refl)
strnlen-append_some (x ∷ xs) ys h = ground (arith, strnlen-append_some xs ys)

module _ {C : Type 0} (insert : C → Bytes → C) where
  pub string_open :
      (got : C) (xs : Bytes)
      → strnlen xs ≡ length xs
      → string insert got xs ≡ outcome parse_need_more (insert got xs) []
  unfolding string
  string_open got xs h =
      let all = take_all (length xs) xs (omega arith) in
      let none_left = drop_all (length xs) xs (omega arith) in
      simp (h, (==_iff (length xs) (length xs)).1 refl, all, none_left)

  pub string_closed :
      (got : C) (xs : Bytes)
      → strnlen xs ≢ length xs
      → string insert got xs
        ≡ outcome parse_success (insert got (take (strnlen xs) xs)) (drop (strnlen xs + 1) xs)
  unfolding string
  string_closed got xs h = elim (Bool-cases (strnlen xs == length xs)) [
    | inl e ↦ absurd (h ((==_iff _ _).0 e))
    | inr e ↦ rw e
  ]

  module _
      (insert_append : (c : C) (xs ys : Bytes)
        → insert (insert c xs) ys ≡ insert c (xs ++ ys)) where
    string-resumes :
        (got : C) (xs ys : Bytes)
        → string insert got (xs ++ ys) ≡ resume (string insert) (string insert got xs) ys
    string-resumes got xs ys = elim (ℕ_discrete (strnlen xs) (length xs)) [
      | yes h ↦
          let goes_on = strnlen-append_none xs ys h in
          rw (string_open got xs h) (elim (ℕ_discrete (strnlen ys) (length ys)) [
            | yes k ↦ rw (
              string_open got (xs ++ ys) (rw (goes_on, length-append) (omega arith)),
              string_open (insert got xs) ys k,
              insert_append,
            )
            | no k ↦
                let e : length xs + strnlen ys + 1 ≡ length xs + (strnlen ys + 1) = omega arith in
                rw (
                  string_closed got (xs ++ ys) (λ (q : strnlen (xs ++ ys) ≡ length (xs ++ ys)).
                      k (omega (arith, goes_on, length-append xs ys, q))),
                  string_closed (insert got xs) ys k,
                  insert_append,
                  goes_on,
                  take-append_add,
                  e,
                  drop-append_add,
                )
          ])
      | no h ↦
          let ends = strnlen-append_some xs ys h in
          let inside : strnlen xs + 1 ≤ length xs = omega (arith, strnlen-le xs) in
          rw (
            string_closed got xs h,
            string_closed got (xs ++ ys) (λ (q : strnlen (xs ++ ys) ≡ length (xs ++ ys)).
                h (omega (arith, ends, strnlen-le xs, length-append xs ys, q))),
            ends,
            take-append_le (strnlen xs) xs ys (omega arith),
            drop-append_le (strnlen xs + 1) xs ys inside,
          )
    ]

    string-consumes :
        (got got' : C) (xs rest : Bytes)
        → string insert got xs ≡ outcome parse_success got' rest
        → length rest < length xs
    string-consumes got got' xs rest e = elim (ℕ_discrete (strnlen xs) (length xs)) [
      | yes h ↦ cc (string_open got xs h)
      | no h ↦
          let r : drop (strnlen xs + 1) xs ≡ rest =
            ap outcome_rest (sym (string_closed got xs h) ∙ e) in
          rw (← r, length-drop) (omega (arith, strnlen-le xs))
    ]

    string-Waits : (got : C) (xs : Bytes) → Waits (λ c. Unit {0}) (string insert got xs)
    string-Waits got xs = go (string insert got xs)
      where
        go : (o : Outcome C) → Waits (λ c. Unit {0}) o
        go (outcome parse_need_more s rest) = tt
        go (outcome _ s rest) = tt

    pub string-Streams : Streams (λ c. Unit {0}) (string insert)
    string-Streams = record {
      resumes = λ got xs ys v. string-resumes got xs ys;
      waits = λ got xs v. string-Waits got xs;
      consumes = λ got got' xs rest v. string-consumes got got' xs rest;
    }

-- string, which appends to what it has, gives the same answer however its input is cut, and a
-- success has consumed input.
pub string_bytes-Streams : Streams (λ c. Unit {0}) (string insert_bytes)
string_bytes-Streams = string-Streams insert_bytes append_assoc

insert_nop-append : (n : ℕ) (xs ys : Bytes) → n + length xs + length ys ≡ n + length (xs ++ ys)
insert_nop-append n xs ys = omega (arith, length-append xs ys)

pub string_nop-Streams : Streams (λ c. Unit {0}) (string insert_nop)
string_nop-Streams = string-Streams insert_nop insert_nop-append

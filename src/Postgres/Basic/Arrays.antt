-- ===== src/Postgres/Basic/Arrays.antt =====
-- `integer_array` of basic_type.hpp does not see how its input is cut into pieces.
use chxsql.Base.{
  ℕ, zero, suc, ◌+◌, ◌-◌, ◌≤◌, ◌<◌, Bytes, [], ◌∷◌, ◌++◌, ◌≡◌, refl, sym, ap, ◌∙◌, arith, length,
  length-append,
}
use chxsql.Postgres.Basic.Counted.{integer-Streams}
use chxsql.Postgres.Basic.{
  Integer, integer, integer_value, IntegerArray, integer_array_loop, integer_array,
}
use chxsql.Postgres.Outcome.{
  parse_success, parse_need_more, parse_malformed, parse_malformed_incomplete,
  parse_malformed_trailing_data, parse_internal_error, Outcome, outcome, outcome_rest, resume,
  Waits, Streams,
}

-- More values are wanted, and the next one is unfinished.
abbrev pub Wants : ℕ → IntegerArray → Type 0
Wants size p = (length p.result < p.target) × (length p.parser < size)

-- `__M_result.push_back(value)` and a fresh parser.
abbrev pushed : ℕ → IntegerArray → Integer → IntegerArray
pushed size p q = record p { result = p.result ++ integer_value size q ∷ []; parser = [] }

abbrev then_loop : ℕ → ℕ → IntegerArray → Outcome Integer → Outcome IntegerArray
then_loop wanted size p (outcome parse_success q rest) =
    integer_array_loop wanted size (pushed size p q) rest
then_loop wanted size p (outcome r q rest) = outcome r (record p { parser = q }) rest

integer_array_loop_lem :
    (wanted size : ℕ) (p : IntegerArray) (xs : Bytes)
    → integer_array_loop (suc wanted) size p xs ≡ then_loop wanted size p (integer size p.parser xs)
unfolding integer_array_loop
integer_array_loop_lem wanted size p xs = go (integer size p.parser xs)
  where
    go :
        (o : Outcome Integer)
        → elim o as (λ x. Outcome IntegerArray) [
          | outcome parse_success q rest ↦ integer_array_loop wanted size (pushed size p q) rest
          | outcome r q rest ↦ outcome r (record p { parser = q }) rest
        ]
          ≡ then_loop wanted size p o
    go (outcome parse_success q rest) = refl
    go (outcome _ q rest) = refl

module _ (size : ℕ) (pos : 0 < size) where
  loop-resumes :
      (wanted : ℕ) (p : IntegerArray) (xs ys : Bytes)
      → length p.result + wanted ≡ p.target
      → length p.parser < size
      → integer_array_loop wanted size p (xs ++ ys)
        ≡ resume (integer_array size) (integer_array_loop wanted size p xs) ys
  loop-resumes zero p xs ys h v = unfold integer_array_loop in refl
  loop-resumes (suc wanted) p xs ys h v =
      integer_array_loop_lem wanted size p (xs ++ ys)
      ∙ ap (then_loop wanted size p) ((integer-Streams size).resumes p.parser xs ys v)
      ∙ go (integer size p.parser xs) (λ q rest.
        loop-resumes wanted (pushed size p q) rest ys (rw length-append (omega arith)) pos)
      ∙ ap (λ o. resume (integer_array size) o ys) (sym (integer_array_loop_lem wanted size p xs))
    where
      go :
          (o : Outcome Integer)
          → ((q : Integer) (rest : Bytes)
              → integer_array_loop wanted size (pushed size p q) (rest ++ ys)
                ≡ resume
                    (integer_array size)
                    (integer_array_loop wanted size (pushed size p q) rest)
                    ys)
          → then_loop wanted size p (resume (integer size) o ys)
            ≡ resume (integer_array size) (then_loop wanted size p o) ys
      go (outcome parse_success q rest) ih = ih q rest
      go (outcome parse_need_more q rest) ih =
          sym (integer_array_loop_lem wanted size (record p { parser = q }) ys)
          ∙ unfold integer_array in
            let left : suc wanted ≡ p.target - length p.result = omega arith in
            ap (λ (n : ℕ). integer_array_loop n size (record p { parser = q }) ys) left
      go (outcome _ q rest) ih = refl

  loop-Waits :
      (wanted : ℕ) (p : IntegerArray) (xs : Bytes)
      → length p.result + wanted ≡ p.target
      → length p.parser < size
      → Waits (Wants size) (integer_array_loop wanted size p xs)
  loop-Waits zero p xs h v = unfold integer_array_loop in tt
  loop-Waits (suc wanted) p xs h v = rw (integer_array_loop_lem wanted size p xs) (
      go (integer size p.parser xs)
        (λ q rest. loop-Waits wanted (pushed size p q) rest (rw length-append (omega arith)) pos)
        ((integer-Streams size).waits p.parser xs v))
    where
      go :
          (o : Outcome Integer)
          → ((q : Integer) (rest : Bytes)
              → Waits (Wants size) (integer_array_loop wanted size (pushed size p q) rest))
          → Waits (λ q. length q < size) o
          → Waits (Wants size) (then_loop wanted size p o)
      go (outcome parse_success q rest) ih w = ih q rest
      go (outcome parse_need_more q rest) ih w = (omega arith, w)
      go (outcome _ q rest) ih w = tt

  -- The bytes left are no more than those given, and fewer if a value was wanted.
  loop-consumes :
      (wanted : ℕ) (p p' : IntegerArray) (xs rest : Bytes)
      → length p.parser < size
      → integer_array_loop wanted size p xs ≡ outcome parse_success p' rest
      → (length rest + wanted ≤ length xs)
  loop-consumes zero p p' xs rest v e =
      let same : xs ≡ rest = unfold integer_array_loop in ap outcome_rest e in
      omega (arith, ap (λ (l : Bytes). length l) same)
  loop-consumes (suc wanted) p p' xs rest v e =
      go (integer size p.parser xs) refl (sym (integer_array_loop_lem wanted size p xs) ∙ e)
        (λ q rest'. loop-consumes wanted (pushed size p q) p' rest' rest pos)
    where
      go :
          (o : Outcome Integer)
          → integer size p.parser xs ≡ o
          → then_loop wanted size p o ≡ outcome parse_success p' rest
          → ((q : Integer) (rest' : Bytes)
              → integer_array_loop wanted size (pushed size p q) rest'
                ≡ outcome parse_success p' rest
              → length rest + wanted ≤ length rest')
          → length rest + suc wanted ≤ length xs
      go (outcome parse_success q rest') i t ih =
          omega (arith, ih q rest' t, (integer-Streams size).consumes p.parser q xs rest' v i)
      go (outcome parse_need_more q rest') i t ih = cc
      go (outcome parse_malformed q rest') i t ih = cc
      go (outcome parse_malformed_incomplete q rest') i t ih = cc
      go (outcome parse_malformed_trailing_data q rest') i t ih = cc
      go (outcome parse_internal_error q rest') i t ih = cc

  -- For elements of at least a byte and from every state that still wants one, integer_array gives
  -- the same answer however its input is cut, wants an element while it waits, and a success has
  -- consumed input.
  pub integer_array-Streams : Streams (Wants size) (integer_array size)
  unfolding integer_array
  integer_array-Streams = record {
    resumes = λ p xs ys v. loop-resumes (p.target - length p.result) p xs ys (omega arith) v.1;
    waits = λ p xs v. loop-Waits (p.target - length p.result) p xs (omega arith) v.1;
    consumes = λ p p' xs rest v e.
        omega (arith, loop-consumes (p.target - length p.result) p p' xs rest v.1 e);
  }

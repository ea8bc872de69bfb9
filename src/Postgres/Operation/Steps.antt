-- ===== src/Postgres/Operation/Steps.antt =====
-- The loop of `do_parse`, a round at a time.
use chxsql.Base.{ℕ, suc, ◌+◌, ◌*◌, Bytes, ◌≡◌, ap, arith, length}
use chxsql.Postgres.Operation.{Round, go_on, complete, rounds, do_rounds}

module _ {S R : Type 0} (round : S → Bytes → Round S R) where
  pub rounds_go_on :
      (fuel : ℕ) (s s' : S) (xs rest : Bytes)
      → round s xs ≡ go_on s' rest
      → rounds round (suc fuel) s xs ≡ rounds round fuel s' rest
  unfolding rounds
  rounds_go_on fuel s s' xs rest e = rw (e, rounds)

  pub rounds_complete :
      (fuel : ℕ) (s : S) (r : R) (xs rest : Bytes)
      → round s xs ≡ complete r rest
      → rounds round (suc fuel) s xs ≡ complete r rest
  unfolding rounds
  rounds_complete fuel s r xs rest e = rw (e, rounds)

  pub do_rounds_fuel :
      (s : S) (xs : Bytes) → do_rounds round s xs ≡ rounds round (suc (suc (2 * length xs))) s xs
  unfolding do_rounds
  do_rounds_fuel s xs =
      let e : 2 * length xs + 2 ≡ suc (suc (2 * length xs)) = omega arith in
      ap (λ (k : ℕ). rounds round k s xs) e

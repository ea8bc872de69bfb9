-- ===== src/Postgres/Operation/Termination.antt =====
-- The loop of `do_parse` ends: a round that goes on has read a message or has chosen the parser of
-- one, so there are at most two rounds for each byte, and one more.
use chxsql.Base.{ℕ, zero, suc, ◌+◌, ◌*◌, ◌≤◌, ◌<◌, Bytes, arith, length}
use chxsql.Postgres.Frame.{Frame, Reply, reply, fault, basic_parser}
use chxsql.Postgres.Frame.Answers.{Live, Answered, basic_parser-Answered}
use chxsql.Postgres.Message.{Message, IsMessage}
use chxsql.Postgres.Operation.{Round, go_on, read, complete, crash, then_round, rounds, do_rounds}
use chxsql.Postgres.Outcome.{parse_success, parse_need_more}

-- How a loop ends: it waits for bytes in a state of `V`, or the operation completes.
abbrev pub Settles : {S R : Type 0} → (S → Type 0) → Round S R → Type 0
Settles V (go_on s rest) = ⊥
Settles V (read s) = V s
Settles V (complete r rest) = Unit
Settles V crash = ⊥

module _ {S R : Type 0} (V : S → Type 0) (extra : S → ℕ) where
  -- What a round leaves: where it goes on, a state of `V` and a measure below `n`.
  abbrev pub Proceeds : ℕ → Round S R → Type 0
  Proceeds n (go_on s rest) = V s × (2 * length rest + extra s < n)
  Proceeds n (read s) = V s
  Proceeds n (complete r rest) = Unit
  Proceeds n crash = ⊥

  -- A round of an operation of which `V` is the invariant.
  abbrev pub Progress : (S → Bytes → Round S R) → Type 0
  Progress round = (s : S) (xs : Bytes) → V s → Proceeds (2 * length xs + extra s) (round s xs)

  rounds-Settles :
      (round : S → Bytes → Round S R) (fuel : ℕ) (s : S) (xs : Bytes)
      → Progress round
      → V s
      → 2 * length xs + extra s < fuel
      → Settles V (rounds round fuel s xs)
  unfolding rounds
  rounds-Settles round zero s xs p v h = absurd (omega (arith, h))
  rounds-Settles round (suc fuel) s xs p v h =
      go (round s xs) (p s xs v) (λ s' rest q l. rounds-Settles round fuel s' rest p q l)
    where
      go :
          (o : Round S R)
          → Proceeds (2 * length xs + extra s) o
          → ((s' : S) (rest : Bytes)
              → V s'
              → 2 * length rest + extra s' < fuel
              → Settles V (rounds round fuel s' rest))
          → Settles V (elim o [
            | go_on s' rest ↦ rounds round fuel s' rest
            | read s' ↦ read s'
            | complete r rest ↦ complete r rest
            | crash ↦ crash
          ])
      go (go_on s' rest) q r = r s' rest q.0 (omega (arith, q.1, h))
      go (read s') q r = q
      go (complete r' rest) q r = tt
      go crash q r = absurd q

  pub do_rounds-Settles :
      (round : S → Bytes → Round S R) (s : S) (xs : Bytes)
      → Progress round
      → V s
      → extra s ≤ 1
      → Settles V (do_rounds round s xs)
  unfolding do_rounds
  do_rounds-Settles round s xs p v h =
      rounds-Settles round (2 * length xs + 2) s xs p v (omega (arith, h))

  -- The round of a message's parser.
  pub then_reply-Proceeds :
      (m : Message) (law : IsMessage m) (o : Reply (Frame m.State)) (xs : Bytes) (n : ℕ)
      (keep : Frame m.State → S) (next : m.State → Bytes → Round S R) (refusal : R)
      → Answered m law (length xs) o
      → ((g : Frame m.State) → Live m law g → V (keep g))
      → ((s : m.State) (rest : Bytes) → length rest < length xs → Proceeds n (next s rest))
      → Proceeds n (then_round o keep next refusal)
  then_reply-Proceeds m law (reply parse_success g rest) xs n keep next refusal a kept went =
      went g.result rest a
  then_reply-Proceeds m law (reply parse_need_more g rest) xs n keep next refusal a kept went =
      kept g a
  then_reply-Proceeds m law (reply _ g rest) xs n keep next refusal a kept went = tt
  then_reply-Proceeds m law fault xs n keep next refusal a kept went = absurd a

  pub then_round-Proceeds :
      (m : Message) (law : IsMessage m) (f : Frame m.State) (xs : Bytes) (n : ℕ)
      (keep : Frame m.State → S) (next : m.State → Bytes → Round S R) (refusal : R)
      → Live m law f
      → ((g : Frame m.State) → Live m law g → V (keep g))
      → ((s : m.State) (rest : Bytes) → length rest < length xs → Proceeds n (next s rest))
      → Proceeds n (then_round (basic_parser m f xs) keep next refusal)
  then_round-Proceeds m law f xs n keep next refusal live kept went =
      then_reply-Proceeds m law (basic_parser m f xs) xs n keep next refusal
        (basic_parser-Answered m law f xs live) kept went

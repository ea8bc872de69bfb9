-- ===== src/Postgres/Operation/Streaming.antt =====
-- An operation does not see how the replies of the server are cut into reads.
use mathlib.Core.Path.{subst}
use chxsql.Base.{
  ℕ, zero, suc, ◌+◌, ◌*◌, ◌≤◌, ◌<◌, Bytes, [], ◌++◌, ◌≡◌, refl, sym, ap, ◌∙◌, arith, length,
  length-append,
}
use chxsql.Postgres.Frame.Answers.{Live}
use chxsql.Postgres.Frame.Streaming.{
  Observed, done, waiting, refused, failed, observe, resume_reply, basic_parser-resumes,
}
use chxsql.Postgres.Frame.{Frame, Reply, reply, fault, basic_parser}
use chxsql.Postgres.Message.{Message, IsMessage}
use chxsql.Postgres.Operation.Termination.{Proceeds, Progress}
use chxsql.Postgres.Operation.{Round, go_on, read, complete, crash, then_round, rounds, do_rounds}
use chxsql.Postgres.Outcome.{parse_success, parse_need_more}

-- What is compared: of a completion, not the bytes that it leaves.
abbrev pub shown : {S R : Type 0} → Round S R → Round S R
shown (complete r rest) = complete r []
shown o = o

-- A round, or a loop, given more bytes.
abbrev pub resume_round : {S R : Type 0} → (S → Bytes → Round S R) → Round S R → Bytes → Round S R
resume_round run (go_on s rest) ys = go_on s (rest ++ ys)
resume_round run (read s) ys = run s ys
resume_round run (complete r rest) ys = complete r (rest ++ ys)
resume_round run crash ys = crash

module _ {S R : Type 0} where
  shown_go_on : (o : Round S R) (s : S) (rest : Bytes) → shown o ≡ go_on s rest → o ≡ go_on s rest
  shown_go_on (go_on s' rest') s rest e = e
  shown_go_on (read s') s rest e = e
  shown_go_on (complete r rest') s rest e = cc e
  shown_go_on crash s rest e = e

  -- The loop after a first round.
  abbrev after : (S → Bytes → Round S R) → ℕ → Round S R → Round S R
  after round fuel o = elim o [
    | go_on s' rest ↦ rounds round fuel s' rest
    | read s' ↦ read s'
    | complete r rest ↦ complete r rest
    | crash ↦ crash
  ]

  after-shown :
      (round : S → Bytes → Round S R) (fuel : ℕ) (o : Round S R)
      → shown (after round fuel o) ≡ shown (after round fuel (shown o))
  after-shown round fuel (go_on s rest) = refl
  after-shown round fuel (read s) = refl
  after-shown round fuel (complete r rest) = refl
  after-shown round fuel crash = refl

module _ {S R : Type 0} (V : S → Type 0) (extra : S → ℕ) (round : S → Bytes → Round S R)
    (progress : Progress V extra round) where
  -- Two amounts of fuel that are enough give the same.
  rounds_fuel :
      (f g : ℕ) (s : S) (xs : Bytes)
      → V s
      → 2 * length xs + extra s < f
      → 2 * length xs + extra s < g
      → rounds round f s xs ≡ rounds round g s xs
  unfolding rounds
  rounds_fuel zero g s xs v h k = absurd (omega (arith, h))
  rounds_fuel (suc f) zero s xs v h k = absurd (omega (arith, k))
  rounds_fuel (suc f) (suc g) s xs v h k =
      go (round s xs) (progress s xs v) (λ s' rest v' h' k'. rounds_fuel f g s' rest v' h' k')
    where
      go :
          (o : Round S R)
          → Proceeds V extra (2 * length xs + extra s) o
          → ((s' : S) (rest : Bytes)
              → V s'
              → 2 * length rest + extra s' < f
              → 2 * length rest + extra s' < g
              → rounds round f s' rest ≡ rounds round g s' rest)
          → after round f o ≡ after round g o
      go (go_on s' rest) q r = r s' rest q.0 (omega (arith, q.1, h)) (omega (arith, q.1, k))
      go (read s') q r = refl
      go (complete r' rest) q r = refl
      go crash q r = refl

  Proceeds-shown : (n : ℕ) (o : Round S R) → Proceeds V extra n o → Proceeds V extra n (shown o)
  Proceeds-shown n (go_on s rest) q = q
  Proceeds-shown n (read s) q = q
  Proceeds-shown n (complete r rest) q = q
  Proceeds-shown n crash q = q

  -- A first round with any fuel that is enough after it, and the loop.
  after_fuel :
      (f g n : ℕ) (s : S) (ys : Bytes)
      → V s
      → Proceeds V extra n (shown (round s ys))
      → n ≤ f
      → 2 * length ys + extra s < g
      → shown (after round f (round s ys)) ≡ shown (rounds round g s ys)
  unfolding rounds
  after_fuel f zero n s ys v p h k = absurd (omega (arith, k))
  after_fuel f (suc g) n s ys v p h k = go (round s ys) p (progress s ys v)
    where
      go :
          (o : Round S R)
          → Proceeds V extra n (shown o)
          → Proceeds V extra (2 * length ys + extra s) o
          → shown (after round f o) ≡ shown (after round g o)
      go (go_on s' rest) a b =
          ap shown (rounds_fuel f g s' rest b.0 (omega (arith, a.1, h)) (omega (arith, b.1, k)))
      go (read s') a b = refl
      go (complete r' rest) a b = refl
      go crash a b = refl

  -- The law of one round.
  abbrev pub Cuts : Type 0
  Cuts =
      (s : S) (xs ys : Bytes)
      → V s
      → shown (round s (xs ++ ys)) ≡ shown (resume_round round (round s xs) ys)

  rounds-resumes :
      (cuts : Cuts) (e f g : ℕ) (s : S) (xs ys : Bytes)
      → V s
      → 2 * length xs + extra s < e
      → 2 * length (xs ++ ys) + extra s < f
      → ((t : S) → V t → 2 * length ys + extra t < g)
      → shown (rounds round f s (xs ++ ys))
        ≡ shown (resume_round (rounds round g) (rounds round e s xs) ys)
  unfolding rounds
  rounds-resumes cuts zero f g s xs ys v h k l = absurd (omega (arith, h))
  rounds-resumes cuts (suc e) zero g s xs ys v h k l = absurd (omega (arith, k))
  rounds-resumes cuts (suc e) (suc f) g s xs ys v h k l =
      after-shown round f (round s (xs ++ ys))
      ∙ ap (λ o. shown (after round f o)) (cuts s xs ys v)
      ∙ sym (after-shown round f (resume_round round (round s xs) ys))
      ∙ go (round s xs) (progress s xs v)
          (subst (Proceeds V extra (2 * length (xs ++ ys) + extra s)) (cuts s xs ys v)
            (Proceeds-shown _ _ (progress s (xs ++ ys) v)))
          (λ s' rest v' h' k'. rounds-resumes cuts e f g s' rest ys v' h' k' l)
    where
      go :
          (o : Round S R)
          → Proceeds V extra (2 * length xs + extra s) o
          → Proceeds V extra (2 * length (xs ++ ys) + extra s) (shown (resume_round round o ys))
          → ((s' : S) (rest : Bytes)
              → V s'
              → 2 * length rest + extra s' < e
              → 2 * length (rest ++ ys) + extra s' < f
              → shown (rounds round f s' (rest ++ ys))
                ≡ shown (resume_round (rounds round g) (rounds round e s' rest) ys))
          → shown (after round f (resume_round round o ys))
            ≡ shown (resume_round (rounds round g) (after round e o) ys)
      go (go_on s' rest) q p r =
          r s' rest q.0 (omega (arith, q.1, h))
            (omega (arith, q.1, k, length-append rest ys, length-append xs ys))
      go (read s') q p r =
          after_fuel f g (2 * length (xs ++ ys) + extra s) s' ys q p (omega (arith, k)) (l s' q)
      go (complete r' rest) q p r = refl
      go crash q p r = refl

  refuelled :
      (o : Round S R) (ys : Bytes)
      → shown (resume_round (rounds round (2 * length ys + 2)) o ys)
        ≡ shown (resume_round (do_rounds round) o ys)
  unfolding do_rounds
  refuelled (go_on s rest) ys = refl
  refuelled (read s) ys = refl
  refuelled (complete r rest) ys = refl
  refuelled crash ys = refl

  -- A loop that gets its bytes in two reads does what it does when it gets them in one.
  pub do_rounds-resumes :
      (cuts : Cuts) (s : S) (xs ys : Bytes)
      → V s
      → ((t : S) → extra t ≤ 1)
      → shown (do_rounds round s (xs ++ ys))
        ≡ shown (resume_round (do_rounds round) (do_rounds round s xs) ys)
  unfolding do_rounds
  do_rounds-resumes cuts s xs ys v one =
      let h : 2 * length xs + extra s < 2 * length xs + 2 = omega (arith, one s) in
      let k : 2 * length (xs ++ ys) + extra s < 2 * length (xs ++ ys) + 2 = omega (arith, one s) in
      rounds-resumes cuts (2 * length xs + 2) (2 * length (xs ++ ys) + 2) (2 * length ys + 2) s xs
        ys v h k (λ t w. omega (arith, one t))
      ∙ refuelled (rounds round (2 * length xs + 2) s xs) ys

-- The law of the round of a message's parser.
module _ {S R : Type 0} (round : S → Bytes → Round S R) (m : Message) (law : IsMessage m)
    (keep : Frame m.State → S) (next : m.State → Bytes → Round S R) (refusal : R) where
  abbrev seen : Observed (Frame m.State) → Round S R
  seen (done f rest) = shown (next f.result rest)
  seen (waiting f rest) = read (keep f)
  seen (refused r) = complete refusal []
  seen failed = crash

  then_round-observe :
      (o : Reply (Frame m.State)) → shown (then_round o keep next refusal) ≡ seen (observe o)
  then_round-observe (reply parse_success f rest) = refl
  then_round-observe (reply parse_need_more f rest) = refl
  then_round-observe (reply _ f rest) = refl
  then_round-observe fault = refl

  pub then_reply-resumes :
      (run : Frame m.State → Bytes → Reply (Frame m.State)) (o o' : Reply (Frame m.State))
      (ys : Bytes)
      → observe o' ≡ observe (resume_reply run o ys)
      → ((g : Frame m.State) (zs : Bytes)
          → then_round (run g zs) keep next refusal ≡ round (keep g) zs)
      → ((s : m.State) (rest : Bytes)
          → shown (next s (rest ++ ys)) ≡ shown (resume_round round (next s rest) ys))
      → shown (then_round o' keep next refusal)
        ≡ shown (resume_round round (then_round o keep next refusal) ys)
  then_reply-resumes run o o' ys e kept went =
      then_round-observe o' ∙ ap seen e ∙ sym (then_round-observe (resume_reply run o ys)) ∙ go o
    where
      go :
          (o : Reply (Frame m.State))
          → shown (then_round (resume_reply run o ys) keep next refusal)
            ≡ shown (resume_round round (then_round o keep next refusal) ys)
      go (reply parse_success g rest) = went g.result rest
      go (reply parse_need_more g rest) = ap shown (kept g ys)
      go (reply _ g rest) = refl
      go fault = refl

  pub then_round-resumes :
      (f : Frame m.State) (xs ys : Bytes)
      → Live m law f
      → ((g : Frame m.State) (zs : Bytes)
          → then_round (basic_parser m g zs) keep next refusal ≡ round (keep g) zs)
      → ((s : m.State) (rest : Bytes)
          → shown (next s (rest ++ ys)) ≡ shown (resume_round round (next s rest) ys))
      → shown (then_round (basic_parser m f (xs ++ ys)) keep next refusal)
        ≡ shown (resume_round round (then_round (basic_parser m f xs) keep next refusal) ys)
  then_round-resumes f xs ys live kept went =
      then_reply-resumes (basic_parser m) (basic_parser m f xs) (basic_parser m f (xs ++ ys)) ys
        (basic_parser-resumes m law f xs ys (live.0, live.1)) kept went

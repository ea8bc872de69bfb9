-- ===== src/Mysql/Packet/Progress.antt =====
-- The invariant of the frame of a packet, and the fuel of its loop.
use chxsql.Base.{
  ℕ, zero, suc, ◌+◌, ◌-◌, ◌*◌, ◌≤◌, ◌<◌, min, Bytes, [], ◌∷◌, ◌++◌, ◌≡◌, refl, ◌∙◌, false, arith,
  length, take, drop, length-append, length-take, length-drop, drop_all, ◌==◌, Bool-cases, inl, inr,
}
use chxsql.Mysql.Packet.{
  PacketStage, packet_length, sequence_id, payload, Packet, new_packet, payload_length, copied,
  Handled, handled, unhandled, PayloadHandler, Fed, fed, fault, PacketTurn, next, answer, failed,
  header_answer, payload_answer, length_turn, sequence_turn, payload_handled, payload_turn, turn_at,
  packet_turn, packet_loop, feed,
}
use chxsql.Mysql.Result.{
  PayloadResult, payload_success, payload_pause, payload_need_more, payload_malformed, PacketResult,
  packet_need_more,
}

-- The bytes that a stage still wants, with the header's.
abbrev StageValid : PacketStage → ℕ → ℕ → Type 0
StageValid packet_length remain len = (0 < remain) × (remain ≤ 3)
StageValid sequence_id remain len = remain ≡ 1
StageValid payload remain len = remain ≤ len

-- The invariant: four bytes of header, and a stage that wants no more than there is.
abbrev pub WellFormed : Packet → Type 0
WellFormed p = (length p.header ≡ 4) × StageValid p.stage p.stage_remain (payload_length p.header)

-- What `feed` leaves: a well-formed packet, and nothing unread where it wants more.
abbrev Leaves : PacketResult → Bytes → Type 0
Leaves packet_need_more rest = rest ≡ []
Leaves r rest = Unit

-- A fault leaves nothing.
abbrev pub Keeps : {S : Type 0} → Fed S → Type 0
Keeps (fed r p s rest) = WellFormed p × Leaves r rest
Keeps fault = Unit

-- A payload may be empty, so its stage counts.
abbrev extra : PacketStage → ℕ
extra payload = 1
extra _ = 0

-- A turn goes on with less to read, or leaves the packet well formed, or fails for a reason.
abbrev TurnWell : {S : Type 0} → Type 0 → ℕ → PacketTurn S → Type 0
TurnWell Failure n (next p s rest) = WellFormed p × (2 * length rest + extra p.stage < n)
TurnWell Failure n (answer r p s rest) = WellFormed p × Leaves r rest
TurnWell Failure n failed = Failure

header_answer-Well :
    {S : Type 0} {Failure : Type 0} (o : Handled S) (p : Packet) (rest : Bytes) (n : ℕ)
    → (o ≡ unhandled → Failure)
    → WellFormed p
    → 2 * length rest + extra p.stage < n
    → TurnWell Failure n (header_answer o p rest)
header_answer-Well (handled payload_success s) p rest n f w h = (w, h)
header_answer-Well (handled payload_malformed s) p rest n f w h = (w, tt)
header_answer-Well (handled _ s) p rest n f w h = (w, tt)
header_answer-Well unhandled p rest n f w h = f refl

length-copied :
    (n : ℕ) (bs header : Bytes)
    → n + length bs ≤ length header
    → length (copied n bs header) ≡ length header
unfolding copied
length-copied n bs header h = omega (
  arith,
  length-append (take n header) (bs ++ drop (n + length bs) header),
  length-append bs (drop (n + length bs) header),
  length-take n header,
  length-drop (n + length bs) header,
)

extra_small : (g : PacketStage) → extra g ≤ 1
extra_small payload = omega arith
extra_small packet_length = omega arith
extra_small sequence_id = omega arith

weaker :
    {S : Type 0} (Failure : Type 0) (n m : ℕ) (t : PacketTurn S)
    → n ≤ m
    → TurnWell Failure n t
    → TurnWell Failure m t
weaker F n m (next p s rest) e w = (w.0, omega (arith, w.1, e))
weaker F n m (answer r p s rest) e w = w
weaker F n m failed e w = w

new_packet-WellFormed : WellFormed new_packet
new_packet-WellFormed = omega arith

final_answer-Well :
    {S : Type 0} (Failure : Type 0) (r : PayloadResult) (s : S) (rest : Bytes) (n : ℕ)
    → 2 * length rest < n
    → TurnWell Failure n (payload_answer r 0 new_packet s rest)
unfolding payload_answer
final_answer-Well F payload_success s rest n k = (new_packet-WellFormed, omega (arith, k))
final_answer-Well F payload_pause s rest n k = (new_packet-WellFormed, tt)
final_answer-Well F _ s rest n k = (new_packet-WellFormed, tt)

unfinished : (m : ℕ) → (suc m == 0) ≡ false
unfinished m = ground arith

partial_answer-Well :
    {S : Type 0} (Failure : Type 0) (r : PayloadResult) (m : ℕ) (p : Packet) (s : S) (rest : Bytes)
    (n : ℕ)
    → WellFormed p
    → rest ≡ []
    → TurnWell Failure n (payload_answer r (suc m) p s rest)
unfolding payload_answer
partial_answer-Well F payload_need_more m p s rest n w e = rw (unfinished m) (w, e)
partial_answer-Well F payload_success m p s rest n w e = rw (unfinished m) (w, tt)
partial_answer-Well F payload_pause m p s rest n w e = rw (unfinished m) (w, tt)
partial_answer-Well F _ m p s rest n w e = (w, tt)

-- The handler fails in this state.
pub data Fails (h : PayloadHandler) (s : h.State) : Type 0 where
  at_length : (n : ℕ) → h.on_packet_length_complete s n ≡ unhandled → Fails h s
  at_sequence : (n : ℕ) → h.on_sequence_id_complete s n ≡ unhandled → Fails h s
  at_payload : (remain n : ℕ) (xs : Bytes) → h.on_payload_data s remain n xs ≡ unhandled → Fails h s

-- A run of the loop as the source has it, without fuel: it goes round until a turn gives an answer
-- or the handler fails.
pub data Runs (h : PayloadHandler) : Packet → h.State → Bytes → Fed h.State → Type 0 where
  answers :
      {p : Packet} {s : h.State} {xs : Bytes} (r : PacketResult) (p' : Packet) (s' : h.State)
      (rest : Bytes)
      → packet_turn h p s xs ≡ answer r p' s' rest
      → Runs h p s xs (fed r p' s' rest)
  goes_on :
      {p : Packet} {s : h.State} {xs : Bytes} (p' : Packet) (s' : h.State) (rest : Bytes)
      (o : Fed h.State)
      → packet_turn h p s xs ≡ next p' s' rest
      → Runs h p' s' rest o
      → Runs h p s xs o
  fails :
      {p : Packet} {s : h.State} {xs : Bytes}
      → packet_turn h p s xs ≡ failed
      → Fails h s
      → Runs h p s xs fault

module _ (h : PayloadHandler) where
  length_turn-Well :
      (p : Packet) (s : h.State) (b : ℕ) (rest : Bytes)
      → length p.header ≡ 4
      → 0 < p.stage_remain
      → p.stage_remain ≤ 3
      → TurnWell (Fails h s) (2 * suc (length rest)) (length_turn h p s (b ∷ rest))
  unfolding length_turn
  length_turn-Well p s b rest e z k =
      let consumed = min p.stage_remain (suc (length rest)) in
      let bs = take consumed (b ∷ rest) in
      let header = copied (3 - p.stage_remain) bs p.header in
      let read : length bs ≡ consumed = omega (arith, length-take consumed (b ∷ rest)) in
      let kept : length header ≡ 4 =
        length-copied (3 - p.stage_remain) bs p.header (omega (arith, read, e, z, k)) ∙ e in
      let left : 2 * length (drop consumed (b ∷ rest)) + 0 < 2 * suc (length rest) =
        omega (arith, length-drop consumed (b ∷ rest), z) in
      elim (Bool-cases (p.stage_remain - consumed == 0)) [
        | inl q ↦ rw q (
            header_answer-Well (h.on_packet_length_complete s (payload_length header))
              (record { stage = sequence_id; header = header; stage_remain = 1 })
              (drop consumed (b ∷ rest)) (2 * suc (length rest))
              (λ f. at_length (payload_length header) f) (kept, refl) left)
        | inr q ↦
            let more : 0 < p.stage_remain - consumed = ground arith in
            let few : p.stage_remain - consumed ≤ 3 = omega (arith, k) in
            rw q ((kept, (more, few)), left)
      ]

  sequence_turn-Well :
      (p : Packet) (s : h.State) (b : ℕ) (rest : Bytes)
      → length p.header ≡ 4
      → TurnWell (Fails h s) (2 * suc (length rest)) (sequence_turn h p s b rest)
  unfolding sequence_turn
  sequence_turn-Well p s b rest e =
      let header = copied 3 (b ∷ []) p.header in
      header_answer-Well (h.on_sequence_id_complete s b)
        (record { stage = payload; header = header; stage_remain = payload_length header }) rest
        (2 * suc (length rest)) (λ f. at_sequence b f)
        (length-copied 3 (b ∷ []) p.header (omega arith) ∙ e, omega arith) (omega arith)

  payload_handled-Well :
      {Failure : Type 0} (o : Handled h.State) (remain : ℕ) (p : Packet) (rest : Bytes) (n : ℕ)
      → (o ≡ unhandled → Failure)
      → WellFormed p
      → 2 * length rest < n
      → (0 < remain → rest ≡ [])
      → TurnWell Failure n (payload_handled h o remain p rest)
  unfolding payload_handled
  payload_handled-Well unhandled remain p rest n f w k l = f refl
  payload_handled-Well (handled r s) zero p rest n f w k l = final_answer-Well _ r s rest n k
  payload_handled-Well (handled r s) (suc m) p rest n f w k l =
      rw (unfinished m) (partial_answer-Well _ r m p s rest n w (l (omega arith)))

  payload_turn-Well :
      (header : Bytes) (remain : ℕ) (s : h.State) (b : ℕ) (rest : Bytes)
      → length header ≡ 4
      → remain ≤ payload_length header
      → TurnWell (Fails h s) (2 * suc (length rest) + 1) (
          payload_turn h
            (record { stage = payload; header = header; stage_remain = remain })
            s
            (b ∷ rest))
  unfolding payload_turn
  payload_turn-Well header n s b rest e k =
      let consumed = min n (suc (length rest)) in
      let left : 2 * length (drop consumed (b ∷ rest)) < 2 * suc (length rest) + 1 =
        omega (arith, length-drop consumed (b ∷ rest)) in
      payload_handled-Well
        (h.on_payload_data s (n - consumed) (payload_length header) (take consumed (b ∷ rest)))
        (n - consumed) (record { stage = payload; header = header; stage_remain = n - consumed })
        (drop consumed (b ∷ rest)) (2 * suc (length rest) + 1)
        (λ f. at_payload (n - consumed) (payload_length header) (take consumed (b ∷ rest)) f)
        (e, omega (arith, k)) left (λ m. drop_all consumed (b ∷ rest) (omega (arith, m)))

  turn-Well :
      (g : PacketStage) (header : Bytes) (remain : ℕ) (s : h.State) (xs : Bytes)
      → WellFormed (record { stage = g; header = header; stage_remain = remain })
      → TurnWell
          (Fails h s)
          (2 * length xs + extra g)
          (packet_turn h (record { stage = g; header = header; stage_remain = remain }) s xs)
  unfolding packet_turn turn_at
  turn-Well g header n s [] w = (w, refl)
  turn-Well packet_length header n s (b ∷ rest) w =
      weaker (Fails h s) (2 * suc (length rest)) (2 * suc (length rest) + 0)
        (length_turn h (record { stage = packet_length; header = header; stage_remain = n }) s
          (b ∷ rest))
        (omega arith)
        (length_turn-Well (record { stage = packet_length; header = header; stage_remain = n }) s b
          rest w.0 w.1.0 w.1.1)
  turn-Well sequence_id header n s (b ∷ rest) w =
      weaker (Fails h s) (2 * suc (length rest)) (2 * suc (length rest) + 0)
        (sequence_turn h (record { stage = sequence_id; header = header; stage_remain = n }) s b
          rest)
        (omega arith)
        (sequence_turn-Well (record { stage = sequence_id; header = header; stage_remain = n }) s b
          rest w.0)
  turn-Well payload header n s (b ∷ rest) w = payload_turn-Well header n s b rest w.0 w.1

  loop-Runs :
      (fuel : ℕ) (p : Packet) (s : h.State) (xs : Bytes)
      → WellFormed p
      → 2 * length xs + extra p.stage < fuel
      → Runs h p s xs (packet_loop h fuel p s xs) × Keeps (packet_loop h fuel p s xs)
  unfolding packet_loop
  loop-Runs zero p s xs w k = absurd (omega (arith, k))
  loop-Runs (suc fuel) p s xs w k =
      go (packet_turn h p s xs) refl (turn-Well p.stage p.header p.stage_remain s xs w)
        (λ p' s' rest w' k'. loop-Runs fuel p' s' rest w' k')
    where
      after : PacketTurn h.State → Fed h.State
      after t = elim t [
        | next p' s' rest ↦ packet_loop h fuel p' s' rest
        | answer r p' s' rest ↦ fed r p' s' rest
        | failed ↦ fault
      ]

      go :
          (t : PacketTurn h.State)
          → packet_turn h p s xs ≡ t
          → TurnWell (Fails h s) (2 * length xs + extra p.stage) t
          → ((p' : Packet) (s' : h.State) (rest : Bytes)
              → WellFormed p'
              → 2 * length rest + extra p'.stage < fuel
              → Runs h p' s' rest (packet_loop h fuel p' s' rest)
                × Keeps (packet_loop h fuel p' s' rest))
          → Runs h p s xs (after t) × Keeps (after t)
      go (next p' s' rest) e t r =
          let (run, kept) = r p' s' rest t.0 (omega (arith, t.1, k)) in
          (goes_on p' s' rest (packet_loop h fuel p' s' rest) e run, kept)
      go (answer q p' s' rest) e t r = (answers q p' s' rest e, t)
      go failed e t r = (fails e t, tt)

  -- From a well-formed packet and with any handler, `feed` gives on every input what a run of the
  -- loop without fuel gives, which is a fault only in a state in which the handler fails; else it
  -- keeps the invariant of the packet, and where it wants more it has read all.
  pub feed-Runs :
      (p : Packet) (s : h.State) (xs : Bytes)
      → WellFormed p
      → Runs h p s xs (feed h p s xs) × Keeps (feed h p s xs)
  unfolding feed
  feed-Runs p s xs w = loop-Runs (2 * length xs + 2) p s xs w (omega (arith, extra_small p.stage))

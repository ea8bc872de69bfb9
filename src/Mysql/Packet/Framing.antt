-- ===== src/Mysql/Packet/Framing.antt =====
-- The frame of a packet and a packet that is whole.
use chxsql.Base.{
  ℕ, suc, ◌+◌, ◌-◌, ◌*◌, ◌/◌, ◌%◌, ◌^◌, ◌<◌, min, Bytes, [], ◌∷◌, ◌++◌, ◌≡◌, refl, ◌∙◌, take, drop,
  arith, length, length-append, take-append_add, drop-append_add, append-nil,
}
use chxsql.Mysql.Encode.{fixed_length_integer_to_network}
use chxsql.Mysql.Packet.{
  sequence_id, payload, Packet, new_packet, payload_length, copied, handled, PayloadHandler, fed,
  next, answer, failed, fault, payload_answer, length_turn, sequence_turn, payload_handled,
  payload_turn, turn_at, packet_turn, packet_loop,
}
use chxsql.Mysql.Result.{PayloadResult, payload_success, payload_pause, packet_paused}

-- The protocol's frame: the length of the payload, the sequence number, the payload.
abbrev pub packet_layout : ℕ → Bytes → Bytes → Bytes
packet_layout sequence bs rest =
    fixed_length_integer_to_network 3 (length bs) ++ sequence ∷ (bs ++ rest)

abbrev at_sequence : ℕ → ℕ → ℕ → Packet
at_sequence a b c = record { stage = sequence_id; header = a ∷ b ∷ c ∷ 0 ∷ []; stage_remain = 1 }

abbrev at_payload : ℕ → ℕ → ℕ → ℕ → ℕ → Packet
at_payload a b c d n = record { stage = payload; header = a ∷ b ∷ c ∷ d ∷ []; stage_remain = n }

module _ (h : PayloadHandler) where
  length_turned :
      (s s' : h.State) (a b c n : ℕ) (rest : Bytes)
      → a + b * 2 ^ 8 + c * 2 ^ 16 ≡ n
      → h.on_packet_length_complete s n ≡ handled payload_success s'
      → packet_turn h new_packet s (a ∷ b ∷ c ∷ rest) ≡ next (at_sequence a b c) s' rest
  unfolding packet_turn turn_at length_turn copied payload_length
  length_turned s s' a b c n rest e l =
      let three : min 3 (suc (suc (suc (length rest)))) ≡ 3 = omega arith in
      rw three (rw e (rw l refl))

  sequence_turned :
      (s s' : h.State) (a b c d n : ℕ) (rest : Bytes)
      → a + b * 2 ^ 8 + c * 2 ^ 16 ≡ n
      → h.on_sequence_id_complete s d ≡ handled payload_success s'
      → packet_turn h (at_sequence a b c) s (d ∷ rest) ≡ next (at_payload a b c d n) s' rest
  unfolding packet_turn turn_at sequence_turn copied payload_length
  sequence_turned s s' a b c d n rest e l = rw (l, e) refl

  payload_turned :
      (s s' : h.State) (a b c d x : ℕ) (xs rest : Bytes) (r : PayloadResult)
      → a + b * 2 ^ 8 + c * 2 ^ 16 ≡ length (x ∷ xs)
      → h.on_payload_data s 0 (length (x ∷ xs)) (x ∷ xs) ≡ handled r s'
      → packet_turn h (at_payload a b c d (length (x ∷ xs))) s (x ∷ (xs ++ rest))
        ≡ payload_answer r 0 new_packet s' rest
  unfolding packet_turn turn_at payload_turn payload_handled payload_length
  payload_turned s s' a b c d x xs rest r e l =
      let c0 : min (suc (length xs)) (suc (length (xs ++ rest))) ≡ length (x ∷ xs) + 0 =
        omega (arith, length-append xs rest) in
      let z : suc (length xs) - (length (x ∷ xs) + 0) ≡ 0 = omega arith in
      let t : take (length (x ∷ xs) + 0) (x ∷ (xs ++ rest)) ≡ x ∷ xs =
        take-append_add (x ∷ xs) rest 0 ∙ append-nil (x ∷ xs) in
      let d0 : drop (length (x ∷ xs) + 0) (x ∷ (xs ++ rest)) ≡ rest =
        drop-append_add (x ∷ xs) rest 0 in
      rw (c0, z, t, d0, e, l) refl

  -- A packet whose header the handler accepts: three turns, the last with the whole payload.
  packet_turned :
      (s s1 s2 s3 : h.State) (sequence x k : ℕ) (xs rest : Bytes) (r : PayloadResult)
      → length (x ∷ xs) < 2 ^ 24
      → h.on_packet_length_complete s (length (x ∷ xs)) ≡ handled payload_success s1
      → h.on_sequence_id_complete s1 sequence ≡ handled payload_success s2
      → h.on_payload_data s2 0 (length (x ∷ xs)) (x ∷ xs) ≡ handled r s3
      → packet_loop h (suc (suc (suc k))) new_packet s (packet_layout sequence (x ∷ xs) rest)
        ≡ (elim (payload_answer r 0 new_packet s3 rest) [
          | next p' s' rest' ↦ packet_loop h k p' s' rest'
          | answer r' p' s' rest' ↦ fed r' p' s' rest'
          | failed ↦ fault
        ])
  unfolding packet_loop fixed_length_integer_to_network
  packet_turned s s1 s2 s3 sequence x k xs rest r n l q d =
      let len = length (x ∷ xs) in
      let a = len % 256 in
      let b = len / 256 % 256 in
      let c = len / 256 / 256 % 256 in
      let e : a + b * 2 ^ 8 + c * 2 ^ 16 ≡ len = omega (arith, n) in
      rw
        (
          length_turned s s1 a b c len (sequence ∷ (x ∷ (xs ++ rest))) e l,
          packet_loop,
          sequence_turned s1 s2 a b c sequence len (x ∷ (xs ++ rest)) e q,
          payload_turned s2 s3 a b c sequence x xs rest r e d,
        )
        refl

  packet_accepted :
      (s s1 s2 s3 : h.State) (sequence x k : ℕ) (xs rest : Bytes)
      → length (x ∷ xs) < 2 ^ 24
      → h.on_packet_length_complete s (length (x ∷ xs)) ≡ handled payload_success s1
      → h.on_sequence_id_complete s1 sequence ≡ handled payload_success s2
      → h.on_payload_data s2 0 (length (x ∷ xs)) (x ∷ xs) ≡ handled payload_success s3
      → packet_loop h (suc (suc (suc k))) new_packet s (packet_layout sequence (x ∷ xs) rest)
        ≡ packet_loop h k new_packet s3 rest
  unfolding payload_answer
  packet_accepted s s1 s2 s3 sequence x k xs rest n l q d =
      packet_turned s s1 s2 s3 sequence x k xs rest payload_success n l q d

  packet_paused_at :
      (s s1 s2 s3 : h.State) (sequence x k : ℕ) (xs rest : Bytes)
      → length (x ∷ xs) < 2 ^ 24
      → h.on_packet_length_complete s (length (x ∷ xs)) ≡ handled payload_success s1
      → h.on_sequence_id_complete s1 sequence ≡ handled payload_success s2
      → h.on_payload_data s2 0 (length (x ∷ xs)) (x ∷ xs) ≡ handled payload_pause s3
      → packet_loop h (suc (suc (suc k))) new_packet s (packet_layout sequence (x ∷ xs) rest)
        ≡ fed packet_paused new_packet s3 rest
  unfolding payload_answer
  packet_paused_at s s1 s2 s3 sequence x k xs rest n l q d =
      packet_turned s s1 s2 s3 sequence x k xs rest payload_pause n l q d

  -- A packet with a payload that the handler accepts leaves the loop at the next packet.
  pub packet_takes :
      (s s1 s2 s3 : h.State) (sequence k : ℕ) (bs rest : Bytes)
      → 0 < length bs
      → length bs < 2 ^ 24
      → h.on_packet_length_complete s (length bs) ≡ handled payload_success s1
      → h.on_sequence_id_complete s1 sequence ≡ handled payload_success s2
      → h.on_payload_data s2 0 (length bs) bs ≡ handled payload_success s3
      → packet_loop h (suc (suc (suc k))) new_packet s (packet_layout sequence bs rest)
        ≡ packet_loop h k new_packet s3 rest
  packet_takes s s1 s2 s3 sequence k [] rest z n l q d = absurd (omega (arith, z))
  packet_takes s s1 s2 s3 sequence k (x ∷ xs) rest z n l q d =
      packet_accepted s s1 s2 s3 sequence x k xs rest n l q d

  -- A packet with a payload at which the handler pauses ends the loop.
  pub packet_pauses :
      (s s1 s2 s3 : h.State) (sequence k : ℕ) (bs rest : Bytes)
      → 0 < length bs
      → length bs < 2 ^ 24
      → h.on_packet_length_complete s (length bs) ≡ handled payload_success s1
      → h.on_sequence_id_complete s1 sequence ≡ handled payload_success s2
      → h.on_payload_data s2 0 (length bs) bs ≡ handled payload_pause s3
      → packet_loop h (suc (suc (suc k))) new_packet s (packet_layout sequence bs rest)
        ≡ fed packet_paused new_packet s3 rest
  packet_pauses s s1 s2 s3 sequence k [] rest z n l q d = absurd (omega (arith, z))
  packet_pauses s s1 s2 s3 sequence k (x ∷ xs) rest z n l q d =
      packet_paused_at s s1 s2 s3 sequence x k xs rest n l q d

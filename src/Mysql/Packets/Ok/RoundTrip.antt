-- ===== src/Mysql/Packets/Ok/RoundTrip.antt =====
-- The layout of an OK packet, and its parser.
use chxsql.Base.{
  ℕ, ◌%◌, ◌^◌, ◌<◌, Bytes, [], ◌∷◌, ◌++◌, ◌≡◌, refl, ap, ◌∙◌, true, false, arith, ◌==◌,
}
use chxsql.Mysql.Basic.RoundTrip.{read_two, length_encoded_integer-lenenc, length_read_value}
use chxsql.Mysql.Basic.{no_digits, new_length_integer}
use chxsql.Mysql.Encode.{fixed_length_integer_to_network, lenenc_integer}
use chxsql.Mysql.Packets.Ok.{
  OkPacket, new_ok, ok_at, info_stage, has_flag, session_track, info_case, warnings_case,
  status_flags_case, last_insert_id_case, affected_rows_case, ok_header_case, ok_parser,
}
use chxsql.Mysql.Result.{parsed, payload_success}

-- The layout of an OK packet for a client without CLIENT_SESSION_TRACK, after its header.
abbrev pub encode_ok : OkPacket → Bytes
encode_ok r =
    lenenc_integer r.affected_rows
    ++ (lenenc_integer r.last_insert_id
        ++ (fixed_length_integer_to_network 2 r.status_flags
            ++ (fixed_length_integer_to_network 2 r.warnings ++ r.info)))

-- The numbers fit their fields, the first two the parser of their length.
abbrev pub ValidOk : OkPacket → Type 0
ValidOk r =
    (r.affected_rows < 2 ^ 24)
    × (r.last_insert_id < 2 ^ 24)
    × (r.status_flags < 2 ^ 16)
    × (r.warnings < 2 ^ 16)

abbrev pub ok_packet : ℕ → ℕ → ℕ → ℕ → Bytes → OkPacket
ok_packet rows id status count info = record {
  affected_rows = rows;
  last_insert_id = id;
  status_flags = status;
  warnings = count;
  info = info;
  session_state_info = [];
}

module _ (client_cap : ℕ) (untracked : has_flag session_track client_cap ≡ false) where
  warnings_read :
      (rows id status count : ℕ) (info : Bytes)
      → count < 2 ^ 16
      → warnings_case client_cap true
          (ok_packet rows id status 0 [])
          no_digits
          (fixed_length_integer_to_network 2 count ++ info)
        ≡ parsed payload_success (ok_at info_stage (ok_packet rows id status count info)) []
  unfolding warnings_case info_case
  warnings_read rows id status count info h =
      let same : count % 2 ^ 16 ≡ count = omega (arith, h) in
      rw (read_two count info h, warnings_case) (rw (untracked, same) refl)

  status_read :
      (rows id status count : ℕ) (info : Bytes)
      → status < 2 ^ 16
      → count < 2 ^ 16
      → status_flags_case client_cap true (ok_packet rows id 0 0 []) no_digits (
          fixed_length_integer_to_network 2 status
          ++ (fixed_length_integer_to_network 2 count ++ info))
        ≡ parsed payload_success (ok_at info_stage (ok_packet rows id status count info)) []
  unfolding status_flags_case
  status_read rows id status count info h k =
      let same : status % 2 ^ 16 ≡ status = omega (arith, h) in
      rw (read_two status (fixed_length_integer_to_network 2 count ++ info) h, status_flags_case)
        (ap
            (λ (v : ℕ).
              warnings_case client_cap true (ok_packet rows id v 0 []) no_digits
                (fixed_length_integer_to_network 2 count ++ info))
            same
          ∙ warnings_read rows id status count info k)

  id_read :
      (rows id status count : ℕ) (info : Bytes)
      → id < 2 ^ 24
      → status < 2 ^ 16
      → count < 2 ^ 16
      → last_insert_id_case client_cap true (ok_packet rows 0 0 0 []) new_length_integer (
          lenenc_integer id
          ++ (fixed_length_integer_to_network 2 status
              ++ (fixed_length_integer_to_network 2 count ++ info)))
        ≡ parsed payload_success (ok_at info_stage (ok_packet rows id status count info)) []
  unfolding last_insert_id_case
  id_read rows id status count info g h k =
      let after =
        fixed_length_integer_to_network 2 status
        ++ (fixed_length_integer_to_network 2 count ++ info) in
      rw (length_encoded_integer-lenenc id after g, last_insert_id_case)
        (ap (λ (v : ℕ). status_flags_case client_cap true (ok_packet rows v 0 0 []) no_digits after)
            (length_read_value id)
          ∙ status_read rows id status count info h k)

  -- A whole OK packet is read back, for a client without CLIENT_SESSION_TRACK.
  pub ok_parser-encode :
      (header_ch : ℕ) (rows id status count : ℕ) (info : Bytes)
      → ValidOk (ok_packet rows id status count info)
      → ok_parser client_cap true header_ch new_ok
          (header_ch ∷ encode_ok (ok_packet rows id status count info))
        ≡ parsed payload_success (ok_at info_stage (ok_packet rows id status count info)) []
  unfolding ok_parser ok_header_case affected_rows_case
  ok_parser-encode header_ch rows id status count info v =
      let after =
        lenenc_integer id
        ++ (fixed_length_integer_to_network 2 status
            ++ (fixed_length_integer_to_network 2 count ++ info)) in
      let found : (header_ch == header_ch) ≡ true = ground arith in
      rw (found, length_encoded_integer-lenenc rows after v.0, affected_rows_case)
        (ap
            (λ (n : ℕ).
              last_insert_id_case client_cap true (ok_packet n 0 0 0 []) new_length_integer after)
            (length_read_value rows)
          ∙ id_read rows id status count info v.1 v.2 v.3)

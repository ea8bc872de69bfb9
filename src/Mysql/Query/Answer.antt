-- ===== src/Mysql/Query/Answer.antt =====
-- A query and the whole answer of a server, from the first packet to the last.
use mathlib.Core.Path.{subst}
use chxsql.Base.{
  ℕ, suc, ◌-◌, ◌+◌, ◌*◌, ◌%◌, ◌^◌, ◌≤◌, ◌<◌, Bytes, List, [], ◌∷◌, ◌++◌, ◌≡◌, refl, sym, ap, ◌∙◌,
  false, Option, arith, length, length-append, append-nil, ltb, lt→ltb, ◌==◌, Bool-cases, inl, inr,
}
use chxsql.Mysql.Basic.RoundTrip.{
  length-to_network, length_encoded_integer-lenenc, length_read, length_read_value,
}
use chxsql.Mysql.Basic.{new_length_integer, length_encoded_integer}
use chxsql.Mysql.Encode.{fixed_length_integer_to_network, lenenc_integer}
use chxsql.Mysql.ErrorCode.{no_error}
use chxsql.Mysql.Packet.Framing.{packet_layout, packet_takes}
use chxsql.Mysql.Packet.{new_packet, handled, fed, feed, packet_loop}
use chxsql.Mysql.Packets.ColumnDefinition.{new_column}
use chxsql.Mysql.Packets.Resultset.RoundTrip.{encode_row}
use chxsql.Mysql.Packets.ColumnDefinition.RoundTrip.{encode_column}
use chxsql.Mysql.Packets.Ok.{has_flag, session_track}
use chxsql.Mysql.Query.Completion.{
  ValidRows, EndPacket, ValidEnd, end_bytes, rows_and_end, Column, ValidColumns, columns_and_rows,
  column_names, after_columns, columns_loop,
}
use chxsql.Mysql.Query.Steps.{query_at, sequence_accepted}
use chxsql.Mysql.Query.{
  s2_column_def, initial_guess, new_query, query_sent, query_column_count, query_guess, finished,
  query_payload, query_handler, completed, query_fed, query_read,
}
use chxsql.Mysql.Result.{parsed, payload_success, packet_paused, make_success}

layout_size :
    (k : ℕ) (bs rest : Bytes) → length (packet_layout k bs rest) ≡ 4 + length bs + length rest
layout_size k bs rest = omega (
  arith,
  length-append (fixed_length_integer_to_network 3 (length bs)) (k ∷ (bs ++ rest)),
  length-to_network 3 (length bs),
  length-append bs rest,
)

rows_size :
    (k : ℕ) (rs : List (List (Option Bytes))) (e : EndPacket)
    → 4 * length rs + 4 ≤ length (rows_and_end k rs e)
rows_size k [] e = omega (arith, layout_size (k % 2 ^ 8) (end_bytes e) [])
rows_size k (r ∷ rs) e = omega (
  arith,
  layout_size (k % 2 ^ 8) (encode_row r) (rows_and_end (k + 1) rs e),
  rows_size (k + 1) rs e,
)

columns_size :
    (k : ℕ) (cs : List Column) (rs : List (List (Option Bytes))) (e : EndPacket)
    → 4 * length cs + 4 * length rs + 4 ≤ length (columns_and_rows k cs rs e)
columns_size k [] rs e = omega (arith, rows_size k rs e)
columns_size k ((names, c) ∷ cs) rs e = omega (
  arith,
  layout_size (k % 2 ^ 8) (encode_column names c []) (columns_and_rows (k + 1) cs rs e),
  columns_size (k + 1) cs rs e,
)

-- A count of columns begins like no ERR and no OK packet.
count_start :
    (n : ℕ)
    → 0 < n
    → n < 2 ^ 24
    → (b : ℕ) × (bs : Bytes) × (lenenc_integer n ≡ b ∷ bs)
      × ((b == 0xff) ≡ false)
      × ((b == 0x00) ≡ false)
unfolding lenenc_integer
count_start n z h = elim (Bool-cases (ltb n 251)) [
  | inl one ↦ (n, [], rw one refl, ground arith, ground arith)
  | inr more ↦ elim (Bool-cases (ltb n (2 ^ 16))) [
    | inl two ↦ (0xfc, fixed_length_integer_to_network 2 n, rw (more, two) refl, refl, refl)
    | inr three ↦ (
      0xfd,
      fixed_length_integer_to_network 3 n,
      rw (more, three, lt→ltb n (2 ^ 24) h) refl,
      refl,
      refl,
    )
  ]
]

count_size : (n : ℕ) → length (lenenc_integer n) < 2 ^ 24
unfolding lenenc_integer
count_size n = ground (arith, length-to_network 2 n, length-to_network 3 n, length-to_network 8 n)

module _ (client_cap : ℕ) where
  guessed_count :
      (k b : ℕ) (bs : Bytes)
      → (b == 0xff) ≡ false
      → (b == 0x00) ≡ false
      → (len : ℕ)
      → query_payload client_cap (query_at initial_guess k 0 [] []) 0 len (b ∷ bs)
        ≡ query_column_count client_cap
            (query_at initial_guess k 0 [] [])
            new_length_integer
            (b ∷ bs)
  unfolding query_payload query_guess
  guessed_count k b bs p q len = rw (p, q) refl

  count_taken :
      (k n len : ℕ)
      → 0 < n
      → n < 2 ^ 24
      → query_payload client_cap (query_at initial_guess k 0 [] []) 0 len (lenenc_integer n)
        ≡ handled payload_success (query_at (s2_column_def new_column) k n [] [])
  unfolding query_column_count make_success
  count_taken k n len z h =
      let s = query_at initial_guess k 0 [] [] in
      let first = count_start n z h in
      let read : length_encoded_integer new_length_integer (lenenc_integer n)
          ≡ parsed payload_success (length_read n) [] =
        ap (length_encoded_integer new_length_integer) (sym (append-nil (lenenc_integer n)))
        ∙ length_encoded_integer-lenenc n [] h in
      let guessed : query_payload client_cap s 0 len (lenenc_integer n)
          ≡ query_column_count client_cap s new_length_integer (lenenc_integer n) =
        ap (λ (xs : Bytes). query_payload client_cap s 0 len xs) first.2
        ∙ guessed_count k first.0 first.1 first.3 first.4 len
        ∙ ap (λ (xs : Bytes). query_column_count client_cap s new_length_integer xs)
            (sym first.2) in
      guessed
      ∙ rw (read, query_column_count)
          (ap (λ (c : ℕ). handled payload_success (query_at (s2_column_def new_column) k c [] []))
            (length_read_value n))

-- The answer to a query: the count of the columns, their definitions, the rows and the end.
abbrev pub answer_packets : List Column → List (List (Option Bytes)) → EndPacket → Bytes
answer_packets cs rs e = packet_layout 1 (lenenc_integer (length cs)) (columns_and_rows 2 cs rs e)

module _ (client_cap : ℕ) (cs : List Column) (rs : List (List (Option Bytes))) (e : EndPacket) where
  answer_loop :
      (fuel : ℕ)
      → has_flag session_track client_cap ≡ false
      → 0 < length cs
      → length cs < 2 ^ 24
      → ValidColumns cs
      → ValidRows (length cs) rs
      → ValidEnd e
      → 3 * length cs + 3 * length rs + 3 ≤ fuel
      → packet_loop
          (query_handler client_cap)
          (suc (suc (suc fuel)))
          new_packet
          (query_at initial_guess 1 0 [] [])
          (answer_packets cs rs e)
        ≡ fed packet_paused new_packet
            (query_at finished (after_columns 2 cs rs) (length cs) (column_names cs) rs)
            []
  answer_loop fuel u z h c w v k =
      let some_bytes : 0 < length (lenenc_integer (length cs)) =
        let first = count_start (length cs) z h in
        subst (λ (n : ℕ). 0 < n) (sym (ap length first.2)) (omega arith) in
      packet_takes (query_handler client_cap) (query_at initial_guess 1 0 [] [])
        (query_at initial_guess 1 0 [] []) (query_at initial_guess 2 0 [] [])
        (query_at (s2_column_def new_column) 2 (length cs) [] []) 1 fuel
        (lenenc_integer (length cs)) (columns_and_rows 2 cs rs e) some_bytes
        (count_size (length cs)) refl (sequence_accepted initial_guess 1 0 [] [])
        (count_taken client_cap 2 (length cs) (length (lenenc_integer (length cs))) z h)
      ∙ columns_loop client_cap u e v (length cs) z rs w 2 fuel [] cs c (omega arith) k

  fuelled :
      feed (query_handler client_cap) new_packet (query_sent new_query) (answer_packets cs rs e)
      ≡ packet_loop
          (query_handler client_cap)
          (suc (suc (suc (2 * length (answer_packets cs rs e) - 1))))
          new_packet
          (query_at initial_guess 1 0 [] [])
          (answer_packets cs rs e)
  unfolding feed query_sent
  fuelled =
      let n : 2 * length (answer_packets cs rs e) + 2
          ≡ suc (suc (suc (2 * length (answer_packets cs rs e) - 1))) =
        omega (arith, layout_size 1 (lenenc_integer (length cs)) (columns_and_rows 2 cs rs e)) in
      ap
        (λ (k : ℕ).
          packet_loop (query_handler client_cap) k new_packet (query_at initial_guess 1 0 [] [])
            (answer_packets cs rs e))
        n

-- A query of a client without CLIENT_SESSION_TRACK that is answered, in one read, by a count of at
-- least one column, as many definitions, rows with a value for each and an OK packet, numbered on
-- from the request, completes without an error and with the names of the columns and all the rows.
-- Texts have fewer than 2 ^ 24 bytes, numbers fit, and each payload fits a packet.
pub query_read-answer :
    (client_cap : ℕ) (cs : List Column) (rs : List (List (Option Bytes))) (e : EndPacket)
    → has_flag session_track client_cap ≡ false
    → 0 < length cs
    → length cs < 2 ^ 24
    → ValidColumns cs
    → ValidRows (length cs) rs
    → ValidEnd e
    → query_read client_cap no_error new_packet (query_sent new_query) (answer_packets cs rs e)
      ≡ completed no_error (column_names cs) rs
unfolding query_read query_fed
query_read-answer client_cap cs rs e u z h c w v = ap query_fed (
    fuelled client_cap cs rs e
    ∙ answer_loop client_cap cs rs e (2 * length (answer_packets cs rs e) - 1) u z h c w v (
        omega (
          arith,
          columns_size 2 cs rs e,
          layout_size 1 (lenenc_integer (length cs)) (columns_and_rows 2 cs rs e),
        )))

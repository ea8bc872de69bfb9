-- ===== src/Mysql/Query/Completion.antt =====
-- A query and the packets of the result set that a server sends.
use mathlib.Core.Path.{subst}
use chxsql.Base.{
  ℕ, zero, suc, ◌+◌, ◌*◌, ◌%◌, ◌^◌, ◌≤◌, ◌<◌, Bytes, List, [], ◌∷◌, ◌++◌, ◌≡◌, refl, sym, ap, ◌∙◌,
  false, Option, arith, length, length-append, append-nil, append_assoc,
}
use chxsql.Mysql.Encode.{lenenc_str, lenenc_integer}
use chxsql.Mysql.Packet.Framing.{packet_layout, packet_takes, packet_pauses}
use chxsql.Mysql.Packet.{new_packet, handled, fed, packet_loop}
use chxsql.Mysql.Packets.ColumnDefinition.RoundTrip.{ColumnNames, ValidColumn, encode_column}
use chxsql.Mysql.Packets.ColumnDefinition.{ColumnPacket, new_column}
use chxsql.Mysql.Packets.Ok.{has_flag, session_track}
use chxsql.Mysql.Packets.Ok.RoundTrip.{encode_ok, ok_packet, ValidOk}
use chxsql.Mysql.Packets.Resultset.RoundTrip.{encode_row, ShortRow, row_start}
use chxsql.Mysql.Query.{
  QueryStage, s2_column_def, s2_row_guess, finished, query_payload, query_handler,
}
use chxsql.Mysql.Result.{payload_success, payload_pause, packet_paused}
use chxsql.Mysql.Query.Steps.{
  query_at, sequence_accepted, described, row_taken, end_taken, column_taken,
}

-- A row has a value for each column, and fits a packet.
abbrev pub ValidRows : ℕ → List (List (Option Bytes)) → Type 0
ValidRows count [] = Unit
ValidRows count (r ∷ rs) =
    (length r ≡ count) × ShortRow r × (length (encode_row r) < 2 ^ 24) × ValidRows count rs

-- The end of a result set.
abbrev pub EndPacket : Type 0
EndPacket = ℕ × ℕ × ℕ × ℕ × Bytes

abbrev pub end_bytes : EndPacket → Bytes
end_bytes (affected, id, status, warned, info) =
    0xfe ∷ encode_ok (ok_packet affected id status warned info)

abbrev pub ValidEnd : EndPacket → Type 0
ValidEnd (affected, id, status, warned, info) =
    ValidOk (ok_packet affected id status warned info)
    × (suc (length (encode_ok (ok_packet affected id status warned info))) < 0xffffff)

-- The packets of the rows and of the end, numbered on from `k`.
abbrev pub rows_and_end : ℕ → List (List (Option Bytes)) → EndPacket → Bytes
rows_and_end k [] e = packet_layout (k % 2 ^ 8) (end_bytes e) []
rows_and_end k (r ∷ rs) e = packet_layout (k % 2 ^ 8) (encode_row r) (rows_and_end (k + 1) rs e)

-- The number after those packets.
abbrev pub after_rows : ℕ → List (List (Option Bytes)) → ℕ
after_rows k [] = k + 1
after_rows k (r ∷ rs) = after_rows (k + 1) rs

ending_taken :
    (client_cap k count : ℕ) (defs : List Bytes) (rows : List (List (Option Bytes))) (e : EndPacket)
    → has_flag session_track client_cap ≡ false
    → ValidEnd e
    → query_payload client_cap
        (query_at s2_row_guess k count defs rows)
        0
        (length (end_bytes e))
        (end_bytes e)
      ≡ handled payload_pause (query_at finished k count defs rows)
ending_taken client_cap k count defs rows (affected, id, status, warned, info) u v =
    end_taken client_cap k count affected id status warned info defs rows u v.0 v.1

ending_size :
    (e : EndPacket) → ValidEnd e → (0 < length (end_bytes e)) × (length (end_bytes e) < 2 ^ 24)
ending_size (affected, id, status, warned, info) v = (omega arith, omega (arith, v.1))

module _ (client_cap : ℕ) (untracked : has_flag session_track client_cap ≡ false) (e : EndPacket)
    (v : ValidEnd e) (count : ℕ) (defs : List Bytes) where
  -- A stage in which a payload is a row or the end.
  abbrev RowReady : QueryStage → Type 0
  RowReady g =
      (k len : ℕ) (rows : List (List (Option Bytes))) (xs : Bytes)
      → query_payload client_cap (query_at g k count defs rows) 0 len xs
        ≡ query_payload client_cap (query_at s2_row_guess k count defs rows) 0 len xs

  rows_loop :
      (g : QueryStage) (k fuel : ℕ) (rows rs : List (List (Option Bytes)))
      → RowReady g
      → 0 < count
      → ValidRows count rs
      → 3 * length rs + 3 ≤ fuel
      → packet_loop
          (query_handler client_cap)
          fuel
          new_packet
          (query_at g k count defs rows)
          (rows_and_end k rs e)
        ≡ fed packet_paused new_packet
            (query_at finished (after_rows k rs) count defs (rows ++ rs))
            []
  rows_loop g k zero rows rs ready z w h = absurd (omega (arith, h))
  rows_loop g k (suc zero) rows rs ready z w h = absurd (omega (arith, h))
  rows_loop g k (suc (suc zero)) rows rs ready z w h = absurd (omega (arith, h))
  rows_loop g k (suc (suc (suc fuel))) rows [] ready z w h =
      let size = ending_size e v in
      packet_pauses (query_handler client_cap) (query_at g k count defs rows)
        (query_at g k count defs rows) (query_at g (k + 1) count defs rows)
        (query_at finished (k + 1) count defs rows) (k % 2 ^ 8) fuel (end_bytes e) [] size.0 size.1
        refl (sequence_accepted g k count defs rows)
        (ready (k + 1) (length (end_bytes e)) rows (end_bytes e)
          ∙ ending_taken client_cap (k + 1) count defs rows e untracked v)
      ∙ ap
          (λ (r : List (List (Option Bytes))).
            fed packet_paused new_packet (query_at finished (k + 1) count defs r) [])
          (sym (append-nil rows))
  rows_loop g k (suc (suc (suc fuel))) rows ([] ∷ rs) ready z w h = absurd (omega (arith, z, w.0))
  rows_loop g k (suc (suc (suc fuel))) rows ((x ∷ xs) ∷ rs) ready z w h =
      let row = x ∷ xs in
      let some_bytes : 0 < length (encode_row row) =
        let first = row_start x xs w.1.0 in
        subst (λ (n : ℕ). 0 < n) (sym (ap length first.2)) (omega arith) in
      let taken : query_payload client_cap (query_at s2_row_guess (k + 1) count defs rows) 0
            (length (encode_row row)) (encode_row row)
          ≡ handled payload_success (query_at s2_row_guess (k + 1) count defs (rows ++ row ∷ [])) =
        subst
          (λ (n : ℕ).
            query_payload client_cap (query_at s2_row_guess (k + 1) n defs rows) 0
              (length (encode_row row)) (encode_row row)
            ≡ handled payload_success (query_at s2_row_guess (k + 1) n defs (rows ++ row ∷ [])))
          w.0 (row_taken client_cap (k + 1) defs rows x xs w.1) in
      packet_takes (query_handler client_cap) (query_at g k count defs rows)
        (query_at g k count defs rows) (query_at g (k + 1) count defs rows)
        (query_at s2_row_guess (k + 1) count defs (rows ++ row ∷ [])) (k % 2 ^ 8) fuel
        (encode_row row) (rows_and_end (k + 1) rs e) some_bytes w.2 refl
        (sequence_accepted g k count defs rows)
        (ready (k + 1) (length (encode_row row)) rows (encode_row row) ∙ taken)
      ∙ rows_loop s2_row_guess (k + 1) fuel (rows ++ row ∷ []) rs (λ a b c d. refl) z w.3
          (omega (arith, h))
      ∙ ap
          (λ (r : List (List (Option Bytes))).
            fed packet_paused new_packet (query_at finished (after_rows (k + 1) rs) count defs r)
              [])
          (append_assoc rows (row ∷ []) rs)

-- A column definition: the texts that are dropped, and what is kept.
abbrev pub Column : Type 0
Column = ColumnNames × ColumnPacket

abbrev pub ValidColumns : List Column → Type 0
ValidColumns [] = Unit
ValidColumns ((names, c) ∷ cs) =
    ValidColumn names c × (length (encode_column names c []) < 2 ^ 24) × ValidColumns cs

-- The packets of the columns, numbered on from `k`, then those of the rows and of the end.
abbrev pub columns_and_rows : ℕ → List Column → List (List (Option Bytes)) → EndPacket → Bytes
columns_and_rows k [] rs e = rows_and_end k rs e
columns_and_rows k ((names, c) ∷ cs) rs e =
    packet_layout (k % 2 ^ 8) (encode_column names c []) (columns_and_rows (k + 1) cs rs e)

abbrev pub column_names : List Column → List Bytes
column_names [] = []
column_names ((names, c) ∷ cs) = c.name ∷ column_names cs

abbrev pub after_columns : ℕ → List Column → List (List (Option Bytes)) → ℕ
after_columns k [] rs = after_rows k rs
after_columns k (c ∷ cs) rs = after_columns (k + 1) cs rs

column_some : (names : ColumnNames) (c : ColumnPacket) → 0 < length (encode_column names c [])
unfolding lenenc_str lenenc_integer
column_some names c = omega arith

module _ (client_cap : ℕ) (untracked : has_flag session_track client_cap ≡ false) (e : EndPacket)
    (v : ValidEnd e) (count : ℕ) (positive : 0 < count) (rs : List (List (Option Bytes)))
    (w : ValidRows count rs) where
  pub columns_loop :
      (k fuel : ℕ) (defs : List Bytes) (cs : List Column)
      → ValidColumns cs
      → length defs + length cs ≡ count
      → 3 * length cs + 3 * length rs + 3 ≤ fuel
      → packet_loop
          (query_handler client_cap)
          fuel
          new_packet
          (query_at (s2_column_def new_column) k count defs [])
          (columns_and_rows k cs rs e)
        ≡ fed packet_paused new_packet
            (query_at finished (after_columns k cs rs) count (defs ++ column_names cs) rs)
            []
  columns_loop k fuel defs [] c n h =
      rows_loop client_cap untracked e v count defs (s2_column_def new_column) k fuel [] rs
        (λ i len rows xs. described client_cap i count len defs rows xs (omega (arith, n))) positive
        w (omega (arith, h))
      ∙ ap
          (λ (d : List Bytes).
            fed packet_paused new_packet (query_at finished (after_rows k rs) count d rs) [])
          (sym (append-nil defs))
  columns_loop k zero defs (d ∷ cs) c n h = absurd (omega (arith, h))
  columns_loop k (suc zero) defs (d ∷ cs) c n h = absurd (omega (arith, h))
  columns_loop k (suc (suc zero)) defs (d ∷ cs) c n h = absurd (omega (arith, h))
  columns_loop k (suc (suc (suc fuel))) defs ((names, d) ∷ cs) c n h =
      let g = s2_column_def new_column in
      packet_takes (query_handler client_cap) (query_at g k count defs [])
        (query_at g k count defs []) (query_at g (k + 1) count defs [])
        (query_at g (k + 1) count (defs ++ d.name ∷ []) []) (k % 2 ^ 8) fuel
        (encode_column names d []) (columns_and_rows (k + 1) cs rs e) (column_some names d) c.1 refl
        (sequence_accepted g k count defs [])
        (column_taken client_cap (k + 1) count defs names d.name d.character_set d.column_length
          d.type d.flags d.decimals (omega (arith, n)) c.0 (length (encode_column names d [])))
      ∙ columns_loop (k + 1) fuel (defs ++ d.name ∷ []) cs c.2
          (omega (arith, n, length-append defs (d.name ∷ []))) (omega (arith, h))
      ∙ ap
          (λ (ds : List Bytes).
            fed packet_paused new_packet
              (query_at finished (after_columns (k + 1) cs rs) count ds rs) [])
          (append_assoc defs (d.name ∷ []) (column_names cs))

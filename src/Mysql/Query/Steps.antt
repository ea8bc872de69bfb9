-- ===== src/Mysql/Query/Steps.antt =====
-- A query and one packet of the result set that a server sends.
use chxsql.Base.{
  ℕ, suc, ◌+◌, ◌%◌, ◌^◌, ◌<◌, Bytes, List, [], ◌∷◌, ◌++◌, ◌≡◌, refl, sym, ap, ◌∙◌, true, false,
  Option, arith, length, append-nil, ltb, ◌==◌, lt→ltb,
}
use chxsql.Mysql.ErrorCode.{no_error}
use chxsql.Mysql.Packet.{handled}
use chxsql.Mysql.Packets.ColumnDefinition.RoundTrip.{
  column_packet, ColumnNames, ValidColumn, encode_column, column_parser-encode,
}
use chxsql.Mysql.Packets.ColumnDefinition.{new_column}
use chxsql.Mysql.Packets.Ok.{has_flag, session_track}
use chxsql.Mysql.Packets.Resultset.{guess, row_at, new_row, row_parser}
use chxsql.Mysql.Packets.Ok.RoundTrip.{encode_ok, ok_packet, ValidOk, ok_parser-encode}
use chxsql.Mysql.Packets.Resultset.RoundTrip.{encode_row, ShortRow, row_start, row_parser-encode}
use chxsql.Mysql.Query.{
  Query, QueryStage, s2_column_def, s2_row_guess, finished, query_sequence, query_err, query_ok,
  query_row, row_guessed, query_row_guess, query_column_def, query_payload,
}
use chxsql.Mysql.Result.{parsed, payload_success, payload_pause, make_success, make_pause}

abbrev pub query_at : QueryStage → ℕ → ℕ → List Bytes → List (List (Option Bytes)) → Query
query_at g k count defs rows = record {
  stage = g;
  next_sequence_id = k % 2 ^ 8;
  column_count = count;
  definitions = defs;
  rows = rows;
  ec = no_error;
}

pub sequence_accepted :
    (g : QueryStage) (k count : ℕ) (defs : List Bytes) (rows : List (List (Option Bytes)))
    → query_sequence (query_at g k count defs rows) (k % 2 ^ 8)
      ≡ handled payload_success (query_at g (k + 1) count defs rows)
unfolding query_sequence
sequence_accepted g k count defs rows =
    let same : (k % 2 ^ 8 == k % 2 ^ 8) ≡ true = ground arith in
    let up : (k % 2 ^ 8 + 1) % 2 ^ 8 ≡ (k + 1) % 2 ^ 8 = omega arith in rw (same, up) refl

module _ (client_cap : ℕ) where
  -- The columns are all there: what follows is a row or the end.
  pub described :
      (k count len : ℕ) (defs : List Bytes) (rows : List (List (Option Bytes))) (xs : Bytes)
      → length defs ≡ count
      → query_payload client_cap (query_at (s2_column_def new_column) k count defs rows) 0 len xs
        ≡ query_payload client_cap (query_at s2_row_guess k count defs rows) 0 len xs
  unfolding query_payload query_column_def query_row_guess row_guessed query_row query_ok query_err
  described k count len defs rows xs e =
      let full : ltb (length defs) count ≡ false = ground arith in rw full (go xs)
    where
      go :
          (ys : Bytes)
          → query_row_guess client_cap
              (query_at (s2_column_def new_column) k count defs rows)
              0
              len
              ys
            ≡ query_row_guess client_cap (query_at s2_row_guess k count defs rows) 0 len ys
      go [] = refl
      go (y ∷ ys) = refl

  -- A payload that begins like no ERR and no OK packet is a row.
  pub guessed_row :
      (s : Query) (b : ℕ) (bs : Bytes)
      → (b == 0xff) ≡ false
      → (b == 0xfe) ≡ false
      → query_row_guess client_cap s 0 (length (b ∷ bs)) (b ∷ bs)
        ≡ query_row client_cap s new_row (b ∷ bs)
  unfolding query_row_guess row_guessed
  guessed_row s b bs p q =
      let whole : (0 + suc (length bs) == suc (length bs)) ≡ true = ground arith in
      rw (whole, p, q) refl

  pub row_taken :
      (k : ℕ) (defs : List Bytes) (rows : List (List (Option Bytes))) (v : Option Bytes)
      (vs : List (Option Bytes))
      → ShortRow (v ∷ vs)
      → query_payload client_cap
          (query_at s2_row_guess k (length (v ∷ vs)) defs rows)
          0
          (length (encode_row (v ∷ vs)))
          (encode_row (v ∷ vs))
        ≡ handled payload_success
            (query_at s2_row_guess k (length (v ∷ vs)) defs (rows ++ (v ∷ vs) ∷ []))
  unfolding query_payload query_row make_success
  row_taken k defs rows v vs h =
      let s = query_at s2_row_guess k (length (v ∷ vs)) defs rows in
      let first = row_start v vs h.0 in
      let read : row_parser (length (v ∷ vs)) new_row (encode_row (v ∷ vs))
          ≡ parsed payload_success (row_at guess (v ∷ vs)) [] =
        ap (row_parser (length (v ∷ vs)) new_row) (sym (append-nil (encode_row (v ∷ vs))))
        ∙ row_parser-encode (v ∷ vs) [] h in
      let guessed : query_row_guess client_cap s 0 (length (encode_row (v ∷ vs)))
            (encode_row (v ∷ vs))
          ≡ query_row client_cap s new_row (encode_row (v ∷ vs)) =
        ap (λ (xs : Bytes). query_row_guess client_cap s 0 (length xs) xs) first.2
        ∙ guessed_row s first.0 first.1 first.3 first.4
        ∙ ap (λ (xs : Bytes). query_row client_cap s new_row xs) (sym first.2) in
      guessed ∙ rw (read, query_row) refl

  -- The OK packet that ends the rows.
  pub end_taken :
      (k count rows_affected id status warned : ℕ) (info : Bytes) (defs : List Bytes)
      (rows : List (List (Option Bytes)))
      → has_flag session_track client_cap ≡ false
      → ValidOk (ok_packet rows_affected id status warned info)
      → suc (length (encode_ok (ok_packet rows_affected id status warned info))) < 0xffffff
      → query_payload client_cap
          (query_at s2_row_guess k count defs rows)
          0
          (suc (length (encode_ok (ok_packet rows_affected id status warned info))))
          (0xfe ∷ encode_ok (ok_packet rows_affected id status warned info))
        ≡ handled payload_pause (query_at finished k count defs rows)
  unfolding query_payload query_row_guess row_guessed query_ok make_pause
  end_taken k count affected id status warned info defs rows untracked v small =
      let bs = encode_ok (ok_packet affected id status warned info) in
      let whole : (0 + suc (length bs) == suc (length bs)) ≡ true = ground arith in
      let short : ltb (suc (length bs)) 0xffffff ≡ true = lt→ltb _ _ small in
      rw (whole, short, ok_parser-encode client_cap untracked 0xfe affected id status warned info v)
        refl

  pub column_taken :
      (k count : ℕ) (defs : List Bytes) (names : ColumnNames) (name : Bytes)
      (charset len type flags decimals : ℕ)
      → length defs < count
      → ValidColumn names (column_packet name charset len type flags decimals)
      → (total : ℕ)
      → query_payload client_cap
          (query_at (s2_column_def new_column) k count defs [])
          0
          total
          (encode_column names (column_packet name charset len type flags decimals) [])
        ≡ handled payload_success
            (query_at (s2_column_def new_column) k count (defs ++ name ∷ []) [])
  unfolding query_payload query_column_def make_success
  column_taken k count defs names name charset len type flags decimals h v total =
      let more : ltb (length defs) count ≡ true = lt→ltb _ _ h in
      rw (more, column_parser-encode names name charset len type flags decimals [] v) refl

-- ===== src/Mysql/Query.antt =====
-- include/chx/sql/mysql/detail/com_query2.ipp: a query in text, and the result set that answers it.
pub mod Steps
pub mod Completion
pub mod Answer
use chxsql.Base.{
  ℕ, ◌+◌, ◌%◌, ◌^◌, Bytes, List, [], ◌∷◌, ◌++◌, Bool, ◌&&◌, Option, length, ltb, ◌==◌,
  if◌then◌else◌,
}
use chxsql.Mysql.Basic.{LengthInteger, new_length_integer, length_encoded_integer}
use chxsql.Mysql.Encode.{fixed_length_integer_to_network}
use chxsql.Mysql.ErrorCode.{ErrorCode, no_error, make_ec, cr_malformed_packet, or_unknown}
use chxsql.Mysql.Packet.{
  Packet, new_packet, Handled, handled, unhandled, PayloadHandler, Fed, fed, fault, feed,
}
use chxsql.Mysql.Packets.ColumnDefinition.{ColumnParser, new_column, column_parser}
use chxsql.Mysql.Packets.Err.{ErrParser, new_err, err_parser}
use chxsql.Mysql.Packets.Ok.{OkParser, new_ok, ok_parser}
use chxsql.Mysql.Packets.Resultset.{RowParser, new_row, row_parser}
use chxsql.Mysql.Result.{
  Parsed, parsed, undefined, make_success, make_pause, payload_success, payload_need_more,
  payload_malformed, payload_internal_error, packet_paused, packet_need_more, packet_internal_error,
}

-- `stage`, with the alternative of `__M_payload_parser` that it uses.
pub data QueryStage : Type 0 where
  initial_guess : QueryStage
  s1_err : ErrParser → QueryStage
  s1_ok : OkParser → QueryStage
  s2_column_count : LengthInteger → QueryStage
  s2_column_def : ColumnParser → QueryStage
  s2_row_guess : QueryStage
  s2_result_set : RowParser → QueryStage
  s2_err : ErrParser → QueryStage
  s2_ok_eof : OkParser → QueryStage
  finished : QueryStage

-- The operation. `definitions` and `rows` are `__M_def` and `__M_result` of the result set.
pub record Query : Type 0 where
  pub stage : QueryStage
  pub next_sequence_id : ℕ
  pub column_count : ℕ
  pub definitions : List Bytes
  pub rows : List (List (Option Bytes))
  pub ec : ErrorCode

abbrev pub new_query : Query
new_query = record {
  stage = initial_guess;
  next_sequence_id = 0;
  column_count = 0;
  definitions = [];
  rows = [];
  ec = no_error;
}

-- `operator()(cntl)`: the request. The sequence number is a uint8_t.
unfoldable pub com_query : Query → Bytes → Bytes
com_query s sql =
    fixed_length_integer_to_network 3 (length sql + 1) ++ s.next_sequence_id ∷ 0x03 ∷ sql

unfoldable pub query_sent : Query → Query
query_sent s = record s { next_sequence_id = (s.next_sequence_id + 1) % 2 ^ 8 }

-- `if (PayloadResult r = parser(…); r == PayloadSuccess) { … } else { return r; }`.
abbrev pub then_handled : {A S : Type 0} → Parsed A → (A → S) → (A → Bytes → Handled S) → Handled S
then_handled (parsed payload_success a rest) keep after = after a rest
then_handled (parsed r a rest) keep after = handled r (keep a)
then_handled undefined keep after = unhandled

-- `on_sequence_id_complete`.
unfoldable pub query_sequence : Query → ℕ → Handled Query
query_sequence s sequence_id =
    let s' = record s { next_sequence_id = (s.next_sequence_id + 1) % 2 ^ 8 } in
    if s.next_sequence_id == sequence_id
    then handled payload_success s'
    else handled payload_malformed s'

-- `case S1_ERR` and `case S2_ERR`.
unfoldable pub query_err : (ErrParser → QueryStage) → Query → ErrParser → ℕ → Bytes → Handled Query
query_err at s p remain xs =
    then_handled (err_parser p xs (remain == 0)) (λ q. record s { stage = at q })
      (λ q rest.
        handled (make_pause rest) (record s { stage = finished; ec = make_ec q.result.error_code }))

module _ (client_cap : ℕ) where
  -- `case S1_OK` and `case S2_OK_EOF`, by the header of the packet.
  unfoldable pub query_ok :
      ℕ → (OkParser → QueryStage) → Query → OkParser → ℕ → Bytes → Handled Query
  query_ok header_ch at s p remain xs =
      then_handled (ok_parser client_cap (remain == 0) header_ch p xs)
        (λ q. record s { stage = at q })
        (λ q rest. handled (make_pause rest) (record s { stage = finished; ec = no_error }))

  -- `case S2_ColumnCount`.
  unfoldable pub query_column_count : Query → LengthInteger → Bytes → Handled Query
  query_column_count s p xs =
      then_handled (length_encoded_integer p xs) (λ q. record s { stage = s2_column_count q })
        (λ q rest.
          handled (make_success rest)
            (record s { stage = s2_column_def new_column; column_count = q.number.result }))

  -- `case S2_ResultSet`.
  unfoldable pub query_row : Query → RowParser → Bytes → Handled Query
  query_row s p xs =
      then_handled (row_parser s.column_count p xs) (λ q. record s { stage = s2_result_set q })
        (λ q rest.
          handled (make_success rest)
            (record s { stage = s2_row_guess; rows = s.rows ++ q.column_data ∷ [] }))

  -- `case S2_ResultSetRowGuess` after its test, at the first byte of a payload.
  unfoldable pub row_guessed : Query → ℕ → ℕ → Bytes → Handled Query
  unfolding query_err query_ok query_row
  row_guessed s remain len [] = handled payload_need_more (record s { stage = s2_row_guess })
  row_guessed s remain len (first_byte ∷ rest) =
      if first_byte == 0xff
      then query_err s2_err s new_err remain (first_byte ∷ rest)
      else if first_byte == 0xfe && ltb len 0xffffff
      then query_ok 0xfe s2_ok_eof s new_ok remain (first_byte ∷ rest)
      else query_row s new_row (first_byte ∷ rest)

  -- `case S2_ResultSetRowGuess`; `len` is payload_length().
  unfoldable pub query_row_guess : Query → ℕ → ℕ → Bytes → Handled Query
  unfolding row_guessed
  query_row_guess s remain len xs =
      if remain + length xs == len
      then row_guessed s remain len xs
      else handled payload_internal_error (record s { stage = s2_row_guess })

  -- `case S2_ColnumDef`, which falls into the next case.
  unfoldable pub query_column_def : Query → ColumnParser → ℕ → ℕ → Bytes → Handled Query
  unfolding query_row_guess
  query_column_def s p remain len xs =
      if ltb (length s.definitions) s.column_count
      then then_handled (column_parser p xs) (λ q. record s { stage = s2_column_def q })
          (λ q rest. handled (make_success rest) (record s {
            stage = s2_column_def new_column;
            definitions = s.definitions ++ q.result.name ∷ [];
          }))
      else query_row_guess s remain len xs

  -- `case InitialGuess`.
  unfoldable pub query_guess : Query → ℕ → Bytes → Handled Query
  unfolding query_err query_ok query_column_count
  query_guess s remain [] = handled payload_need_more s
  query_guess s remain (first_byte ∷ rest) =
      if first_byte == 0xff
      then query_err s1_err s new_err remain (first_byte ∷ rest)
      else if first_byte == 0x00
      then query_ok 0x00 s1_ok s new_ok remain (first_byte ∷ rest)
      else query_column_count s new_length_integer (first_byte ∷ rest)

  query_in : QueryStage → Query → ℕ → ℕ → Bytes → Handled Query
  query_in initial_guess s remain len xs = query_guess s remain xs
  query_in (s1_err p) s remain len xs = query_err s1_err s p remain xs
  query_in (s1_ok p) s remain len xs = query_ok 0x00 s1_ok s p remain xs
  query_in (s2_column_count p) s remain len xs = query_column_count s p xs
  query_in (s2_column_def p) s remain len xs = query_column_def s p remain len xs
  query_in s2_row_guess s remain len xs = query_row_guess s remain len xs
  query_in (s2_result_set p) s remain len xs = query_row s p xs
  query_in (s2_err p) s remain len xs = query_err s2_err s p remain xs
  query_in (s2_ok_eof p) s remain len xs = query_ok 0xfe s2_ok_eof s p remain xs
  query_in finished s remain len xs = unhandled

  -- `on_payload_data`.
  unfoldable pub query_payload : Query → ℕ → ℕ → Bytes → Handled Query
  unfolding query_in query_guess query_column_def
  query_payload s remain len xs = query_in s.stage s remain len xs

  abbrev pub query_handler : PayloadHandler
  query_handler = record {
    State = Query;
    on_packet_length_complete = λ s len. handled payload_success s;
    on_sequence_id_complete = query_sequence;
    on_payload_data = query_payload;
  }

-- What a read ends with: another read, or the completion of the operation; or a fault.
pub data QueryStep : Type 0 where
  reading : Packet → Query → QueryStep
  completed : ErrorCode → List Bytes → List (List (Option Bytes)) → QueryStep
  crashed : QueryStep

-- `cntl().complete(e, std::move(__M_result_set))`.
abbrev pub complete_query : ErrorCode → Query → QueryStep
complete_query e s = completed e s.definitions s.rows

-- The switch of the handler of ev_read. PacketNeedMore asserts that nothing is left.
unfoldable pub query_fed : Fed Query → QueryStep
query_fed (fed packet_paused p s []) = complete_query s.ec s
query_fed (fed packet_paused p s (b ∷ rest)) = complete_query (make_ec cr_malformed_packet) s
query_fed (fed packet_need_more p s []) = reading p s
query_fed (fed packet_need_more p s (b ∷ rest)) = crashed
query_fed (fed packet_internal_error p s rest) = complete_query (or_unknown s.ec) s
query_fed (fed r p s rest) = complete_query (make_ec cr_malformed_packet) s
query_fed fault = crashed

-- The handler of ev_read.
unfoldable pub query_read : ℕ → ErrorCode → Packet → Query → Bytes → QueryStep
unfolding query_fed
query_read client_cap e p s xs =
    if e.value == 0 then query_fed (feed (query_handler client_cap) p s xs) else complete_query e s

-- The handler of ev_send_query.
unfoldable pub query_send_done : ErrorCode → Packet → Query → QueryStep
query_send_done e p s = if e.value == 0 then reading p s else complete_query e s

-- ===== src/Postgres/Msg/DataRow/RoundTrip.antt =====
-- A DataRow, as the protocol lays it out, is read back.
use chxsql.Base.{
  ℕ, zero, suc, ◌+◌, ◌^◌, ◌<◌, ◌≤◌, Bytes, [], ◌∷◌, ◌++◌, ◌≡◌, refl, sym, ap, ◌∙◌, arith, Option,
  none, some, length, replicate, length-append, length-replicate, append_assoc, ◌==◌, ==_iff, true,
  false,
}
use chxsql.Postgres.Basic.RoundTrip.{
  length-integer_to_network, integer-to_network, integer_value-to_network16,
}
use chxsql.Postgres.Basic.{integer_to_network}
use chxsql.Postgres.Msg.DataRow.{
  len, count, Values, at, null_len, len_turn, count_turn, values_turn, data_row_body, data_row,
  new_row,
}
use chxsql.Postgres.Outcome.{
  Verdict, verdict, stuck, parse_success, parse_need_more, parse_malformed,
  parse_malformed_incomplete, parse_malformed_trailing_data, parse_internal_error, make_success,
}
use chxsql.Postgres.Rows.{Row}
use chxsql.Postgres.Frame.{Frame, frame_at, at_body, new_frame, basic_parser, reply}
use chxsql.Postgres.Frame.RoundTrip.{framed, basic_parser-framed}
use chxsql.Postgres.Turn.{stop, body_loop, body}
use chxsql.Postgres.Turn.Loop.{body_loop_again, body_loop_stop}
use chxsql.Postgres.Msg.DataRow.Layout.{
  encode_value, encode_values, encode_row, Sized, parsed_row, value_more, value_last,
}

at_len : (d : Row) (i : ℕ) (xs : Bytes) → values_turn (at d i (len [])) xs ≡ len_turn d i [] xs
unfolding values_turn
at_len d i xs = refl

Sized-head : (v : Option Bytes) (vs : Row) → Sized (v ∷ vs) → Sized (v ∷ [])
Sized-head none vs z = tt
Sized-head (some bs) vs z = (z.0, tt)

Sized-tail : (v : Option Bytes) (vs : Row) → Sized (v ∷ vs) → Sized vs
Sized-tail none vs z = z
Sized-tail (some bs) vs z = z.1

-- A turn that reads a value is the first of a loop that reads the rest, whatever state it began in.
values_read :
    (todo : Row) (v : Option Bytes) (done : Row) (s : Values) (xs : Bytes) (fuel : ℕ)
    → Sized (v ∷ todo)
    → length done + suc (length todo) < 2 ^ 16
    → length todo < fuel
    → values_turn s xs
      ≡ len_turn
          (done ++ none ∷ replicate (length todo) none)
          (length done)
          []
          (encode_values (v ∷ todo))
    → parsed_row (body_loop values_turn fuel s xs) ≡ some (done ++ v ∷ todo)
values_read todo v done s xs zero z h k e = absurd (omega (arith, k))
values_read [] v done s xs (suc fuel) z h k e =
    let l = value_last done v z (omega (arith, h)) in
    ap parsed_row (body_loop_stop values_turn fuel s xs (e ∙ l.1))
values_read (w ∷ ws) v done s xs (suc fuel) z h k e =
    let zs = encode_values (w ∷ ws) in
    let row = done ++ v ∷ none ∷ replicate (length ws) none in
    let next =
      value_more done v (none ∷ replicate (length ws) none) (encode_values (w ∷ ws))
        (Sized-head v (w ∷ ws) z) (omega (arith, h)) (omega arith) in
    let n : length (done ++ v ∷ []) ≡ length done + 1 = length-append done (v ∷ []) in
    ap parsed_row (body_loop_again values_turn fuel s xs (e ∙ next))
    ∙ values_read ws w (done ++ v ∷ []) (at row (length done + 1) (len [])) (encode_values (w ∷ ws))
        fuel (Sized-tail v (w ∷ ws) z) (omega (arith, h, n)) (omega (arith, k))
        (at_len row (length done + 1) zs
          ∙ ap (λ d. len_turn d (length done + 1) [] zs)
              (sym (append_assoc done (v ∷ []) (none ∷ replicate (length ws) none)))
          ∙ ap (λ (i : ℕ). len_turn ((done ++ v ∷ []) ++ none ∷ replicate (length ws) none) i [] zs)
              (sym n))
    ∙ ap some (append_assoc done (v ∷ []) (w ∷ ws))

length-encode_values : (vs : Row) → length vs ≤ length (encode_values vs)
length-encode_values [] = omega arith
length-encode_values (none ∷ vs) = omega (
  arith,
  length-encode_values vs,
  length-append (encode_value none) (encode_values vs),
  length-integer_to_network 4 null_len,
)
length-encode_values (some bs ∷ vs) = omega (
  arith,
  length-encode_values vs,
  length-append (encode_value (some bs)) (encode_values vs),
  length-append (integer_to_network 4 (length bs)) bs,
  length-integer_to_network 4 (length bs),
)

-- The count, where it is that of the columns and not zero, is followed by the first value.
first_turn :
    (n : ℕ) (rest : Bytes)
    → suc n < 2 ^ 16
    → values_turn (new_row (suc n)) (integer_to_network 2 (suc n) ++ rest)
      ≡ len_turn (replicate (suc n) none) 0 [] rest
unfolding values_turn count_turn
first_turn n rest h =
    let l : length {A = Option Bytes} (replicate n none) ≡ n = length-replicate n none in
    let e : (suc n == suc (length {A = Option Bytes} (replicate n none))) ≡ true =
      (==_iff _ _).1 (omega (arith, l)) in
    let z : (suc (length {A = Option Bytes} (replicate n none)) == 0) ≡ false = ground arith in
    rw (integer-to_network 2 (suc n) rest, integer_value-to_network16 (suc n) h, e, z) refl

empty_turn :
    values_turn (new_row 0) (encode_row [])
    ≡ stop parse_success (at [] 0 (count (integer_to_network 2 0)))
unfolding values_turn count_turn make_success
empty_turn =
    let h : 0 < 2 ^ 16 = omega arith in
    rw (integer-to_network 2 0 [], integer_value-to_network16 0 h) refl

-- The body that the protocol lays out for a row of fewer than 2 ^ 16 values, each NULL or of fewer
-- than 2 ^ 32 - 1 bytes, is accepted by the DataRow parser for as many columns, and the row it
-- gives is that row.
pub data_row-encode_row :
    (vs : Row)
    → Sized vs
    → length vs < 2 ^ 16
    → parsed_row (data_row_body (new_row (length vs)) (encode_row vs)) ≡ some vs
unfolding data_row_body body
data_row-encode_row [] z h = ap parsed_row (body_loop_stop values_turn _ _ _ empty_turn)
data_row-encode_row (v ∷ vs) z h =
    values_read vs v [] (new_row (suc (length vs))) (encode_row (v ∷ vs))
      (suc (length (encode_row (v ∷ vs)))) z (omega (arith, h))
      (omega (
        arith,
        length-encode_values (v ∷ vs),
        length-append (integer_to_network 2 (suc (length vs))) (encode_values (v ∷ vs)),
      ))
      (first_turn (length vs) (encode_values (v ∷ vs)) h)

of_parsed_row :
    (o : Verdict Values) (vs : Row)
    → parsed_row o ≡ some vs
    → (s : Values) × (o ≡ verdict parse_success s) × (s.row ≡ vs)
of_parsed_row (verdict parse_success s) vs e = (s, refl, cc e)
of_parsed_row (verdict parse_need_more s) vs e = absurd (cc e)
of_parsed_row (verdict parse_malformed s) vs e = absurd (cc e)
of_parsed_row (verdict parse_malformed_incomplete s) vs e = absurd (cc e)
of_parsed_row (verdict parse_malformed_trailing_data s) vs e = absurd (cc e)
of_parsed_row (verdict parse_internal_error s) vs e = absurd (cc e)
of_parsed_row stuck vs e = absurd (cc e)

-- A framed DataRow with the layout of a row of fewer than 2 ^ 16 values, each NULL or of fewer
-- than 2 ^ 32 - 1 bytes, whose length fits 32 bits, is read as that row by the parser for as many
-- columns, and the bytes after it are left.
pub basic_parser-encode_row :
    (vs : Row) (rest : Bytes)
    → Sized vs
    → length vs < 2 ^ 16
    → 4 + length (encode_row vs) < 2 ^ 32
    → (f : Frame Values) × (basic_parser data_row
          (new_frame (new_row (length vs)))
          (framed b'D' (encode_row vs) ++ rest)
        ≡ reply parse_success f rest)
      × (f.result.row ≡ vs)
basic_parser-encode_row vs rest z h k =
    let p = of_parsed_row _ vs (data_row-encode_row vs z h) in
    (
      frame_at at_body 0 p.0,
      basic_parser-framed data_row (new_row (length vs)) (new_row (length vs)) p.0 b'D'
          (encode_row vs) rest refl refl p.1 k,
      p.2,
    )

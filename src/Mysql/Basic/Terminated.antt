-- ===== src/Mysql/Basic/Terminated.antt =====
-- null_terminated_string of basic_types.hpp and a text that a nul ends.
use chxsql.Base.{
  NoNul, ◌+◌, Bytes, [], ◌∷◌, ◌++◌, ◌≡◌, refl, ◌∙◌, false, arith, length, length-append,
  take-append_add, drop-append_add, append-nil, ◌==◌,
}
use chxsql.Mysql.Basic.{strnlen, null_terminated_string}
use chxsql.Mysql.Result.{parsed, payload_success}

strnlen-text : (s rest : Bytes) → NoNul s → strnlen (s ++ 0 ∷ rest) ≡ length s
unfolding strnlen
strnlen-text [] rest h = refl
strnlen-text (b ∷ bs) rest h =
    let no : (b == 0) ≡ false = ground (arith, h.0) in
    rw (no, strnlen-text bs rest h.1) (omega arith)

-- A text that a nul ends is read whole.
pub null_terminated_string_reads :
    (s rest : Bytes)
    → NoNul s
    → null_terminated_string [] (s ++ 0 ∷ rest) ≡ parsed payload_success s rest
unfolding null_terminated_string
null_terminated_string_reads s rest h =
    let found : strnlen (s ++ 0 ∷ rest) ≡ length s + 0 = strnlen-text s rest h ∙ omega arith in
    let inside : (length s + 0 == length (s ++ 0 ∷ rest)) ≡ false =
      ground (arith, length-append s (0 ∷ rest)) in
    let past : length s + 0 + 1 ≡ length s + 1 = omega arith in
    rw (found, inside, past, take-append_add, drop-append_add, append-nil) refl

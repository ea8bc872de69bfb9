-- ===== src/Postgres/ErrorCode/Lookup.antt =====
-- The SQLSTATE table is a function: no entry is hidden by another.
use mathlib.Core.List.{Mem, mem-cons, not-mem-nil}
use mathlib.Core.Bool.{Bool-set}
use mathlib.Core.Logic.Or
use Prim.Native.String.{String}
use chxsql.Base.{codes, List, [], ◌∷◌, Bool, true, ◌&&◌, ◌==◌, ==_iff, ◌≡◌, refl, arith}
use chxsql.Postgres.ErrorCode.Sqlstates.{sqlstate_map}
use chxsql.Postgres.ErrorCode.Values.{Errc, errc_value}
use chxsql.Postgres.ErrorCode.{sqlstate_to_errc, make_ec}

abbrev found : String × Errc → Bool
found e = errc_value (sqlstate_to_errc (codes e.0)) == errc_value e.1

all_found : List (String × Errc) → Bool
all_found [] = true
all_found (e ∷ m) = found e && all_found m

all_found_table : all_found sqlstate_map ≡ true
unfolding all_found sqlstate_to_errc errc_value
all_found_table = refl

all_found-mem :
    (m : List (String × Errc)) (e : String × Errc) → all_found m ≡ true → Mem e m → found e ≡ true
unfolding all_found
all_found-mem [] e h i = absurd (not-mem-nil i)
all_found-mem (x ∷ m) e h i =
    Or.elim (Bool-set _ _) (mem-cons.0 i) (λ q. rw q (ground arith))
      (λ j. all_found-mem m e (ground arith) j)

-- Every entry of sqlstate_map is found under its own SQLSTATE: the error code that this SQLSTATE
-- gives is the one of the entry.
pub sqlstate_map-lookup :
    (state : String) (code : Errc)
    → Mem (state, code) sqlstate_map
    → make_ec (sqlstate_to_errc (codes state)) ≡ make_ec code
unfolding make_ec
sqlstate_map-lookup state code i =
    let same : errc_value (sqlstate_to_errc (codes state)) ≡ errc_value code =
      (==_iff _ _).0 (all_found-mem sqlstate_map (state, code) all_found_table i) in
    rw same

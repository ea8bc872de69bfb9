-- ===== src/Postgres/ErrorCode.antt =====
-- include/chx/sql/postgresql/error_code.hpp: error codes and the SQLSTATE table.
pub mod Values
pub mod Sqlstates
pub mod Message
pub mod Lookup
use Prim.Native.Char.{code}
use Prim.Native.String.{String}
use chxsql.Base.{
  codes, bytes_eq, ℕ, Bytes, List, [], ◌∷◌, Bool, true, false, ◌&&◌, ◌==◌, if◌then◌else◌,
}
use Values.{Errc, errc_value}
use Sqlstates.{sqlstate_map}

-- `sqlstate_map.find`, and what is returned where nothing is found.
find_or : Bytes → List (String × Errc) → Errc → Errc
find_or key [] e = e
find_or key ((k, v) ∷ m) e = if bytes_eq (codes k) key then v else find_or key m e

unfoldable pub sqlstate_to_errc : Bytes → Errc
unfolding find_or bytes_eq sqlstate_map
sqlstate_to_errc sqlstate = find_or sqlstate sqlstate_map Errc.unknown_sqlstate

-- `std::error_code`: a value and its category; `std::error_code{}` is value 0 of the system's.
pub data Category : Type 0 where
  system_category postgres_category : Category

pub record ErrorCode : Type 0 where
  pub value : ℕ
  pub category : Category

abbrev pub no_error : ErrorCode
no_error = record { value = 0; category = system_category }

unfoldable pub make_ec : Errc → ErrorCode
make_ec code = record { value = errc_value code; category = postgres_category }

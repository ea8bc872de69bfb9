-- ===== src/Mysql/ErrorCode.antt =====
-- include/chx/sql/mysql/error_code.hpp: an error code and its category, and the codes that the
-- client itself makes.
use chxsql.Base.{ℕ, ◌==◌, if◌then◌else◌}

pub data Category : Type 0 where
  system_category mysql_category : Category

-- `std::error_code`; `std::error_code{}` is value 0 of the system's category.
pub record ErrorCode : Type 0 where
  pub value : ℕ
  pub category : Category

abbrev pub no_error : ErrorCode
no_error = record { value = 0; category = system_category }

-- `make_ec`.
unfoldable pub make_ec : ℕ → ErrorCode
make_ec code = record { value = code; category = mysql_category }

abbrev pub cr_unknown_error : ℕ
cr_unknown_error = 2000

abbrev pub cr_malformed_packet : ℕ
cr_malformed_packet = 2027

abbrev pub cr_auth_plugin_err : ℕ
cr_auth_plugin_err = 2061

-- `__M_ec ? __M_ec : make_ec(errc::CR_UNKNOWN_ERROR)`.
unfoldable pub or_unknown : ErrorCode → ErrorCode
unfolding make_ec
or_unknown e = if e.value == 0 then make_ec cr_unknown_error else e

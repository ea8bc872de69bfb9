-- ===== src/Mysql/Encode.antt =====
-- include/chx/sql/mysql/detail/fixed_integer.hpp and length_encoded.hpp: the writers of integers and
-- strings, on a little-endian host.
use chxsql.Base.{
  ℕ, zero, suc, ◌+◌, ◌*◌, ◌/◌, ◌%◌, ◌^◌, Bytes, [], ◌∷◌, ◌++◌, length, ltb, if◌then◌else◌,
}

-- `copy_n((std::uint8_t*)&n, N, ptr)` and `memcpy(dest, &n, N)`: the N bytes at the lower end.
unfoldable pub fixed_length_integer_to_network : ℕ → ℕ → Bytes
fixed_length_integer_to_network zero v = []
fixed_length_integer_to_network (suc n) v = (v % 256) ∷ fixed_length_integer_to_network n (v / 256)

unfoldable pub fixed_length_integer_from_network : Bytes → ℕ
fixed_length_integer_from_network [] = 0
fixed_length_integer_from_network (b ∷ bs) = b + 256 * fixed_length_integer_from_network bs

unfoldable pub lenenc_int_bound : ℕ → ℕ
lenenc_int_bound n =
    if ltb n 251 then 1 else if ltb n (2 ^ 16) then 3 else if ltb n (2 ^ 24) then 4 else 9

unfoldable pub lenenc_integer : ℕ → Bytes
unfolding fixed_length_integer_to_network
lenenc_integer n =
    if ltb n 251
    then n ∷ []
    else if ltb n (2 ^ 16)
    then 0xfc ∷ fixed_length_integer_to_network 2 n
    else if ltb n (2 ^ 24)
    then 0xfd ∷ fixed_length_integer_to_network 3 n
    else 0xfe ∷ fixed_length_integer_to_network 8 n

unfoldable pub lenenc_str_bound : Bytes → ℕ
unfolding lenenc_int_bound
lenenc_str_bound s = lenenc_int_bound (length s) + length s

unfoldable pub lenenc_str : Bytes → Bytes
unfolding lenenc_integer
lenenc_str s = lenenc_integer (length s) ++ s

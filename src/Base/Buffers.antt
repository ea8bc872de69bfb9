-- ===== src/Base/Buffers.antt =====
-- Runs of bytes: literals of the source, comparison, and what is written into a vector.
use Prim.Native.Nat.{ℕ, ◌<◌}
use Prim.Native.Char.{code}
use Prim.Native.String.{String}
use mathlib.Core.Path.{◌≡◌}
use mathlib.Core.Logic.{◌≢◌}
use mathlib.Core.Bool.{Bool, true, false, ◌&&◌}
use mathlib.Core.Option.{Option, none, some}
use mathlib.Core.List.{List, [], ◌∷◌}
use chxsql.Base.Tests.{◌==◌, ==_iff, if◌then◌else◌}
use chxsql.Base.Lists.{length}

-- A run of `unsigned char`.
abbrev pub Bytes : Type 0
Bytes = List ℕ

-- The bytes of a literal of the source, which is ASCII.
abbrev pub codes : String → Bytes
codes String.[] = []
codes (String.◌∷◌ c s) = code c ∷ codes s

unfoldable pub bytes_eq : Bytes → Bytes → Bool
bytes_eq [] [] = true
bytes_eq (x ∷ xs) (y ∷ ys) = x == y && bytes_eq xs ys
bytes_eq _ _ = false

-- Every number of the list is a byte.
abbrev pub AllBytes : Bytes → Type 0
AllBytes [] = Unit
AllBytes (b ∷ bs) = (b < 256) × AllBytes bs

-- A text holds no nul.
abbrev pub NoNul : Bytes → Type 0
NoNul [] = Unit
NoNul (b ∷ bs) = (b ≢ 0) × NoNul bs

-- What is written into a vector of `size` bytes. `none` is no C++ value: a write past the end of
-- the vector, or the assertion that all of it is written.
unfoldable pub allocated : ℕ → Bytes → Option Bytes
allocated size bs = if length bs == size then some bs else none

pub allocated_exact : (size : ℕ) (bs : Bytes) → length bs ≡ size → allocated size bs ≡ some bs
unfolding allocated
allocated_exact size bs h = rw ((==_iff (length bs) size).1 h)

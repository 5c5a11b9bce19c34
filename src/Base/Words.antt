-- ===== src/Base/Words.antt =====
-- The machine words of the C code as bit patterns, and bytes.
use Prim.Native.Nat.{ℕ, ◌+◌, ◌%◌}
use Prim.Native.Char.{code}
use Prim.Native.String.{String}
use mathlib.Core.Bool.{Bool, true, false, ◌&&◌}
use mathlib.Core.List.{List, [], ◌∷◌}
use fastpysgi.Base.Tests.{ltb, leb, ◌==◌, if◌then◌else◌}

-- A run of bytes, each below 256.
abbrev pub Bytes : Type 0
Bytes = List ℕ

-- `size_t` and `uint64_t` results
abbrev pub u64 : ℕ → ℕ
u64 n = n % 18446744073709551616

abbrev pub u32 : ℕ → ℕ
u32 n = n % 4294967296

abbrev pub u8 : ℕ → ℕ
u8 n = n % 256

-- `(ssize_t)i` and `(size_t)i` of an `int` pattern: the sign bit is copied upwards.
abbrev pub sext : ℕ → ℕ
sext n = if ltb n 2147483648 then n else n + 18446744069414584320

-- `a >= b` on two `ssize_t` patterns
abbrev pub sge : ℕ → ℕ → Bool
sge a b = leb (u64 (b + 9223372036854775808)) (u64 (a + 9223372036854775808))

-- INT_MAX
abbrev pub int_max : ℕ
int_max = 2147483647

-- The code points of a text: its bytes, if it is ASCII. `String` has its own `[]` and `∷`.
abbrev pub codes : String → Bytes
codes String.[] = []
codes (String.◌∷◌ c s) = code c ∷ codes s

abbrev pub bytes_eq : Bytes → Bytes → Bool
bytes_eq [] [] = true
bytes_eq [] (y ∷ ys) = false
bytes_eq (x ∷ xs) [] = false
bytes_eq (x ∷ xs) (y ∷ ys) = x == y && bytes_eq xs ys

-- `memchr(data, c, len) != NULL`
abbrev pub has_byte : ℕ → Bytes → Bool
has_byte c [] = false
has_byte c (x ∷ xs) = if x == c then true else has_byte c xs

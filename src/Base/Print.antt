-- ===== src/Base/Print.antt =====
-- The decimal and hexadecimal forms that `sprintf` writes for "%d" and "%X".
use fastpysgi.Base.{
  ℕ, zero, suc, ◌+◌, ◌-◌, ◌/◌, ◌%◌, List, [], ◌∷◌, ◌++◌, map, ltb, if◌then◌else◌, Bytes,
}

-- the digits of `n` in base `b`, at most `fuel` of them; `n + 1` digits are always enough
unfoldable pub to_base : ℕ → ℕ → ℕ → List ℕ
to_base b zero n = []
to_base b (suc fuel) n =
    let rest = to_base b fuel (n / b) in if ltb n b then n ∷ [] else rest ++ (n % b) ∷ []

-- '0' to '9', then 'A' to 'F'
unfoldable pub digit_char : ℕ → ℕ
digit_char d = if ltb d 10 then d + b'0' else d - 10 + b'A'

unfoldable pub decimal : ℕ → Bytes
unfolding to_base digit_char
decimal n = map digit_char (to_base 10 (suc n) n)

unfoldable pub upper_hex : ℕ → Bytes
unfolding to_base digit_char
upper_hex n = map digit_char (to_base 16 (suc n) n)

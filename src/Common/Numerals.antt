-- ===== src/Common/Numerals.antt =====
-- The numbers that the server prints are read back by its own digit table.
use native.Mathlib.Nat.{div-add-mod', div-lt_self, mod-lt}
use fastpysgi.Base.{
  ℕ, zero, suc, ◌+◌, ◌*◌, ◌/◌, ◌%◌, ◌≤◌, ◌<◌, ◌≡◌, refl, ap, inl, inr, List, [], ◌∷◌, ◌++◌, map,
  arith, ltb, Bool-cases, Bytes,
}
use fastpysgi.Base.Print.{to_base, digit_char, decimal, upper_hex}
use fastpysgi.Common.Ascii.{hex_to_dig}

-- a numeral in base `b`, by HEX_TO_DIG
unfoldable pub read : ℕ → ℕ → Bytes → ℕ
read b acc [] = acc
read b acc (c ∷ cs) = read b (acc * b + hex_to_dig c) cs

read-concat :
    (b acc : ℕ) (cs : Bytes) (c : ℕ) → read b acc (cs ++ c ∷ []) ≡ read b acc cs * b + hex_to_dig c
unfolding read
read-concat b acc [] c = refl
read-concat b acc (x ∷ cs) c = read-concat b (acc * b + hex_to_dig x) cs c

map-concat : (f : ℕ → ℕ) (xs : List ℕ) (x : ℕ) → map f (xs ++ x ∷ []) ≡ map f xs ++ f x ∷ []
map-concat f [] x = refl
map-concat f (y ∷ xs) x = ap (λ l. f y ∷ l) (map-concat f xs x)

digit_read : (d : ℕ) → d < 16 → hex_to_dig (digit_char d) ≡ d
unfolding hex_to_dig digit_char
digit_read d h = ground arith

shrinks : (b n fuel : ℕ) → 2 ≤ b → b ≤ n → n < suc fuel → n / b < fuel
shrinks b n fuel h k f = omega (arith, div-lt_self {n = n} {k = b} (omega arith) (omega arith))

place : (b n : ℕ) → 2 ≤ b → b ≤ 16 → n / b * b + hex_to_dig (digit_char (n % b)) ≡ n
place b n two sixteen =
    let small : n % b < b = mod-lt n (omega arith) in
    rw (digit_read (n % b) (omega (arith, small))) (div-add-mod' n b)

read-to_base :
    (b : ℕ)
    → 2 ≤ b
    → b ≤ 16
    → (fuel n : ℕ) → n < fuel
    → read b 0 (map digit_char (to_base b fuel n)) ≡ n
unfolding to_base read
read-to_base b two sixteen zero n h = absurd (omega arith)
read-to_base b two sixteen (suc fuel) n h = elim (Bool-cases (ltb n b)) [
  | inl s ↦ rw s (omega (arith, digit_read n (ground arith)))
  | inr l ↦
      rw
        (
          l,
          map-concat,
          read-concat,
          read-to_base b two sixteen fuel (n / b) (shrinks b n fuel two (ground arith) h),
        )
        (place b n two sixteen)
]

-- The size of a chunk in hexadecimal reads back as the size.
pub upper_hex_lem : (n : ℕ) → read 16 0 (upper_hex n) ≡ n
unfolding upper_hex
upper_hex_lem n = read-to_base 16 (omega arith) (omega arith) (suc n) n (omega arith)

-- A length in decimal reads back as the length.
pub decimal_lem : (n : ℕ) → read 10 0 (decimal n) ≡ n
unfolding decimal
decimal_lem n = read-to_base 10 (omega arith) (omega arith) (suc n) n (omega arith)

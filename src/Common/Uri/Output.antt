-- ===== src/Common/Uri/Output.antt =====
-- What the decoder of fastwsgi/common.c puts out: no control bytes, and the inverse of the usual
-- encoding.
use mathlib.Core.Bool.{false≢true}
use fastpysgi.Base.Memory.{take-append}
use fastpysgi.Base.{
  ℕ, zero, suc, ◌+◌, ◌-◌, ◌/◌, ◌%◌, ◌≤◌, ◌<◌, ◌≡◌, refl, sym, ◌∙◌, subst, inl, inr, Bool, true,
  false, not, ◌&&◌, Option, some, [], ◌∷◌, ◌++◌, arith, ltb, ◌==◌, if◌then◌else◌, Bool-cases,
  length, take, ℤ, is_neg, is_zero, pos, Bytes,
}
use fastpysgi.Common.Uri.{hex_pair, check_val, uri_percent_decode_inplace}
use fastpysgi.Common.Uri.Inplace.{Agrees, uri_percent_decode_inplace_lem}
use fastpysgi.Common.Ascii.{hex_to_dig}
use fastpysgi.Common.Uri.Reference.{Decoded, prepend, triplet, bad_digits, value, decode, ok, err}

-- no byte below 0x20
abbrev pub Clean : Bytes → Type 0
Clean [] = Unit
Clean (x ∷ xs) = (0x20 ≤ x) × Clean xs

check_val-Clean :
    (check prev val : ℕ) → 1 ≤ check → is_zero (check_val check prev val) ≡ true → 0x20 ≤ val
unfolding check_val
check_val-Clean check prev val h e = ground arith

check_val-Neg :
    (check prev val : ℕ)
    → is_zero (check_val check prev val) ≡ false
    → is_neg (check_val check prev val) ≡ true
unfolding check_val
check_val-Neg check prev val e = ground arith

abbrev CleanOut : Decoded → Type 0
CleanOut (ok ys) = Clean ys
CleanOut (err e) = is_neg e ≡ true

Clean-prepend : (x : ℕ) (d : Decoded) → 0x20 ≤ x → CleanOut d → CleanOut (prepend (x ∷ []) d)
Clean-prepend x (ok ys) h c = (h, c)
Clean-prepend x (err e) h c = c

Clean-prepend3 :
    (x y z : ℕ) (d : Decoded)
    → 0x20 ≤ x
    → 0x20 ≤ y
    → 0x20 ≤ z
    → CleanOut d
    → CleanOut (prepend (x ∷ y ∷ z ∷ []) d)
Clean-prepend3 x y z (ok ys) h i j c = (h, (i, (j, c)))
Clean-prepend3 x y z (err e) h i j c = c

triplet-Clean :
    (check prev val : ℕ) (d : Decoded)
    → 1 ≤ check
    → CleanOut d
    → CleanOut (triplet check prev val d)
triplet-Clean check prev val d h c = elim (Bool-cases (is_zero (check_val check prev val))) [
  | inl z ↦ rw z (Clean-prepend val d (check_val-Clean check prev val h z) c)
  | inr z ↦ rw z (check_val-Neg check prev val z)
]

decode-Clean :
    (skip2f : Bool) (check prev : ℕ) (xs : Bytes)
    → 1 ≤ check
    → Clean xs
    → CleanOut (decode skip2f check prev xs)
unfolding decode
decode-Clean skip2f check prev [] h c = tt
decode-Clean skip2f check prev (x ∷ []) h c = elim (Bool-cases (x == b'%')) [
  | inl e ↦ rw e refl
  | inr e ↦ rw e (c.0, tt)
]
decode-Clean skip2f check prev (x ∷ y ∷ []) h c = elim (Bool-cases (x == b'%')) [
  | inl e ↦ rw e refl
  | inr e ↦ rw e (
      Clean-prepend x (decode skip2f check x (y ∷ [])) c.0
        (decode-Clean skip2f check x (y ∷ []) h c.1))
]
decode-Clean skip2f check prev (x ∷ y ∷ z ∷ xs) h c = elim (Bool-cases (x == b'%')) [
  | inl e ↦ elim (Bool-cases (bad_digits y z)) [
    | inl b ↦ rw (e, decode, b) refl
    | inr b ↦ elim (Bool-cases (value y z == b'/' && skip2f)) [
      | inl v ↦
          rw (e, decode, b, v)
            (Clean-prepend3 x y z (decode skip2f check 0x01 xs) c.0 c.1.0 c.1.1.0
              (decode-Clean skip2f check 0x01 xs h c.1.1.1))
      | inr v ↦
          rw (e, decode, b, v)
            (triplet-Clean check prev (value y z) (decode skip2f check (value y z) xs) h
              (decode-Clean skip2f check (value y z) xs h c.1.1.1))
    ]
  ]
  | inr e ↦
      rw (e, decode)
        (Clean-prepend x (decode skip2f check x (y ∷ z ∷ xs)) c.0
          (decode-Clean skip2f check x (y ∷ z ∷ xs) h c.1))
]

-- The digit of a number below 16, in upper case.
abbrev hex_digit : ℕ → ℕ
hex_digit n = if ltb n 10 then n + b'0' else n - 10 + b'A'

-- Every byte but the slash as a triplet: an encoding that a client may use for any path.
abbrev pub percent_encode : Bytes → Bytes
percent_encode [] = []
percent_encode (x ∷ xs) =
    if x == b'/'
    then x ∷ percent_encode xs
    else b'%' ∷ hex_digit (x / 16) ∷ hex_digit (x % 16) ∷ percent_encode xs

-- every element is a byte from 0x20 to 0xFE
abbrev pub AllPlain : Bytes → Type 0
AllPlain [] = Unit
AllPlain (x ∷ xs) = (0x20 ≤ x) × (x < 0xFF) × AllPlain xs

passes : (ℕ → Bool) → ℕ → Bool
passes p zero = true
passes p (suc k) = if p k then passes p k else false

passes-at : (p : ℕ → Bool) (k x : ℕ) → x < k → passes p k ≡ true → p x ≡ true
unfolding passes
passes-at p zero x small h = absurd (omega arith)
passes-at p (suc k) x small h = elim (Bool-cases (x == k)) [
  | inl e ↦ ground arith
  | inr e ↦ passes-at p k x (ground arith) (ground arith)
]

abbrev digits_right : ℕ → Bool
digits_right x =
    not (bad_digits (hex_digit (x / 16)) (hex_digit (x % 16)))
    && value (hex_digit (x / 16)) (hex_digit (x % 16)) == x

digits_table : passes digits_right 256 ≡ true
unfolding passes hex_to_dig hex_pair
digits_table = refl

digits_lem : (x : ℕ) → x < 256 → digits_right x ≡ true
digits_lem x h = passes-at digits_right 256 x h digits_table

digits_right→parts :
    (x : ℕ)
    → digits_right x ≡ true
    → (bad_digits (hex_digit (x / 16)) (hex_digit (x % 16)) ≡ false)
      × (value (hex_digit (x / 16)) (hex_digit (x % 16)) ≡ x)
digits_right→parts x h = ground arith

check_val-plain :
    (check prev val : ℕ) → 0x20 ≤ val → val < 0xFF → is_zero (check_val check prev val) ≡ true
unfolding check_val
check_val-plain check prev val lo hi = ground arith

decode-triplet :
    (skip2f : Bool) (check prev h l : ℕ) (rest : Bytes)
    → bad_digits h l ≡ false
    → (value h l == b'/') ≡ false
    → is_zero (check_val check prev (value h l)) ≡ true
    → decode skip2f check prev (b'%' ∷ h ∷ l ∷ rest)
      ≡ prepend (value h l ∷ []) (decode skip2f check (value h l) rest)
unfolding decode
decode-triplet skip2f check prev h l rest b n z = rw (decode, b, n, z) refl

decode-literal :
    (skip2f : Bool) (check prev c : ℕ) (rest : Bytes)
    → (c == b'%') ≡ false
    → decode skip2f check prev (c ∷ rest) ≡ prepend (c ∷ []) (decode skip2f check c rest)
unfolding decode
decode-literal skip2f check prev c [] n = rw (decode, n) refl
decode-literal skip2f check prev c (h ∷ []) n = rw (decode, n) refl
decode-literal skip2f check prev c (h ∷ l ∷ rest) n = rw (decode, n) refl

-- Whatever the checks and the flag for %2F, the decoder undoes the encoding of plain bytes.
decode-percent_encode :
    (skip2f : Bool) (check prev : ℕ) (xs : Bytes)
    → AllPlain xs
    → decode skip2f check prev (percent_encode xs) ≡ ok xs
unfolding decode
decode-percent_encode skip2f check prev [] h = refl
decode-percent_encode skip2f check prev (x ∷ xs) (lo, hi, h) = elim (Bool-cases (x == b'/')) [
  | inl y ↦ rw y (
      decode-literal skip2f check prev x (percent_encode xs) (ground (arith, y))
      ∙ rw (decode-percent_encode skip2f check x xs h) refl)
  | inr n ↦
      let (good, same) = digits_right→parts x (digits_lem x (omega arith)) in
      let v = value (hex_digit (x / 16)) (hex_digit (x % 16)) in
      rw n (
        decode-triplet skip2f check prev (hex_digit (x / 16)) (hex_digit (x % 16))
          (percent_encode xs) good (rw same n) (rw same (check_val-plain check prev x lo hi))
        ∙ rw (same, decode-percent_encode skip2f check x xs h) refl)
]

-- Bytes from 0x20 to 0xFE, percent-encoded but for the slash, come back under every check and whether
-- or not %2F is skipped: the buffer begins with them, their number is returned, and the bytes behind
-- the input are still there.
pub decode_inplace-percent_encode :
    (skip2f : Bool) (check : ℕ) (xs after : Bytes)
    → AllPlain xs
    → Agrees [] after (ok xs) (
        uri_percent_decode_inplace
          (percent_encode xs ++ after)
          (length (percent_encode xs))
          skip2f
          check)
decode_inplace-percent_encode skip2f check xs after h =
    subst
      (λ d. Agrees [] after d (
        uri_percent_decode_inplace (percent_encode xs ++ after) (length (percent_encode xs)) skip2f
          check))
      (decode-percent_encode skip2f check 0 xs h)
      (uri_percent_decode_inplace_lem skip2f check (percent_encode xs) after)

safe_of_Clean :
    (after : Bytes) (d : Decoded) (r : Option (ℤ × Bytes)) (n : ℕ) (buf : Bytes)
    → CleanOut d
    → Agrees [] after d r
    → r ≡ some (pos n, buf)
    → Clean (take n buf)
safe_of_Clean after (ok ys) r n buf c a e =
    let whole : some (pos (length ys), ys ++ a.0) ≡ some (pos n, buf) = sym a.2 ∙ e in
    let size : length ys ≡ n = cc in
    let bytes : ys ++ a.0 ≡ buf = cc in rw (← size, ← bytes, take-append) c
safe_of_Clean after (err m) r n buf c a e =
    let whole : some (m, a.0) ≡ some (pos n, buf) = sym a.1 ∙ e in
    let same : m ≡ pos n = cc in absurd (false≢true (rw same at c))

-- Under a check of at least 1, an input without control bytes that is accepted decodes to bytes
-- without control bytes: `%0D%0A` cannot bring a line break into a path, whatever stands around it.
pub decode_inplace-Clean :
    (skip2f : Bool) (check n : ℕ) (input after buf : Bytes)
    → 1 ≤ check
    → Clean input
    → uri_percent_decode_inplace (input ++ after) (length input) skip2f check ≡ some (pos n, buf)
    → Clean (take n buf)
decode_inplace-Clean skip2f check n input after buf h c e =
    safe_of_Clean after (decode skip2f check 0 input) _ n buf
      (decode-Clean skip2f check 0 input h c)
      (uri_percent_decode_inplace_lem skip2f check input after) e

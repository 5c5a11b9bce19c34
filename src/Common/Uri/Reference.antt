-- ===== src/Common/Uri/Reference.antt =====
-- What the decoder means: the same rules on a list that is only read.
use fastpysgi.Base.{
  ℕ, Bool, true, false, ◌&&◌, ◌||◌, [], ◌∷◌, ◌++◌, ◌==◌, if◌then◌else◌, ℤ, neg, is_zero, Bytes,
}
use fastpysgi.Common.Ascii.{hex_to_dig}
use fastpysgi.Common.Uri.{hex_pair, check_val}

pub data Decoded : Type 0 where
  ok : Bytes → Decoded
  err : ℤ → Decoded

-- put bytes in front of what the rest decodes to
abbrev pub prepend : Bytes → Decoded → Decoded
prepend xs (ok ys) = ok (xs ++ ys)
prepend xs (err e) = err e

-- a triplet that is decoded, in front of what the rest gives
abbrev pub triplet : ℕ → ℕ → ℕ → Decoded → Decoded
triplet check prev val rest =
    if is_zero (check_val check prev val)
    then prepend (val ∷ []) rest
    else err (check_val check prev val)

abbrev pub bad_digits : ℕ → ℕ → Bool
bad_digits h l = hex_to_dig h == 0xFF || hex_to_dig l == 0xFF

abbrev pub value : ℕ → ℕ → ℕ
value h l = hex_pair (hex_to_dig h) (hex_to_dig l)

unfoldable pub decode : Bool → ℕ → ℕ → Bytes → Decoded
decode skip2f check prev [] = ok []
decode skip2f check prev (c ∷ []) = if c == b'%' then err (neg 1) else ok (c ∷ [])
decode skip2f check prev (c ∷ h ∷ []) =
    if c == b'%' then err (neg 1) else prepend (c ∷ []) (decode skip2f check c (h ∷ []))
decode skip2f check prev (c ∷ h ∷ l ∷ rest) = elim (c == b'%') [
  | false ↦ prepend (c ∷ []) (decode skip2f check c (h ∷ l ∷ rest))
  | true ↦ elim (bad_digits h l) [
    | true ↦ err (neg 2)
    | false ↦ elim (value h l == b'/' && skip2f) [
      | true ↦ prepend (c ∷ h ∷ l ∷ []) (decode skip2f check 0x01 rest)
      | false ↦ triplet check prev (value h l) (decode skip2f check (value h l) rest)
    ]
  ]
]

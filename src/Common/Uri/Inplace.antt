-- ===== src/Common/Uri/Inplace.antt =====
-- The decoder that overwrites its own input computes what the read-only rules say: a write never
-- reaches a byte that is still to be read.
use fastpysgi.Base.{
  ℕ, zero, suc, ◌+◌, ◌<◌, ◌≡◌, refl, ◌∙◌, inl, inr, Bool, true, false, ◌&&◌, Option, some, [], ◌∷◌,
  ◌++◌, append-nil, append_assoc, arith, ltb, ◌==◌, Bool-cases, length, drop, ℤ, neg, is_zero, pos,
  Bytes,
}
use fastpysgi.Common.Uri.{
  Cursor, copy, check_val, round, decode_loop, uri_percent_decode_inplace, stop, more,
}
use fastpysgi.Common.Uri.Reference.{Decoded, prepend, triplet, bad_digits, value, decode, ok, err}
use fastpysgi.Common.Uri.Steps.{
  tl, At, copy-At, set_prev-At, written, store-At, round-plain, round-short, round-digits,
  round-slash, round-store,
}

-- What the loop owes for a decoding: the length and the bytes, with the bytes behind the input
-- untouched; or the code of the refusal.
abbrev pub Agrees : Bytes → Bytes → Decoded → Option (ℤ × Bytes) → Type 0
Agrees out after (ok ys) r =
    (junk : Bytes) × (k : ℕ) × (r ≡ some (pos (length (out ++ ys)), (out ++ ys) ++ junk))
    × (drop k junk ≡ after)
Agrees out after (err e) r = (left : Bytes) × (r ≡ some (e, left))

Agrees-prepend :
    (out after xs : Bytes) (d : Decoded) (r : Option (ℤ × Bytes))
    → Agrees (out ++ xs) after d r
    → Agrees out after (prepend xs d) r
Agrees-prepend out after xs (ok ys) r a = (a.0, a.1, rw (← append_assoc) a.2, a.3)
Agrees-prepend out after xs (err e) r a = a

module _ (skip2f : Bool) (check size : ℕ) (fuel : ℕ) (c : Cursor) where
  loop-end :
      ltb c.src size ≡ false → decode_loop (suc fuel) size skip2f check c ≡ some (pos c.dst, c.buf)
  unfolding decode_loop
  loop-end h = rw (h, decode_loop)

  loop-stop :
      (e : ℤ)
      → ltb c.src size ≡ true
      → round size skip2f check c ≡ stop e
      → decode_loop (suc fuel) size skip2f check c ≡ some (e, c.buf)
  unfolding decode_loop
  loop-stop e h q = rw (h, q, decode_loop)

  loop-more :
      (c' : Cursor)
      → ltb c.src size ≡ true
      → round size skip2f check c ≡ more c'
      → decode_loop (suc fuel) size skip2f check c ≡ decode_loop fuel size skip2f check c'
  unfolding decode_loop
  loop-more c' h q = rw (h, q, decode_loop)

copy3-At :
    {out tail ys : Bytes} {x h l k : ℕ} {c : Cursor}
    → At out tail (x ∷ h ∷ l ∷ ys) k c
    → At (out ++ x ∷ h ∷ l ∷ []) (tl (tl (tl tail))) ys k (copy (copy (copy c)))
copy3-At {out} {x = x} {h} {l} a =
    rw append_assoc at (rw append_assoc at (copy-At (copy-At (copy-At a))))

src-lt : (src size n : ℕ) → size ≡ src + suc n → ltb src size ≡ true
src-lt src size n h = ground arith

-- The loop is right for every input shorter than its fuel.
abbrev Correct : Bool → ℕ → ℕ → Type 0
Correct skip2f check fuel =
    (rest after out tail : Bytes) (k size : ℕ) (c : Cursor)
    → length rest < fuel
    → size ≡ c.src + length rest
    → At out tail (rest ++ after) k c
    → Agrees out after (decode skip2f check c.prev rest) (decode_loop fuel size skip2f check c)

module _ (skip2f : Bool) (check fuel : ℕ) (ih : Correct skip2f check fuel) where
  -- a byte that is no `%`
  plain-Agrees :
      (x : ℕ) (rest after out tail : Bytes) (k size : ℕ) (c : Cursor)
      → suc (length rest) < suc fuel
      → size ≡ c.src + suc (length rest)
      → At out tail (x ∷ rest ++ after) k c
      → (x == b'%') ≡ false
      → Agrees out after
          (prepend (x ∷ []) (decode skip2f check x rest))
          (decode_loop (suc fuel) size skip2f check c)
  unfolding copy
  plain-Agrees x rest after out tail k size c f s a e =
      rw
        (loop-more skip2f check size fuel c _ (src-lt c.src size (length rest) s)
          (round-plain skip2f check size a e))
        (Agrees-prepend out after (x ∷ []) (decode skip2f check x rest) _ (
          ih rest after (out ++ x ∷ []) (tl tail) k size _ (omega arith) (omega arith)
            (set_prev-At x (copy-At a))))

  module _ (x h l : ℕ) (rest after out tail : Bytes) (k size : ℕ) (c : Cursor)
      (f : suc (suc (suc (length rest))) < suc fuel)
      (s : size ≡ c.src + suc (suc (suc (length rest))))
      (a : At out tail (x ∷ h ∷ l ∷ rest ++ after) k c) (e : (x == b'%') ≡ true)
      (b : bad_digits h l ≡ false) where
    -- `%2F` that stays
    slash-Agrees :
        (value h l == b'/' && skip2f) ≡ true
        → Agrees out after
            (prepend (x ∷ h ∷ l ∷ []) (decode skip2f check 0x01 rest))
            (decode_loop (suc fuel) size skip2f check c)
    unfolding copy
    slash-Agrees v =
        rw
          (loop-more skip2f check size fuel c _ (src-lt c.src size (suc (suc (length rest))) s)
            (round-slash skip2f check size a e (ground arith) b v))
          (Agrees-prepend out after (x ∷ h ∷ l ∷ []) (decode skip2f check 0x01 rest) _ (
            ih rest after (out ++ x ∷ h ∷ l ∷ []) (tl (tl (tl tail))) k size _ (omega arith)
              (omega arith) (set_prev-At 0x01 (copy3-At a))))

    -- a triplet that is decoded or refused
    store-Agrees :
        (value h l == b'/' && skip2f) ≡ false
        → Agrees out after
            (triplet check c.prev (value h l) (decode skip2f check (value h l) rest))
            (decode_loop (suc fuel) size skip2f check c)
    store-Agrees v = elim (Bool-cases (is_zero (check_val check c.prev (value h l)))) [
      | inl z ↦
          rw
            (
              z,
              loop-more skip2f check size fuel c (written c (value h l))
                  (src-lt c.src size (suc (suc (length rest))) s)
                  (round-store skip2f check size a e (ground arith) b v ∙ rw z),
            )
            (Agrees-prepend out after (value h l ∷ []) (decode skip2f check (value h l) rest) _ (
              ih rest after (out ++ value h l ∷ []) (tl tail) (suc (suc k)) size _ (omega arith)
                (omega arith) (store-At (value h l) a)))
      | inr z ↦ rw z (
        c.buf,
        loop-stop skip2f check size fuel c (check_val check c.prev (value h l))
            (src-lt c.src size (suc (suc (length rest))) s)
            (round-store skip2f check size a e (ground arith) b v ∙ rw z),
      )
    ]

-- a round at a `%` with two more bytes
escape-Agrees :
    (skip2f : Bool) (check fuel : ℕ)
    → Correct skip2f check fuel
    → (x h l : ℕ) (rest after out tail : Bytes) (k size : ℕ) (c : Cursor)
    → suc (suc (suc (length rest))) < suc fuel
    → size ≡ c.src + suc (suc (suc (length rest)))
    → At out tail (x ∷ h ∷ l ∷ rest ++ after) k c
    → (x == b'%') ≡ true
    → Agrees out after
        (decode skip2f check c.prev (x ∷ h ∷ l ∷ rest))
        (decode_loop (suc fuel) size skip2f check c)
unfolding decode
escape-Agrees skip2f check fuel ih x h l rest after out tail k size c f s a e =
    elim (Bool-cases (bad_digits h l)) [
      | inl b ↦
          rw (e, decode, b)
            (
              c.buf,
              loop-stop skip2f check size fuel c (neg 2)
                  (src-lt c.src size (suc (suc (length rest))) s)
                  (round-digits skip2f check size a e (ground arith) b),
            )
      | inr b ↦ elim (Bool-cases (value h l == b'/' && skip2f)) [
        | inl v ↦
            rw (e, decode, b, v)
              (slash-Agrees skip2f check fuel ih x h l rest after out tail k size c f s a e b v)
        | inr v ↦
            rw (e, decode, b, v)
              (store-Agrees skip2f check fuel ih x h l rest after out tail k size c f s a e b v)
      ]
    ]

module _ (skip2f : Bool) (check : ℕ) where
  decode_loop-Correct : (fuel : ℕ) → Correct skip2f check fuel
  unfolding decode
  decode_loop-Correct zero rest after out tail k size c f s a = absurd (omega arith)
  decode_loop-Correct (suc fuel) [] after out tail k size c f s a =
      rw (loop-end skip2f check size fuel c (ground arith), append-nil)
        (tail, k, rw (a.dst_eq, a.buf_eq), a.rest_eq)
  decode_loop-Correct (suc fuel) (x ∷ []) after out tail k size c f s a =
      elim (Bool-cases (x == b'%')) [
        | inl e ↦ rw e (
          c.buf,
          loop-stop skip2f check size fuel c (neg 1) (src-lt c.src size 0 s)
              (round-short skip2f check size a e (ground arith)),
        )
        | inr e ↦ rw e (
            plain-Agrees skip2f check fuel (decode_loop-Correct fuel) x [] after out tail k size c f
              s a e)
      ]
  decode_loop-Correct (suc fuel) (x ∷ h ∷ []) after out tail k size c f s a =
      elim (Bool-cases (x == b'%')) [
        | inl e ↦ rw e (
          c.buf,
          loop-stop skip2f check size fuel c (neg 1) (src-lt c.src size 1 s)
              (round-short skip2f check size a e (ground arith)),
        )
        | inr e ↦ rw e (
            plain-Agrees skip2f check fuel (decode_loop-Correct fuel) x (h ∷ []) after out tail k
              size c f s a e)
      ]
  decode_loop-Correct (suc fuel) (x ∷ h ∷ l ∷ rest) after out tail k size c f s a =
      elim (Bool-cases (x == b'%')) [
        | inl e ↦
            escape-Agrees skip2f check fuel (decode_loop-Correct fuel) x h l rest after out tail k
              size c f s a e
        | inr e ↦
            rw (e, decode)
              (plain-Agrees skip2f check fuel (decode_loop-Correct fuel) x (h ∷ l ∷ rest) after out
                tail k size c f s a e)
      ]

-- For every input followed by any bytes, the function that overwrites its input returns within its
-- fuel. It accepts exactly what the read-only rules accept, with the length of their result, that
-- result in front of the buffer and the bytes behind the input unchanged; and it refuses the rest
-- with the same code.
pub uri_percent_decode_inplace_lem :
    (skip2f : Bool) (check : ℕ) (input after : Bytes)
    → Agrees [] after
        (decode skip2f check 0 input)
        (uri_percent_decode_inplace (input ++ after) (length input) skip2f check)
unfolding uri_percent_decode_inplace
uri_percent_decode_inplace_lem skip2f check input after =
    decode_loop-Correct skip2f check (suc (length input)) input after [] (input ++ after) 0
      (length input) (record { buf = input ++ after; src = 0; dst = 0; prev = 0 }) (omega arith)
      (omega arith) (record { buf_eq = refl; dst_eq = refl; src_eq = omega arith; rest_eq = refl })

-- ===== src/Common/Uri/Steps.antt =====
-- The rounds of the decoder's loop, on the bytes that are written and the bytes still to be read.
use fastpysgi.Base.{
  ℕ, zero, suc, ◌+◌, ◌≡◌, refl, ap, ◌∙◌, ◌≢◌, Bool, true, false, ◌&&◌, [], ◌∷◌, ◌++◌, arith, leb,
  ◌==◌, if◌then◌else◌, length, set, length-append, get_or, drop, neg, is_zero, Bytes,
}
use fastpysgi.Common.Uri.{Cursor, copy, check_val, round, stop, more}
use fastpysgi.Common.Uri.Reference.{bad_digits, value}

abbrev pub tl : Bytes → Bytes
tl [] = []
tl (x ∷ xs) = xs

-- `out` is written, `rest` is still to be read, and `src` is `k` bytes ahead of `dst`.
pub record At (out tail rest : Bytes) (k : ℕ) (c : Cursor) : Type 0 where
  pub buf_eq : c.buf ≡ out ++ tail
  pub dst_eq : c.dst ≡ length out
  pub src_eq : c.src ≡ length out + k
  pub rest_eq : drop k tail ≡ rest

pub get_or-cong : (xs : Bytes) {i j : ℕ} → i ≡ j → get_or xs i 0 ≡ get_or xs j 0
get_or-cong xs e = ap (λ n. get_or xs n 0) e

pub get_or-append : (xs ys : Bytes) (i : ℕ) → get_or (xs ++ ys) (length xs + i) 0 ≡ get_or ys i 0
get_or-append [] ys i = get_or-cong ys (omega arith)
get_or-append (x ∷ xs) ys i =
    get_or-cong (x ∷ xs ++ ys) {j = suc (length xs + i)} (omega arith) ∙ get_or-append xs ys i

pub get_or-drop : (k : ℕ) (xs : Bytes) (i : ℕ) → get_or xs (k + i) 0 ≡ get_or (drop k xs) i 0
get_or-drop zero xs i = get_or-cong xs (omega arith)
get_or-drop (suc k) [] i = refl
get_or-drop (suc k) (x ∷ xs) i =
    get_or-cong (x ∷ xs) {j = suc (k + i)} (omega arith) ∙ get_or-drop k xs i

pub set-append :
    (xs ys : Bytes) (v : ℕ) → ys ≢ [] → set (xs ++ ys) (length xs) v ≡ (xs ++ v ∷ []) ++ tl ys
set-append [] [] v h = absurd (h refl)
set-append [] (y ∷ ys) v h = refl
set-append (x ∷ xs) ys v h = ap (λ l. x ∷ l) (set-append xs ys v h)

pub drop-suc : (k : ℕ) (xs : Bytes) → drop (suc k) xs ≡ tl (drop k xs)
drop-suc zero [] = refl
drop-suc zero (x ∷ xs) = refl
drop-suc (suc k) [] = refl
drop-suc (suc k) (x ∷ xs) = drop-suc k xs

pub drop-tl : (k : ℕ) (xs : Bytes) → drop k (tl xs) ≡ tl (drop k xs)
drop-tl zero xs = refl
drop-tl (suc k) [] = refl
drop-tl (suc k) (x ∷ xs) = drop-suc k xs

pub ne_nil_of_drop : (k : ℕ) (xs : Bytes) {y : ℕ} {ys : Bytes} → drop k xs ≡ y ∷ ys → xs ≢ []
ne_nil_of_drop zero [] h = cc
ne_nil_of_drop (suc k) [] h = cc
ne_nil_of_drop k (x ∷ xs) h = cc

pub length-concat : (xs : Bytes) (v : ℕ) → length (xs ++ v ∷ []) ≡ length xs + 1
length-concat xs v = length-append xs (v ∷ [])

module _ {out tail rest : Bytes} {k : ℕ} {c : Cursor} (a : At out tail rest k c) where
  pub read : (i : ℕ) → get_or c.buf (c.src + i) 0 ≡ get_or rest i 0
  read i =
      rw (a.buf_eq, a.src_eq, ← a.rest_eq)
        (get_or-cong (out ++ tail) {j = length out + (k + i)} (omega arith)
          ∙ get_or-append out tail (k + i)
          ∙ get_or-drop k tail i)

  pub read_here : get_or c.buf c.src 0 ≡ get_or rest 0 0
  read_here = get_or-cong c.buf {j = c.src + 0} (omega arith) ∙ read 0

module _ {out tail ys : Bytes} {x k : ℕ} {c : Cursor} (a : At out tail (x ∷ ys) k c) where
  pub write : (v : ℕ) → set c.buf c.dst v ≡ (out ++ v ∷ []) ++ tl tail
  write v = rw (a.buf_eq, a.dst_eq) (set-append out tail v (ne_nil_of_drop k tail a.rest_eq))

  pub copy-At : At (out ++ x ∷ []) (tl tail) ys k (copy c)
  unfolding copy
  copy-At = record {
    buf_eq = rw (read_here a) (write x);
    dst_eq = omega (arith, a.dst_eq, length-concat out x);
    src_eq = omega (arith, a.src_eq, length-concat out x);
    rest_eq = drop-tl k tail ∙ ap tl a.rest_eq;
  }

pub set_prev-At :
    {out tail rest : Bytes} {k : ℕ} {c : Cursor} (p : ℕ)
    → At out tail rest k c
    → At out tail rest k (record c { prev = p })
set_prev-At p a = record {
  buf_eq = a.buf_eq;
  dst_eq = a.dst_eq;
  src_eq = a.src_eq;
  rest_eq = a.rest_eq;
}

-- the cursor after a decoded triplet
abbrev pub written : Cursor → ℕ → Cursor
written c v = record { buf = set c.buf c.dst v; src = c.src + 3; dst = c.dst + 1; prev = v }

pub store-At :
    {out tail ys : Bytes} {x h l k : ℕ} {c : Cursor} (v : ℕ)
    → At out tail (x ∷ h ∷ l ∷ ys) k c
    → At (out ++ v ∷ []) (tl tail) ys (suc (suc k)) (written c v)
store-At {out} {tail} {k = k} v a = record {
  buf_eq = write a v;
  dst_eq = omega (arith, a.dst_eq, length-concat out v);
  src_eq = omega (arith, a.src_eq, length-concat out v);
  rest_eq =
      drop-suc (suc k) (tl tail)
      ∙ ap tl (drop-suc k (tl tail) ∙ ap tl (drop-tl k tail ∙ ap tl a.rest_eq));
}

-- the rounds of the loop, one lemma for each way through
module _ (skip2f : Bool) (check : ℕ) {out tail : Bytes} {k : ℕ} {c : Cursor} where
  pub round-plain :
      {x : ℕ} {ys : Bytes} (size : ℕ)
      → At out tail (x ∷ ys) k c
      → (x == b'%') ≡ false
      → round size skip2f check c ≡ more (record (copy c) { prev = x })
  unfolding round
  round-plain size a e = rw (read_here a, e)

  pub round-short :
      {x : ℕ} {ys : Bytes} (size : ℕ)
      → At out tail (x ∷ ys) k c
      → (x == b'%') ≡ true
      → leb size (c.src + 2) ≡ true
      → round size skip2f check c ≡ stop (neg 1)
  unfolding round
  round-short size a e s = rw (read_here a, e, s)

  module _ {x h l : ℕ} {ys : Bytes} (size : ℕ) (a : At out tail (x ∷ h ∷ l ∷ ys) k c)
      (e : (x == b'%') ≡ true) (s : leb size (c.src + 2) ≡ false) where
    pub round-digits : bad_digits h l ≡ true → round size skip2f check c ≡ stop (neg 2)
    unfolding round
    round-digits b = rw (read_here a, e, s, read a 1, read a 2, b)

    pub round-slash :
        bad_digits h l ≡ false
        → (value h l == b'/' && skip2f) ≡ true
        → round size skip2f check c ≡ more (record (copy (copy (copy c))) { prev = 0x01 })
    unfolding round
    round-slash b v = rw (read_here a, e, s, read a 1, read a 2, b, v)

    pub round-store :
        bad_digits h l ≡ false
        → (value h l == b'/' && skip2f) ≡ false
        → round size skip2f check c ≡ (
            if is_zero (check_val check c.prev (value h l))
            then more (written c (value h l))
            else stop (check_val check c.prev (value h l)))
    unfolding round
    round-store b v = rw (read_here a, e, s, read a 1, read a 2, b, v)

-- ===== src/Common/Options.antt =====
-- What the readers of fastwsgi/common.c promise.
use fastpysgi.Base.{
  ℕ, zero, suc, ◌+◌, ◌<◌, min, code, ◌≡◌, refl, ap, ◌⊎◌, inl, inr, Bool, true, false, not, ◌&&◌,
  ◌||◌, Option, none, some, List, [], ◌∷◌, arith, ltb, ◌==◌, if◌then◌else◌, Bool-cases, length,
  get_elem?, get_or, ℤ, neg, is_neg, int_eq, int_lt, llong_min, llong_max, pos, negsuc, Bytes,
}
use fastpysgi.Common.Attributes.{
  read_number, accept_number, get_env_int, Attr, Item, fill, read_tuple, get_obj_attr_list_tup,
  text_of, get_obj_attr_bindlist, find_from, find_crlf, item_tuple, list_of,
}

-- CR LF at an index
abbrev pub is_crlf : Bytes → ℕ → Bool
is_crlf bs j = get_or bs j 0 == 13 && get_or bs (suc j) 0 == 10

-- The result of a search from this index on: the first CR LF, or that there is none.
unfoldable pub FirstCrlf : ℕ → Bytes → Option ℕ → Type 0
FirstCrlf i bs none = (j : ℕ) → is_crlf bs j ≡ false
FirstCrlf i bs (some k) =
    (j : ℕ) × (k ≡ i + j) × (is_crlf bs j ≡ true) × ((m : ℕ) → m < j → is_crlf bs m ≡ false)

-- the search behind the first byte, at which there is no CR LF
behind :
    (i c : ℕ) (bs : Bytes) (r : Option ℕ)
    → is_crlf (c ∷ bs) 0 ≡ false
    → FirstCrlf (i + 1) bs r
    → FirstCrlf i (c ∷ bs) r
unfolding FirstCrlf
behind i c bs none h later = at
  where
    at : (j : ℕ) → is_crlf (c ∷ bs) j ≡ false
    at zero = h
    at (suc j) = later j
behind i c bs (some k) h (j, e, here, before) = (suc j, omega arith, here, at)
  where
    at : (m : ℕ) → m < suc j → is_crlf (c ∷ bs) m ≡ false
    at zero l = h
    at (suc m) l = before m (omega arith)

find_from-FirstCrlf : (i : ℕ) (bs : Bytes) → FirstCrlf i bs (find_from i bs)
unfolding FirstCrlf find_from
find_from-FirstCrlf i [] = λ j. refl
find_from-FirstCrlf i (c ∷ []) = behind i c [] none (ground arith) (λ j. refl)
find_from-FirstCrlf i (c ∷ d ∷ bs) = elim (Bool-cases (c == 13 && d == 10)) [
  | inl y ↦ rw (find_from, y) (0, omega arith, y, λ m l. absurd (omega arith))
  | inr n ↦
      rw (find_from, n)
        (behind i c (d ∷ bs) (find_from (i + 1) (d ∷ bs)) n (find_from-FirstCrlf (i + 1) (d ∷ bs)))
]

-- `find_crlf` gives the index of the first CR LF of the bytes, or nothing if they hold none.
pub find_crlf-FirstCrlf : (bs : Bytes) → FirstCrlf 0 bs (find_crlf bs)
unfolding find_crlf
find_crlf-FirstCrlf bs = find_from-FirstCrlf 0 bs

-- "not set", or a number from 0 to LLONG_MAX - 1
abbrev pub IsOption : ℤ → Type 0
IsOption v = (v ≡ llong_min) ⊎ ((is_neg v ≡ false) × (int_eq v llong_max ≡ false))

accept_number-IsOption : (v : ℤ) → IsOption (accept_number v)
accept_number-IsOption (negsuc n) = inl refl
accept_number-IsOption (pos n) = elim (Bool-cases (not (ltb 0 n) || n == 9223372036854775807)) [
  | inl y ↦ rw y (inl refl)
  | inr k ↦ rw k (inr (refl, right n k))
]
  where
    right :
        (n : ℕ)
        → not (ltb 0 n) || n == 9223372036854775807 ≡ false
        → (n == 9223372036854775807) ≡ false
    right n k = ground arith

-- What `get_env_int` gives is LLONG_MIN, "not set", or a number from 0 to LLONG_MAX - 1, whatever the
-- variable holds and strtoll answers.
pub get_env_int-IsOption :
    (strtoll : ℕ → Bytes → ℤ) (value : Option Bytes) → IsOption (get_env_int strtoll value)
unfolding get_env_int
get_env_int-IsOption strtoll none = inl refl
get_env_int-IsOption strtoll (some b) = elim (Bool-cases (length b == 0)) [
  | inl y ↦ rw (get_env_int, y) (inl refl)
  | inr n ↦ elim (Bool-cases (length b == 1 && get_or b 0 0 == b'0')) [
    | inl y ↦ rw (get_env_int, n, y) (inr (refl, refl))
    | inr m ↦ rw (get_env_int, n, m) (accept_number-IsOption (read_number strtoll b))
  ]
]

counted_some :
    (y : Item) (items : List Item)
    → int_lt (get_obj_attr_list_tup (some (list_of (y ∷ items))) (neg 1) 0).0 (pos 1) ≡ false
unfolding get_obj_attr_list_tup
counted_some y items = ground arith

longer : (x : Attr) (xs : List Attr) → (length (x ∷ xs) == 0) ≡ false
longer x xs = ground arith

read_two :
    (x z : Attr) (xs : List Attr)
    → read_tuple 2 (some (item_tuple (x ∷ z ∷ xs))) ≡ (pos 2, some x ∷ some z ∷ [])
unfolding read_tuple fill
read_two x z xs =
    rw (read_tuple, longer x (z ∷ xs)) (ap (λ n. (pos n, some x ∷ some z ∷ [])) (least xs))
  where
    least : (xs : List Attr) → min 2 (length (x ∷ z ∷ xs)) ≡ 2
    least xs = omega arith

-- A tuple in the list at an index of `bindlist`: with two values or more the code is 2 and the host is
-- the first value if that is a text; with one value the code is 1, which is no error, and there is no
-- host.
pub get_obj_attr_bindlist_lem :
    (y : Item) (items : List Item) (idx : ℕ) (x : Attr) (xs : List Attr)
    → get_elem? (y ∷ items) idx ≡ some (item_tuple (x ∷ xs))
    → let (code, host, port) = get_obj_attr_bindlist (some (list_of (y ∷ items))) idx in
      (int_lt (pos 0) code ≡ true) × (host ≡ (if length xs == 0 then none else text_of (some x)))
unfolding get_obj_attr_bindlist get_obj_attr_list_tup read_tuple fill
get_obj_attr_bindlist_lem y items idx x [] h =
    rw (get_obj_attr_bindlist, h, counted_some y items) (refl, refl)
get_obj_attr_bindlist_lem y items idx x (z ∷ xs) h =
    rw (get_obj_attr_bindlist, h, counted_some y items, read_two x z xs, longer z xs) (refl, refl)

-- ===== src/Request/Names.antt =====
-- The names under which the WSGI environ holds the header fields.
use fastpysgi.Base.{
  ℕ, ◌+◌, ◌<◌, ◌≡◌, refl, ap₂, inl, inr, Bool, true, false, [], ◌∷◌, map, arith, ltb, leb, ◌==◌,
  Bool-cases, length, drop, Bytes, has_byte,
}
use fastpysgi.Common.Ascii.{ascii_to_lower, ascii_to_upper}
use fastpysgi.Client.{Client, Srv}
use fastpysgi.Request.{proceed}
use fastpysgi.Request.Header.{
  prefix_len, name_byte, convert, on_header_field_complete, on_header_value,
}

name_byte_injective :
    (lower : Bool) (x y : ℕ)
    → (x == b'_') ≡ false
    → (y == b'_') ≡ false
    → name_byte false lower x ≡ name_byte false lower y
    → ascii_to_lower x ≡ ascii_to_lower y
unfolding name_byte ascii_to_lower ascii_to_upper
name_byte_injective lower x y p q e = ground arith

cons_eq : {x y : ℕ} {xs ys : Bytes} → x ∷ xs ≡ y ∷ ys → (x ≡ y) × (xs ≡ ys)
cons_eq e = (cc, cc)

has_byte-cons :
    (c x : ℕ) (xs : Bytes)
    → has_byte c (x ∷ xs) ≡ false
    → ((x == c) ≡ false) × (has_byte c xs ≡ false)
has_byte-cons c x xs h = ground arith

-- Two field names without underscores that get the same environ name differ in case at most: no
-- client can send one header under the name of another.
pub convert_injective :
    (lower : Bool) (a b : Bytes)
    → has_byte b'_' a ≡ false
    → has_byte b'_' b ≡ false
    → convert false lower a ≡ convert false lower b
    → map ascii_to_lower a ≡ map ascii_to_lower b
unfolding convert
convert_injective lower [] [] p q e = refl
convert_injective lower [] (y ∷ b) p q e = cc
convert_injective lower (x ∷ a) [] p q e = cc
convert_injective lower (x ∷ a) (y ∷ b) p q e =
    let (px, pa) = has_byte-cons b'_' x a p in
    let (qy, qb) = has_byte-cons b'_' y b q in
    let (exy, eab) = cons_eq e in
    ap₂ ◌∷◌ (name_byte_injective lower x y px qy exy) (convert_injective lower a b pa qb eab)

abbrev dropped : Client → Client
dropped c = record c {
  request = record (c.request) {
    headers_num = c.request.headers_num + 1;
    current_key_len = 0;
    current_val_len = 0;
  };
  head = [];
}

drops :
    (srv : Srv) (c : Client)
    → ltb srv.max_headers_num (c.request.headers_num + 1) ≡ false
    → leb (length c.head) (prefix_len c) ≡ false
    → has_byte b'_' (drop (prefix_len c) c.head) ≡ true
    → on_header_field_complete srv c ≡ (proceed, dropped c)
unfolding on_header_field_complete
drops srv c n l u = rw (on_header_field_complete, n, l, u)

skips_value :
    (c : Client) (value : Bytes) → on_header_value value (dropped c) ≡ (proceed, dropped c)
unfolding on_header_value
skips_value c value = elim (Bool-cases (length value == 0)) [
  | inl e ↦ rw (on_header_value, e)
  | inr e ↦ rw (on_header_value, e)
]

-- A field whose name holds an underscore leaves no trace: the head buffer is empty, and the value
-- that follows is passed over.
pub underscore_dropped :
    (srv : Srv) (c : Client) (value : Bytes)
    → c.request.headers_num < srv.max_headers_num
    → prefix_len c < length c.head
    → has_byte b'_' (drop (prefix_len c) c.head) ≡ true
    → let (verdict, d) = on_header_field_complete srv c in
      (verdict ≡ proceed) × (d.head ≡ []) × (on_header_value value d ≡ (proceed, d))
underscore_dropped srv c value n l u =
    rw (drops srv c (ground arith) (ground arith) u) (refl, refl, skips_value c value)

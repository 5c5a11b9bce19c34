-- ===== src/XBuf/Append.antt =====
-- `xbuf_add` appends: the client sees a list that grows.
use fastpysgi.Base.{
  ℕ, suc, ◌+◌, ◌^◌, ◌≤◌, ◌<◌, ◌≡◌, sym, ap, ◌∙◌, ◌≢◌, Bool, true, false, Option, none, [], ◌∷◌,
  ◌++◌, append-nil, arith, ◌==◌, length, length-set, ℤ, pos, Bytes, u32,
}
use fastpysgi.Base.Memory.{overlay, length-overlay, take-set, take-overlay, get_or-set_self}
use fastpysgi.XBuf.{XBuf, owns, bytes_of, append_at, xbuf_add}
use fastpysgi.XBuf.Invariant.{contents, IsValid, Gives}
use fastpysgi.XBuf.Growth.{Grown, some-ne-none, buf, xbuf_expand-Grown}

-- what one call of `xbuf_add` owes, for the value returned, the buffer and the freed block
pub record Added (b : XBuf) (xs : Bytes) (r : ℤ × XBuf × Bool) : Type 0 where
  pub returned : r.0 ≡ pos (b.size + length xs)
  pub valid : IsValid r.1
  pub appended : contents r.1 ≡ contents b ++ xs
  pub freed_owned : r.2 ≡ true → owns b ≡ true

append_at-IsValid :
    (o : Option Bytes) (size capacity : ℕ) (xs : Bytes)
    → IsValid (buf o size capacity)
    → o ≢ none
    → size + length xs ≤ capacity
    → IsValid (append_at (buf o size capacity) xs)
unfolding append_at buf
append_at-IsValid o size capacity xs v p h =
    let room = v.in_block p in
    let fits : size + length xs < length (bytes_of o) = omega arith in
    let long : length (overlay (bytes_of o) size xs) ≡ length (bytes_of o) =
      length-overlay (bytes_of o) size xs in
    let exact : u32 (size + length xs) ≡ size + length xs = omega (arith, v.small) in
    record {
      in_block =
          λ _. omega (arith, long, length-set (overlay (bytes_of o) size xs) (size + length xs) 0);
      in_cap = omega arith;
      small = v.small;
      terminated =
          rw exact
            (get_or-set_self (overlay (bytes_of o) size xs) (size + length xs) 0 (omega arith));
      absent = λ e. absurd (some-ne-none e);
    }

append_at-contents :
    (o : Option Bytes) (size capacity : ℕ) (xs : Bytes)
    → size + length xs < 2 ^ 30
    → size + length xs ≤ length (bytes_of o)
    → contents (append_at (buf o size capacity) xs) ≡ contents (buf o size capacity) ++ xs
unfolding append_at buf
append_at-contents o size capacity xs s h =
    let exact : u32 (size + length xs) ≡ size + length xs = omega arith in
    rw exact (
      take-set (overlay (bytes_of o) size xs) (size + length xs) 0
      ∙ take-overlay (bytes_of o) size xs h)

-- the two ways through `xbuf_add` once there is room
Added-nothing :
    {b : XBuf} (r : XBuf × Bool) → Grown b (b.size + 0) r → Added b [] (pos r.0.size, r.0, r.1)
Added-nothing {b} r g = record {
  returned = ap pos (omega (arith, g.size_eq));
  valid = g.valid;
  appended = g.same ∙ sym (append-nil (contents b));
  freed_owned = g.freed_owned;
}

Added-some :
    {b : XBuf} (xs : Bytes) (r : XBuf × Bool)
    → b.size + length xs + 8 < 2 ^ 29
    → Grown b (b.size + length xs) r
    → Added b xs (pos (append_at r.0 xs).size, append_at r.0 xs, r.1)
unfolding append_at buf
Added-some {b} xs r s g =
    let b' = r.0 in
    let room = g.valid.in_block g.present in
    record {
      returned = ap pos (omega (arith, g.size_eq));
      valid =
          append_at-IsValid b'.data_block b'.size b'.capacity xs g.valid g.present
            (omega (arith, g.room, g.size_eq));
      appended =
          append_at-contents b'.data_block b'.size b'.capacity xs (omega (arith, g.size_eq))
            (omega (arith, g.room, g.size_eq))
          ∙ ap (λ l. l ++ xs) g.same;
      freed_owned = g.freed_owned;
    }

suc-eq-zero : (n : ℕ) → (suc n == 0) ≡ false
suc-eq-zero n = ground arith

-- With memory to be had, and for a result below 2^29 bytes, `xbuf_add` succeeds on a valid buffer:
-- it returns the new size, the contents are the old ones with the new bytes behind them, the
-- invariant is kept, and a block goes to `free` only if the buffer owned it.
pub xbuf_add-Added :
    (malloc : ℕ → Option Bytes) (b : XBuf) (xs : Bytes)
    → Gives malloc
    → IsValid b
    → b.size + length xs + 8 < 2 ^ 29
    → Added b xs (xbuf_add malloc b xs)
unfolding xbuf_add
xbuf_add-Added malloc b [] gives v s =
    let (r, done, g) = xbuf_expand-Grown malloc gives b 0 v s in
    rw (xbuf_add, done) (Added-nothing r g)
xbuf_add-Added malloc b (x ∷ xs) gives v s =
    let (r, done, g) = xbuf_expand-Grown malloc gives b (length (x ∷ xs)) v s in
    rw (xbuf_add, done, suc-eq-zero (length xs)) (Added-some (x ∷ xs) r s g)

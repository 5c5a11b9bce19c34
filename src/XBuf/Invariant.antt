-- ===== src/XBuf/Invariant.antt =====
-- The invariant of a buffer, and what `xbuf_add` does to its contents.
use fastpysgi.Base.{
  ℕ, ◌+◌, ◌%◌, ◌^◌, ◌≤◌, ◌<◌, ◌≡◌, sym, ap, ◌∙◌, ◌≢◌, inl, inr, Bool, Option, none, some, arith,
  ◌==◌, Bool-cases, length, set, length-set, get_or, take, length-take, Bytes,
}
use fastpysgi.Base.Memory.{
  overlay, length-overlay, take-set, take-overlay, get_or-set_self, take_of_zero,
}
use fastpysgi.XBuf.{XBuf, new_cap, bytes_of, moved}

-- What a client sees: the first `size` bytes.
abbrev pub contents : XBuf → Bytes
contents b = take b.size (bytes_of b.data_block)

-- The block holds the capacity and two bytes more, the contents end in a NUL, and an absent block
-- goes with an empty buffer.
pub record IsValid (b : XBuf) : Type 0 where
  pub in_block : b.data_block ≢ none → b.capacity + 2 ≤ length (bytes_of b.data_block)
  pub in_cap : b.size ≤ b.capacity
  pub small : b.capacity < 2 ^ 30
  pub terminated : get_or (bytes_of b.data_block) b.size 0 ≡ 0
  pub absent : b.data_block ≡ none → (b.size ≡ 0) × (b.capacity ≡ 0)

-- `malloc` gives a block of the size asked for.
abbrev pub Gives : (ℕ → Option Bytes) → Type 0
Gives malloc = (n : ℕ) → (m : Bytes) × (malloc n ≡ some m) × (length m ≡ n)

-- The capacity asked for is odd, so an owned block is always told apart from a borrowed one. It
-- covers the need, and at most doubles it.
pub new_cap_lem :
    (need : ℕ) (addon : Bool)
    → need < 2 ^ 29
    → (new_cap need addon % 2 ≡ 1) × (need ≤ new_cap need addon) × (new_cap need addon < 2 ^ 30)
unfolding new_cap
new_cap_lem need addon h = ground arith

copied : XBuf → Bytes → Bytes
copied b mem = overlay (set mem 0 0) 0 (take b.size (bytes_of b.data_block))

length-copied : (b : XBuf) (mem : Bytes) → length (copied b mem) ≡ length mem
unfolding copied
length-copied b mem =
    length-overlay (set mem 0 0) 0 (take b.size (bytes_of b.data_block)) ∙ length-set mem 0 0

take-copied :
    (b : XBuf) (mem : Bytes)
    → b.size < length mem
    → b.size ≤ length (bytes_of b.data_block)
    → take b.size (copied b mem) ≡ contents b
unfolding copied
take-copied b mem room h =
    ap (λ n. take n (copied b mem)) (omega (arith, length-contents))
    ∙ take-overlay (set mem 0 0) 0 (contents b) (omega (arith, length-contents, length-set mem 0 0))
  where
    length-contents : length (contents b) ≡ b.size
    length-contents = omega (arith, length-take b.size (bytes_of b.data_block))

get_or_of_zero : (xs : Bytes) {n : ℕ} → n ≡ 0 → get_or xs 0 0 ≡ 0 → get_or xs n 0 ≡ 0
get_or_of_zero xs e h = rw e h

module _ (b : XBuf) (mem : Bytes) (room : b.size < length mem) where
  pub length-moved : length (moved b mem) ≡ length mem
  unfolding moved copied
  length-moved = elim (Bool-cases (b.size == 0)) [
    | inl z ↦ rw z (length-set mem 0 0)
    | inr z ↦ rw z (length-set (copied b mem) b.size 0 ∙ length-copied b mem)
  ]

  pub moved-contents :
      b.size ≤ length (bytes_of b.data_block) → take b.size (moved b mem) ≡ contents b
  unfolding moved copied
  moved-contents h = elim (Bool-cases (b.size == 0)) [
    | inl z ↦
        take_of_zero (moved b mem) (ground arith)
        ∙ sym (take_of_zero (bytes_of b.data_block) (ground arith))
    | inr z ↦ rw z (take-set (copied b mem) b.size 0 ∙ take-copied b mem room h)
  ]

  pub moved_terminated : get_or (moved b mem) b.size 0 ≡ 0
  unfolding moved copied
  moved_terminated = elim (Bool-cases (b.size == 0)) [
    | inl z ↦
        rw z (get_or_of_zero (set mem 0 0) (ground arith) (get_or-set_self mem 0 0 (omega arith)))
    | inr z ↦ rw z (get_or-set_self (copied b mem) b.size 0 (omega (arith, length-copied b mem)))
  ]

-- ===== src/XBuf.antt =====
-- fastwsgi/xbuf.h: the growing byte buffer. Memory comes from a parameter `malloc`, which gives a
-- block of unknown bytes or nothing. An odd capacity marks a block that the buffer owns.
pub mod Invariant
pub mod Growth
pub mod Append
mod Tests
use fastpysgi.Base.{
  ℕ, ◌+◌, ◌-◌, ◌*◌, ◌%◌, Bool, true, false, not, Option, none, some, [], ltb, ◌==◌, if◌then◌else◌,
  length, set, take, ℤ, neg, pos, Bytes, u64, u32, sext, sge,
}
use fastpysgi.Base.Memory.{overlay}

-- `size` and `capacity` are the bit patterns of the two `int` fields.
pub record XBuf : Type 0 where
  pub data_block : Option Bytes
  pub size : ℕ
  pub capacity : ℕ

-- the new capacity that `xbuf_resize` asks for, a `size_t`
unfoldable pub new_cap : ℕ → Bool → ℕ
new_cap need_size addon =
    let grown =
      if addon
      then if ltb need_size 1048576 then u64 (need_size * 2) else u64 (need_size + 524288)
      else need_size in
    if grown % 2 == 0 then u64 (grown + 1) else grown

-- `xbuf_free` and `xbuf_resize` hand a block to `free` only if the capacity is odd.
abbrev pub owns : XBuf → Bool
owns b = not (b.capacity % 2 == 0)

abbrev pub bytes_of : Option Bytes → Bytes
bytes_of none = []
bytes_of (some d) = d

-- the old contents, with their NUL, in a new block
pub moved : XBuf → Bytes → Bytes
moved b mem =
    if b.size == 0
    then set mem 0 0
    else set (overlay (set mem 0 0) 0 (take b.size (bytes_of b.data_block))) b.size 0

-- `memcpy` of `xs` behind the contents, the NUL and the new size
pub append_at : XBuf → Bytes → XBuf
append_at b xs = record b {
  data_block = some (set (overlay (bytes_of b.data_block) b.size xs) (b.size + length xs) 0);
  size = u32 (b.size + length xs);
}

module _ (malloc : ℕ → Option Bytes) where
  -- The buffer after `xbuf_resize`, and whether the old block went to `free`. `none`: no memory,
  -- and the buffer is as it was.
  pub xbuf_resize : XBuf → ℕ → Bool → Option (XBuf × Bool)
  unfolding new_cap moved
  xbuf_resize b need_size addon =
      let cap = new_cap need_size addon in
      elim (malloc (u64 (cap + 2))) [
        | none ↦ none
        | some mem ↦ elim (b.data_block) [
          | none ↦ some (record b { data_block = some (set mem 0 0); capacity = u32 cap }, false)
          | some d ↦ some (record b { data_block = some (moved b mem); capacity = u32 cap }, owns b)
        ]
      ]

  -- `xbuf_expand`; the pointer that it returns is `data + size` of the new buffer.
  pub xbuf_expand : XBuf → ℕ → Option (XBuf × Bool)
  unfolding xbuf_resize
  xbuf_expand b expand_size =
      let need_size = u64 (sext b.size + expand_size + 8) in
      if sge need_size (sext b.capacity) then xbuf_resize b need_size true else some (b, false)

  -- `xbuf_init` for `size > 0` bytes at `data`; with no `data` the block is only reserved.
  pub xbuf_init : Option Bytes → ℕ → ℤ × XBuf
  unfolding xbuf_expand append_at
  xbuf_init src size =
      let empty : XBuf = record { data_block = none; size = 0; capacity = 0 } in
      if size == 0 then (pos 0, empty) else elim (xbuf_expand empty size) [
        | none ↦ (neg 1, empty)
        | some (b, _) ↦ elim src [ none ↦ (pos 0, b) | some xs ↦ (pos 0, append_at b xs) ]
      ]

  -- `xbuf_add`: the value returned, the buffer, and whether a block went to `free`
  pub xbuf_add : XBuf → Bytes → ℤ × XBuf × Bool
  unfolding xbuf_expand append_at
  xbuf_add b xs = elim (xbuf_expand b (length xs)) [
    | none ↦ (neg 1, b, false)
    | some (b', freed) ↦
        if length xs == 0
        then (pos b'.size, b', freed)
        else (pos (append_at b' xs).size, append_at b' xs, freed)
  ]

-- `xbuf_init2`, on a block of `capacity` bytes that the buffer does not own
unfoldable pub xbuf_init2 : Bytes → ℕ → XBuf
xbuf_init2 block capacity = record {
  data_block = some (set block 0 0);
  size = 0;
  capacity = if capacity % 2 == 0 then capacity - 2 else capacity - 3;
}

unfoldable pub xbuf_reset : XBuf → XBuf
xbuf_reset b = record b {
  data_block = elim (b.data_block) [ none ↦ none | some d ↦ some (set d 0 0) ];
  size = 0;
}

-- `xbuf_free`: the empty buffer, and whether a block went to `free`
pub xbuf_free : XBuf → XBuf × Bool
xbuf_free b = (
  record { data_block = none; size = 0; capacity = 0 },
  elim (b.data_block) [ none ↦ false | some d ↦ owns b ],
)

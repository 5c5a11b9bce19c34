-- ===== src/Common/Uri.antt =====
-- uri_percent_decode_inplace of fastwsgi/common.c, on a buffer that it reads and overwrites.
pub mod Reference
pub mod Steps
pub mod Inplace
pub mod Output
mod Tests
use Prim.Native.Nat.{bit_or}
use fastpysgi.Base.{
  ℕ, zero, suc, ◌+◌, ◌*◌, code, Bool, true, false, ◌&&◌, ◌||◌, Option, none, some, ltb, leb, ◌==◌,
  if◌then◌else◌, set, get_or, ℤ, neg, is_zero, pos, Bytes, u8,
}
use fastpysgi.Common.Ascii.{hex_to_dig}

-- The pointers `src` and `dst` as offsets into the buffer, and `prev`.
pub record Cursor : Type 0 where
  pub buf : Bytes
  pub src : ℕ
  pub dst : ℕ
  pub prev : ℕ

-- `*dst++ = *src++`
pub copy : Cursor → Cursor
copy c = record c { buf = set c.buf c.dst (get_or c.buf c.src 0); src = c.src + 1; dst = c.dst + 1 }

-- `(hi << 4) | lo` as a `uint8_t`
unfoldable pub hex_pair : ℕ → ℕ → ℕ
hex_pair hi lo = u8 (bit_or (u8 (hi * 16)) lo)

-- the tests under `if (check)`: the code of the first that fails, or 0
unfoldable pub check_val : ℕ → ℕ → ℕ → ℤ
check_val check prev val =
    if leb 1 check && ltb val 0x20
    then neg 11
    else if leb 2 check && val == 0xFF
    then neg 12
    else if leb 3 check && prev == 0x0A && val == 0x0D
    then neg 13
    else pos 0

-- what one round of the loop does: stop with a code, or go on
pub data Round : Type 0 where
  stop : ℤ → Round
  more : Cursor → Round

-- the part of a round behind the test for `%2F`
store : ℕ → ℕ → Cursor → Round
unfolding check_val
store check val c =
    let code = check_val check c.prev val in
    if is_zero code
    then more (record { buf = set c.buf c.dst val; src = c.src + 3; dst = c.dst + 1; prev = val })
    else stop code

-- one round at a `%`
escape : ℕ → Bool → ℕ → Cursor → Round
unfolding copy store hex_to_dig hex_pair
escape size skip2f check c =
    let hi = hex_to_dig (get_or c.buf (c.src + 1) 0) in
    let lo = hex_to_dig (get_or c.buf (c.src + 2) 0) in
    if leb size (c.src + 2)
    then stop (neg 1)
    else if hi == 0xFF || lo == 0xFF
    then stop (neg 2)
    else if hex_pair hi lo == b'/' && skip2f
    then more (record (copy (copy (copy c))) { prev = 0x01 })
    else store check (hex_pair hi lo) c

-- one round of the loop, at `src < end`
pub round : ℕ → Bool → ℕ → Cursor → Round
unfolding escape copy
round size skip2f check c =
    let here = get_or c.buf c.src 0 in
    if here == b'%' then escape size skip2f check c else more (record (copy c) { prev = here })

-- The loop and the return value, with the buffer that it leaves. `none`: the fuel ran out.
pub decode_loop : ℕ → ℕ → Bool → ℕ → Cursor → Option (ℤ × Bytes)
unfolding round
decode_loop zero size skip2f check c = none
decode_loop (suc fuel) size skip2f check c = elim (ltb c.src size) [
  | false ↦ some (pos c.dst, c.buf)
  | true ↦ elim (round size skip2f check c) [
    | stop code ↦ some (code, c.buf)
    | more c' ↦ decode_loop fuel size skip2f check c'
  ]
]

-- The whole function. Each round moves `src`, so `size + 1` rounds are enough.
unfoldable pub uri_percent_decode_inplace : Bytes → ℕ → Bool → ℕ → Option (ℤ × Bytes)
unfolding decode_loop
uri_percent_decode_inplace buf size skip2f check =
    decode_loop (suc size) size skip2f check (record { buf = buf; src = 0; dst = 0; prev = 0 })

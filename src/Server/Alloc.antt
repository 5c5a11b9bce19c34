-- ===== src/Server/Alloc.antt =====
-- alloc_cb of fastwsgi/server.c: the memory that libuv may read into, without TLS. The buffer stands
-- on a block that the connection was allocated with, and never owns it.
use mathlib.Core.Bool.{false≢true}
use fastpysgi.Base.{
  ℕ, ◌+◌, ◌≤◌, ◌<◌, ◌≡◌, refl, ◌≢◌, inl, inr, Bool, true, false, not, Option, none, some, arith,
  if◌then◌else◌, Bool-cases, length, set, length-set, Bytes,
}
use fastpysgi.Client.{RxStatus, resting, reading, freezed, rx_fail, rx_done}
use fastpysgi.XBuf.{XBuf, bytes_of, xbuf_init2, xbuf_reset}

-- The fields of `rx` that the handler works on.
pub record Reader : Type 0 where
  pub rx_status : RxStatus
  pub rx_buf : XBuf
  pub parsed_pos : ℕ

-- RXS_RESTING and RXS_DONE become RXS_READING
abbrev pub woken : RxStatus → RxStatus
woken resting = reading
woken rx_done = reading
woken reading = reading
woken freezed = freezed
woken rx_fail = rx_fail

abbrev pub is_reading : RxStatus → Bool
is_reading reading = true
is_reading _ = false

-- the buffer as it is, or on the prepared block
unfoldable pub prepared : ℕ → Bytes → XBuf → XBuf
unfolding xbuf_init2
prepared read_buffer_size block b = elim (b.data_block) [
  | none ↦ xbuf_init2 block (read_buffer_size + 3)
  | some d ↦ b
]

-- `alloc_cb`: the length handed to libuv, 0 to refuse
unfoldable pub alloc_cb : ℕ → Bytes → Reader → ℕ × Reader
unfolding prepared xbuf_reset
alloc_cb read_buffer_size block r =
    let d = record r { rx_status = woken r.rx_status } in
    if not (is_reading (woken r.rx_status)) then (0, d) else (
      read_buffer_size,
      record d { rx_buf = xbuf_reset (prepared read_buffer_size block r.rx_buf); parsed_pos = 0 },
    )

-- the buffer has a block, and `n` bytes and a NUL fit into it
abbrev pub Fits : ℕ → XBuf → Type 0
Fits n b = (b.data_block ≢ none) × (n ≤ b.capacity) × (n < length (bytes_of b.data_block))

some-ne : {d : Bytes} → some d ≢ none
some-ne = cc

set-room : (d : Bytes) (n : ℕ) → n < length d → n < length (set d 0 0)
set-room d n h = omega (arith, length-set d 0 0)

prepared-Fits :
    (n : ℕ) (block : Bytes) (o : Option Bytes) (size capacity : ℕ)
    → let b : XBuf = record { data_block = o; size = size; capacity = capacity } in
      n + 3 ≤ length block → (o ≢ none → Fits n b) → Fits n (prepared n block b)
unfolding prepared xbuf_init2
prepared-Fits n block none size capacity k h =
    (some-ne, ground arith, set-room block n (omega arith))
prepared-Fits n block (some d) size capacity k h = h some-ne

reset-Fits :
    (n : ℕ) (o : Option Bytes) (size capacity : ℕ)
    → let b : XBuf = record { data_block = o; size = size; capacity = capacity } in
      Fits n b → Fits n (xbuf_reset b)
unfolding xbuf_reset
reset-Fits n none size capacity h = absurd (h.0 refl)
reset-Fits n (some d) size capacity h = (some-ne, h.1, set-room d n h.2)

-- With a block of three bytes more than the size of the read buffer, what libuv may read fits the
-- buffer with a NUL behind it, in the status READING, and the buffer keeps that room for later calls.
pub alloc_cb-Fits :
    (n : ℕ) (block : Bytes) (r : Reader)
    → n + 3 ≤ length block
    → (r.rx_buf.data_block ≢ none → Fits n r.rx_buf)
    → let (len, d) = alloc_cb n block r in
      (len ≢ 0 → Fits len d.rx_buf × (d.rx_status ≡ reading))
      × (d.rx_buf.data_block ≢ none → Fits n d.rx_buf)
unfolding alloc_cb
alloc_cb-Fits n block r k h = elim (Bool-cases (is_reading (woken r.rx_status))) [
  | inl e ↦ rw (alloc_cb, e) (λ z. (fits, by_status (woken r.rx_status) e), λ z. fits)
  | inr e ↦ rw (alloc_cb, e) (λ z. absurd (z refl), h)
]
  where
    fits : Fits n (xbuf_reset (prepared n block r.rx_buf))
    fits =
        reset-Fits n (prepared n block r.rx_buf).data_block (prepared n block r.rx_buf).size
          (prepared n block r.rx_buf).capacity
          (prepared-Fits n block r.rx_buf.data_block r.rx_buf.size r.rx_buf.capacity k h)

    by_status : (s : RxStatus) → is_reading s ≡ true → s ≡ reading
    by_status reading e = refl
    by_status resting e = absurd (false≢true e)
    by_status freezed e = absurd (false≢true e)
    by_status rx_fail e = absurd (false≢true e)
    by_status rx_done e = absurd (false≢true e)

-- ===== src/Tls.antt =====
-- fastwsgi/tls.c: the loops that move bytes through OpenSSL, which is a parameter. The handshake, the
-- certificates and the writes of encrypted bytes by libuv are left out.
pub mod Loops
pub mod Encrypt
pub mod Session
pub mod Flow
pub mod Moves
pub mod Sealed
pub mod Drain
pub mod Ledger
pub mod Taken
pub mod Library
pub mod Contexts
pub mod Plain
pub mod Clients
pub mod Reading
mod Tests
mod SetupTests
use fastpysgi.Base.{
  ℕ, zero, suc, ◌+◌, ◌-◌, Bool, true, false, ◌||◌, List, [], ◌∷◌, ◌++◌, leb, ◌==◌, if◌then◌else◌,
  length, take, drop, ℤ, neg, pos, negsuc, Bytes,
}
use fastpysgi.Client.{Action, ca_ok, ca_close}

-- an answer of SSL_read with that of SSL_get_error; bytes are one at least
pub data SslRead : Type 0 where
  read_bytes : ℕ → Bytes → SslRead
  want_read zero_return read_error : SslRead

-- an answer of SSL_do_handshake with that of SSL_get_error
pub data Shake : Type 0 where
  shake_done shake_want_read shake_failed : Shake

-- an answer of BIO_read with that of BIO_should_retry; bytes are one at least
pub data BioRead : Type 0 where
  bio_bytes : ℕ → Bytes → BioRead
  bio_retry bio_eof bio_failed : BioRead

-- What the code uses of an SSL object with its two BIOs: SSL_read of at most some bytes, SSL_write,
-- SSL_do_handshake, BIO_write on `bio_in`, BIO_pending and BIO_read on `bio_out`.
pub record Ssl (S : Type 0) : Type 0 where
  pub ssl_read : S → ℕ → SslRead × S
  pub ssl_write : S → Bytes → ℤ × S
  pub do_handshake : S → Shake × S
  pub bio_write : S → Bytes → ℤ × S
  pub bio_pending : S → ℤ
  pub bio_read : S → ℕ → BioRead × S

-- `tls_hs_state_t`
pub data HsState : Type 0 where
  hs_notused hs_pending hs_done hs_error : HsState

abbrev pub is_done : HsState → Bool
is_done hs_done = true
is_done _ = false

-- How the loop of reading ends; `read_starved` is the end of its fuel.
pub data ReadEnd : Type 0 where
  drained notified full no_room read_broken read_starved : ReadEnd

abbrev pub Reading : Type 0 → Type 0
Reading S = ReadEnd × S × Bytes

-- one answer, for a buffer of this capacity
unfoldable pub read_step :
    {S : Type 0} → ℕ → (S → Bytes → Reading S) → Bytes → SslRead × S → Reading S
read_step capacity again buf (want_read, s) = (drained, s, buf)
read_step capacity again buf (zero_return, s) = (notified, s, buf)
read_step capacity again buf (read_error, s) = (read_broken, s, buf)
read_step capacity again buf (read_bytes x b, s) =
    if length (buf ++ x ∷ b) == capacity then (full, s, buf ++ x ∷ b) else again s (buf ++ x ∷ b)

-- The loop of tls_process_rx_data and of tls_read_decrypted. Every answer with bytes fills the buffer
-- by one at least, so its free bytes and one more are fuel enough.
unfoldable pub read_loop : {S : Type 0} → Ssl S → ℕ → ℕ → S → Bytes → Reading S
unfolding read_step
read_loop ssl capacity zero s buf = (read_starved, s, buf)
read_loop ssl capacity (suc fuel) s buf =
    if leb capacity (length buf)
    then (no_room, s, buf)
    else read_step capacity (read_loop ssl capacity fuel) buf
        (ssl.ssl_read s (capacity - length buf))

abbrev pub read_fuel : ℕ → Bytes → ℕ
read_fuel capacity buf = capacity - length buf + 1

-- what tls_read_decrypted gives for the end of its loop: the number of bytes read, or a code
abbrev pub total_or_code : Bytes → ReadEnd → Bytes → ℤ
total_or_code old no_room new = neg 4
total_or_code old read_broken new = neg 5
total_or_code old _ new = pos (length new - length old)

abbrev pub is_notified : ReadEnd → Bool
is_notified notified = true
is_notified _ = false

-- `tls_read_decrypted` on an object that is there: the result, the flag `close_notify`, the object and
-- the buffer
unfoldable pub tls_read_decrypted :
    {S : Type 0} → Ssl S → ℕ → HsState → Bool → S → Bytes → ℤ × Bool × S × Bytes
unfolding read_loop
tls_read_decrypted ssl capacity hs close_notify s buf =
    let (end, t, new) = read_loop ssl capacity (read_fuel capacity buf) s buf in
    if is_done hs
    then (total_or_code buf end new, close_notify || is_notified end, t, new)
    else (pos 0, close_notify, s, buf)

abbrev pub action_of : ReadEnd → Action
action_of no_room = ca_close
action_of read_broken = ca_close
action_of _ = ca_ok

-- The last part of `tls_process_rx_data`, once the handshake is complete.
unfoldable pub process_decrypted :
    {S : Type 0} → Ssl S → ℕ → Bool → S → Bytes → Action × Bool × S × Bytes
unfolding read_loop
process_decrypted ssl capacity close_notify s buf =
    let (end, t, new) = read_loop ssl capacity (read_fuel capacity buf) s buf in
    (action_of end, close_notify || is_notified end, t, new)

-- How the loop of tls_encrypt ends; `write_starved` is the end of its fuel.
pub data WriteEnd : Type 0 where
  all_written write_starved : WriteEnd
  write_failed : ℤ → WriteEnd

-- with the pieces that SSL_write has taken
abbrev pub Writing : Type 0 → Type 0
Writing S = WriteEnd × S × List Bytes

abbrev pub with_piece : {S : Type 0} → Bytes → Writing S → Writing S
with_piece b (end, s, pieces) = (end, s, b ∷ pieces)

-- one answer of SSL_write
unfoldable pub write_step : {S : Type 0} → (S → Bytes → Writing S) → Bytes → ℤ × S → Writing S
write_step again data_left (negsuc n, s) = (write_failed (neg 4), s, [])
write_step again data_left (pos zero, s) = (write_failed (neg 6), s, [])
write_step again data_left (pos (suc n), s) =
    with_piece (take (suc n) data_left) (again s (drop (suc n) data_left))

-- The loop of `tls_encrypt`: at most 16 KiB at a time. Each answer takes one byte at least, so the
-- bytes and one more are fuel enough.
unfoldable pub write_loop : {S : Type 0} → Ssl S → ℕ → S → Bytes → Writing S
unfolding write_step
write_loop ssl zero s data_left = (write_starved, s, [])
write_loop ssl (suc fuel) s data_left =
    if length data_left == 0
    then (all_written, s, [])
    else write_step (write_loop ssl fuel) data_left (ssl.ssl_write s (take 16384 data_left))

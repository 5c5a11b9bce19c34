-- ===== src/Tls/Session.antt =====
-- fastwsgi/tls.c: one connection through its handshake, its reading and its writing. OpenSSL, malloc and
-- uv_write are parameters. The connection is one that tls_client_init prepared: its object is there.
use fastpysgi.Base.{
  ℕ, zero, suc, ◌+◌, ◌-◌, Bool, not, ◌||◌, List, [], ◌∷◌, ◌++◌, leb, ◌==◌, if◌then◌else◌, length, ℤ,
  neg, pos_part, pos, negsuc, Bytes,
}
use fastpysgi.Tls.{
  Shake, BioRead, Ssl, HsState, shake_done, shake_want_read, shake_failed, bio_bytes, bio_retry,
  bio_eof, bio_failed, hs_pending, hs_done, hs_error,
}

-- The rest of the world at the state of an SSL object: whether xbuf_expand by some bytes at some size,
-- xbuf_resize, and malloc have memory, and whether uv_write takes a packet.
pub record Sys (S : Type 0) : Type 0 where
  pub expand : S → ℕ → ℕ → Bool
  pub resize : S → ℕ → Bool
  pub alloc : S → ℕ → Bool
  pub uv_write : S → Bytes → Bool

-- `tls_client_t`
pub record Tls (S : Type 0) : Type 0 where
  pub ssl_obj : S
  pub hs_state : HsState
  pub close_notify : Bool
  pub enc_out : Bytes

-- a connection: its TLS part, `rx.buf`, the packets given to libuv, and `g_srv.num_writes`
pub record Conn (S : Type 0) : Type 0 where
  pub tls : Tls S
  pub buf : Bytes
  pub sent : List Bytes
  pub num_writes : ℕ

-- How the loop of bio_drain_to_xbuf ends; `drain_starved` is the end of its fuel.
pub data DrainEnd : Type 0 where
  emptied drain_starved : DrainEnd
  drain_failed : ℤ → DrainEnd

abbrev pub Draining : Type 0 → Type 0
Draining S = DrainEnd × S × Bytes

-- INT_MAX / 2
abbrev pub half_int : ℕ
half_int = 1073741823

-- one answer of BIO_read
unfoldable pub drain_step :
    {S : Type 0} → (S → Bytes → Draining S) → Bytes → BioRead × S → Draining S
drain_step again out (bio_bytes x b, s) = again s (out ++ x ∷ b)
drain_step again out (bio_retry, s) = (emptied, s, out)
drain_step again out (bio_eof, s) = (emptied, s, out)
drain_step again out (bio_failed, s) = (drain_failed (neg 9), s, out)

abbrev pub too_big : ℕ → ℕ → Bool
too_big size out_size = leb half_int size || leb half_int (out_size + size)

-- the bytes asked of BIO_read
abbrev pub asked : ℕ → ℕ
asked size = if size == 0 then 1 else size

-- one round, for the answer of BIO_pending
unfoldable pub drain_round :
    {S : Type 0} → Ssl S → Sys S → (S → Bytes → Draining S) → S → Bytes → ℤ → Draining S
unfolding drain_step
drain_round ssl sys again s out (negsuc n) = (drain_failed (neg 2), s, out)
drain_round ssl sys again s out (pos size) =
    if too_big size (length out)
    then (drain_failed (neg 3), s, out)
    else if not (sys.expand s (length out) (size + 1))
    then (drain_failed (neg 4), s, out)
    else drain_step again out (ssl.bio_read s (asked size))

-- The loop of `bio_drain_to_xbuf`. Every answer with bytes grows the buffer, which ends below INT_MAX.
unfoldable pub drain_loop : {S : Type 0} → Ssl S → Sys S → ℕ → S → Bytes → Draining S
unfolding drain_round
drain_loop ssl sys zero s out = (drain_starved, s, out)
drain_loop ssl sys (suc fuel) s out =
    drain_round ssl sys (drain_loop ssl sys fuel) s out (ssl.bio_pending s)

abbrev pub drain_fuel : Bytes → ℕ
drain_fuel out = half_int - length out + 2

-- the number of bytes that the buffer got, or a code
abbrev pub drained_or_code : Bytes → DrainEnd → Bytes → ℤ
drained_or_code old (drain_failed e) new = e
drained_or_code old _ new = pos (length new - length old)

-- `bio_drain_to_xbuf`: the result, the object and the buffer
unfoldable pub bio_drain_to_xbuf : {S : Type 0} → Ssl S → Sys S → S → Bytes → ℤ × S × Bytes
unfolding drain_loop
bio_drain_to_xbuf ssl sys s out =
    let (end, t, new) = drain_loop ssl sys (drain_fuel out) s out in
    (drained_or_code out end new, t, new)

-- `tls_has_encrypted_output`
abbrev pub tls_has_encrypted_output : {S : Type 0} → Ssl S → Tls S → ℕ
tls_has_encrypted_output ssl tls = pos_part (ssl.bio_pending tls.ssl_obj)

-- what the buffer of encrypted bytes holds before a chunk
abbrev pub kept_out : ℕ → Bytes → Bytes
kept_out zero out = []
kept_out (suc n) out = out

-- `tls_drain_to_enc_out`
unfoldable pub tls_drain_to_enc_out : {S : Type 0} → Ssl S → Sys S → ℕ → Tls S → ℤ × Tls S
unfolding bio_drain_to_xbuf
tls_drain_to_enc_out ssl sys chunk_idx tls =
    let (size, t, new) = bio_drain_to_xbuf ssl sys tls.ssl_obj (kept_out chunk_idx tls.enc_out) in
    (size, record tls { ssl_obj = t; enc_out = new })

-- the state that an answer of SSL_do_handshake sets
abbrev pub shaken : Shake → HsState
shaken shake_done = hs_done
shaken shake_want_read = hs_pending
shaken shake_failed = hs_error

abbrev pub with_shake : {S : Type 0} → Tls S → Shake × S → Tls S
with_shake tls (a, s) = record tls { ssl_obj = s; hs_state = shaken a }

unfoldable pub shake_from : {S : Type 0} → Ssl S → Tls S → HsState → Tls S
shake_from ssl tls hs_error = tls
shake_from ssl tls hs_done = tls
shake_from ssl tls _ = with_shake tls (ssl.do_handshake tls.ssl_obj)

-- `tls_do_handshake`; what it returns is the new `hs_state`
abbrev pub tls_do_handshake : {S : Type 0} → Ssl S → Tls S → Tls S
tls_do_handshake ssl tls = shake_from ssl tls tls.hs_state

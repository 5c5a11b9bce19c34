-- ===== src/Tls/Flow.antt =====
-- fastwsgi/tls.c: what the server does with a connection: the bytes that arrive (tls_process_rx_data)
-- and those that it sends (tls_data_encode, tls_flush_enc_out, tls_write_cb).
use fastpysgi.Base.{
  ℕ, ◌+◌, ◌-◌, not, List, [], ◌∷◌, ◌++◌, ltb, ◌==◌, if◌then◌else◌, length, ℤ, neg, is_neg, is_zero,
  is_pos, int_eq, llong_min, pos, Bytes,
}
use fastpysgi.Client.{Action, ca_close, ca_shutdown}
use fastpysgi.Tls.{
  Ssl, HsState, is_done, process_decrypted, WriteEnd, write_loop, hs_done, hs_error, all_written,
  write_starved, write_failed,
}
use fastpysgi.Tls.Session.{
  Sys, Tls, Conn, tls_has_encrypted_output, tls_drain_to_enc_out, shake_from, tls_do_handshake,
}

-- what `tls_encrypt` does after its loop; the end of the fuel has a code that nothing else has
unfoldable pub encrypted : {S : Type 0} → Ssl S → Sys S → ℕ → Tls S → WriteEnd → S → ℤ × Tls S
unfolding tls_drain_to_enc_out
encrypted ssl sys chunk_idx tls all_written s =
    tls_drain_to_enc_out ssl sys chunk_idx (record tls { ssl_obj = s })
encrypted ssl sys chunk_idx tls (write_failed e) s = (e, record tls { ssl_obj = s })
encrypted ssl sys chunk_idx tls write_starved s = (llong_min, record tls { ssl_obj = s })

-- `tls_encrypt`
unfoldable pub tls_encrypt : {S : Type 0} → Ssl S → Sys S → ℕ → Bytes → Tls S → ℤ × Tls S
unfolding encrypted write_loop
tls_encrypt ssl sys chunk_idx bytes tls =
    if length bytes == 0
    then (pos 0, tls)
    else if not (is_done tls.hs_state)
    then (neg 1, tls)
    else let (end, s, _) = write_loop ssl (length bytes + 1) tls.ssl_obj bytes in
      encrypted ssl sys chunk_idx tls end s

-- the test of what tls_encrypt returned
unfoldable pub encode_next : {S : Type 0} → (ℕ → Tls S → ℤ × Tls S) → ℕ → ℤ × Tls S → ℤ × Tls S
encode_next again chunk_idx (rc, tls) =
    if is_neg rc then (neg 10, tls) else again (chunk_idx + 1) tls

-- The loop of `tls_data_encode`; the index is that of the next chunk that is not empty.
unfoldable pub encode_bufs : {S : Type 0} → Ssl S → Sys S → List Bytes → ℕ → Tls S → ℤ × Tls S
unfolding encode_next tls_encrypt
encode_bufs ssl sys [] chunk_idx tls = (pos (length tls.enc_out), tls)
encode_bufs ssl sys (b ∷ bufs) chunk_idx tls =
    let rest = encode_bufs ssl sys bufs chunk_idx tls in
    if length b == 0
    then rest
    else encode_next (encode_bufs ssl sys bufs) chunk_idx (tls_encrypt ssl sys chunk_idx b tls)

-- `tls_data_encode` on an array that is there: the size of the encrypted bytes, or a code
unfoldable pub tls_data_encode : {S : Type 0} → Ssl S → Sys S → List Bytes → ℕ → Tls S → ℤ × Tls S
unfolding encode_bufs
tls_data_encode ssl sys [] total_len tls = (neg 2, tls)
tls_data_encode ssl sys (b ∷ bufs) total_len tls =
    if length b == 0
    then (neg 4, tls)
    else if not (sys.resize tls.ssl_obj (total_len + 512))
    then (neg 5, record tls { enc_out = [] })
    else encode_bufs ssl sys (b ∷ bufs) 0 (record tls { enc_out = [] })

-- `tls_flush_enc_out`
unfoldable pub tls_flush_enc_out : {S : Type 0} → Sys S → Conn S → ℤ × Conn S
tls_flush_enc_out sys c =
    if length c.tls.enc_out == 0
    then (pos 0, c)
    else if not (sys.alloc c.tls.ssl_obj (length c.tls.enc_out))
    then (neg 1, c)
    else if sys.uv_write c.tls.ssl_obj c.tls.enc_out
    then (
      pos 0,
      record c {
        tls = record (c.tls) { enc_out = [] };
        sent = c.sent ++ c.tls.enc_out ∷ [];
        num_writes = c.num_writes + 1;
      },
    )
    else (neg 1, record c { tls = record (c.tls) { enc_out = [] } })

-- what `tls_write_cb` does with the connection
pub data WriteDone : Type 0 where
  read_start close_conn : WriteDone

unfoldable pub tls_write_cb : {S : Type 0} → ℤ → Conn S → WriteDone × Conn S
tls_write_cb status c =
    (if is_zero status then read_start else close_conn, record c { num_writes = c.num_writes - 1 })

-- what `tls_process_rx_data` returns: an action, or 100 + TLS_HS_PENDING
pub data Verdict : Type 0 where
  act : Action → Verdict
  hs_waits : Verdict

-- the reading, once the handshake is complete
unfoldable pub decrypt : {S : Type 0} → Ssl S → ℕ → Conn S → Verdict × Conn S
unfolding process_decrypted
decrypt ssl capacity c =
    let (a, n, s, buf) = process_decrypted ssl capacity c.tls.close_notify c.tls.ssl_obj c.buf in
    (act a, record c { tls = record (c.tls) { ssl_obj = s; close_notify = n }; buf = buf })

-- after the answer of the handshake is on its way
unfoldable pub after_state : {S : Type 0} → Ssl S → ℕ → Conn S → HsState → Verdict × Conn S
unfolding decrypt
after_state ssl capacity c hs_error = (act ca_close, c)
after_state ssl capacity c hs_done = decrypt ssl capacity c
after_state ssl capacity c _ = (hs_waits, c)

abbrev pub after_hs : {S : Type 0} → Ssl S → ℕ → Conn S → Verdict × Conn S
after_hs ssl capacity c = after_state ssl capacity c c.tls.hs_state

unfoldable pub flushed : {S : Type 0} → Ssl S → ℕ → ℤ × Conn S → Verdict × Conn S
unfolding after_state
flushed ssl capacity (rc, c) = if is_neg rc then (act ca_shutdown, c) else after_hs ssl capacity c

unfoldable pub hs_output : {S : Type 0} → Ssl S → Sys S → ℕ → Conn S → ℤ × Tls S → Verdict × Conn S
unfolding flushed tls_flush_enc_out
hs_output ssl sys capacity c (size, t) =
    if not (is_pos size)
    then (act ca_shutdown, record c { tls = t })
    else flushed ssl capacity (tls_flush_enc_out sys (record c { tls = t }))

-- after one step of the handshake
unfoldable pub reply_hs : {S : Type 0} → Ssl S → Sys S → ℕ → Conn S → Verdict × Conn S
unfolding hs_output after_state
reply_hs ssl sys capacity c =
    if ltb 0 (tls_has_encrypted_output ssl c.tls)
    then hs_output ssl sys capacity c (tls_drain_to_enc_out ssl sys 0 c.tls)
    else after_hs ssl capacity c

unfoldable pub fed : {S : Type 0} → Ssl S → Sys S → ℕ → ℕ → Conn S → ℤ × S → Verdict × Conn S
unfolding decrypt reply_hs shake_from
fed ssl sys capacity size c (rc, s) =
    let c' : Conn _ = record c { tls = record (c.tls) { ssl_obj = s } } in
    if not (int_eq rc (pos size))
    then (act ca_shutdown, c')
    else if is_done c.tls.hs_state
    then decrypt ssl capacity c'
    else reply_hs ssl sys capacity (record c' { tls = tls_do_handshake ssl c'.tls })

-- `tls_process_rx_data`, for the bytes of `rx.rawbuf` and the capacity of `rx.buf`
unfoldable pub tls_process_rx_data :
    {S : Type 0} → Ssl S → Sys S → ℕ → Bytes → Conn S → Verdict × Conn S
unfolding fed
tls_process_rx_data ssl sys capacity raw c =
    if c.tls.close_notify
    then (act ca_close, c)
    else if length raw == 0
    then (act ca_shutdown, c)
    else fed ssl sys capacity (length raw) c (ssl.bio_write c.tls.ssl_obj raw)

-- `tls_feed_encrypted`, which nothing calls
unfoldable pub tls_feed_encrypted : {S : Type 0} → Ssl S → Bytes → S → ℤ × S
tls_feed_encrypted ssl raw s =
    if length raw == 0
    then (pos 0, s)
    else let (rc, t) = ssl.bio_write s raw in
      if is_neg rc then (rc, t) else if int_eq rc (pos (length raw)) then (pos 0, t) else (neg 9, t)

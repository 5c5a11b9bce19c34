-- ===== src/Tls/Reading.antt =====
-- The part of read_cb (fastwsgi/server.c) that takes the bytes of a TLS connection in.
use fastpysgi.Base.{
  ℕ, ◌≤◌, ◌<◌, ◌≡◌, refl, ap, ◌∙◌, Bool, true, false, not, [], arith, ltb, ◌==◌, if◌then◌else◌,
  branch, length, Bytes,
}
use fastpysgi.Client.{Action, ca_ok, ca_close, ca_shutdown}
use fastpysgi.Tls.{Ssl, HsState, is_done, hs_notused, hs_pending, hs_done, hs_error}
use fastpysgi.Tls.Loops.{ReadsWithin}
use fastpysgi.Tls.Session.{Sys, Conn}
use fastpysgi.Tls.Flow.{Verdict, tls_process_rx_data, act, hs_waits}
use fastpysgi.Tls.Moves.{Sealed}
use fastpysgi.Tls.Sealed.{tls_process_rx_data-Sealed}

-- what read_cb goes on with: the parser, more reading from the socket, or the end of the connection
pub data TlsRead : Type 0 where
  parse_bytes wait_more : TlsRead
  finish_with : Action → TlsRead

abbrev pub is_ok : Action → Bool
is_ok ca_ok = true
is_ok _ = false

-- after tls_process_rx_data
unfoldable pub after_process : {S : Type 0} → Verdict × Conn S → TlsRead × Conn S
after_process (hs_waits, c) = (wait_more, record c { buf = [] })
after_process (act a, c) =
    if c.tls.close_notify
    then (finish_with ca_close, c)
    else if not (is_ok a)
    then (finish_with a, c)
    else if length c.buf == 0
    then (wait_more, c)
    else (parse_bytes, c)

-- for the bytes that libuv read, into a buffer of this capacity and size; `is_freezed` is RXS_FREEZED
unfoldable pub read_tls :
    {S : Type 0} → Ssl S → Sys S → ℕ → ℕ → Bool → Bytes → Conn S → TlsRead × Conn S
unfolding after_process tls_process_rx_data
read_tls ssl sys capacity read_buffer_size is_freezed raw c =
    if ltb read_buffer_size (length raw)
    then (finish_with ca_shutdown, c)
    else if is_freezed
    then (finish_with ca_shutdown, c)
    else after_process (tls_process_rx_data ssl sys capacity raw (record c { buf = [] }))

-- What the parser gets is safe to parse.
pub record Safe {S : Type 0} (capacity : ℕ) (c : Conn S) : Type 0 where
  pub complete : is_done c.tls.hs_state ≡ true
  pub open_end : c.tls.close_notify ≡ false
  pub some_bytes : 0 < length c.buf
  pub within : length c.buf ≤ capacity

abbrev pub SafeIf : {S : Type 0} → ℕ → TlsRead × Conn S → Type 0
SafeIf capacity (parse_bytes, c) = Safe capacity c
SafeIf capacity (wait_more, c) = Unit {0}
SafeIf capacity (finish_with a, c) = Unit {0}

done_if :
    (h : HsState) (buf : Bytes) → (is_done h ≡ false → buf ≡ []) → 0 < length buf → is_done h ≡ true
done_if hs_done buf e n = refl
done_if hs_notused buf e n = absurd (omega (arith, ap length (e refl)))
done_if hs_pending buf e n = absurd (omega (arith, ap length (e refl)))
done_if hs_error buf e n = absurd (omega (arith, ap length (e refl)))

module _ {S : Type 0} (capacity : ℕ) where
  after_process-SafeIf :
      (c : Conn S) (r : Verdict × Conn S)
      → c.buf ≡ []
      → Sealed capacity c r
      → SafeIf capacity (after_process r)
  unfolding after_process
  after_process-SafeIf c (hs_waits, d) e s = tt
  after_process-SafeIf c (act a, d) e s =
      let P = λ (r : TlsRead × Conn S). SafeIf capacity r in
      branch P (d.tls.close_notify) (λ h. tt)
        λ h.
          branch P (not (is_ok a)) (λ k. tt)
            λ k.
              branch P (length d.buf == 0) (λ l. tt)
                λ l.
                  let n : 0 < length d.buf = ground (arith, l) in
                  record {
                    complete = done_if d.tls.hs_state d.buf (λ m. s.untouched m ∙ e) n;
                    open_end = h;
                    some_bytes = n;
                    within = s.within;
                  }

  -- OpenSSL that gives no more bytes than are asked for: bytes of a TLS connection come to the parser
  -- only after its handshake is complete and while no close_notify was received; they are one at least
  -- and fit the buffer.
  pub read_tls-SafeIf :
      (ssl : Ssl S) (sys : Sys S) (read_buffer_size : ℕ) (is_freezed : Bool) (raw : Bytes)
      (c : Conn S)
      → ReadsWithin ssl
      → SafeIf capacity (read_tls ssl sys capacity read_buffer_size is_freezed raw c)
  unfolding read_tls
  read_tls-SafeIf ssl sys size is_freezed raw c reads =
      let P = λ (r : TlsRead × Conn S). SafeIf capacity r in
      branch P (ltb size (length raw)) (λ h. tt)
        λ h.
          branch P is_freezed (λ k. tt)
            λ k.
              after_process-SafeIf (record c { buf = [] })
                (tls_process_rx_data ssl sys capacity raw (record c { buf = [] })) refl
                (tls_process_rx_data-Sealed capacity ssl reads sys raw (record c { buf = [] })
                  (omega arith))

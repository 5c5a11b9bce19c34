-- ===== src/Tls/Sealed.antt =====
-- tls_process_rx_data (fastwsgi/tls.c) hands the parser no byte before the handshake is complete.
use mathlib.Core.Bool.{false≢true}
use fastpysgi.Base.{
  ℕ, ◌+◌, ◌≤◌, ◌≡◌, refl, sym, ap, ◌∙◌, subst, true, not, [], ◌∷◌, ◌++◌, append-nil, arith, ltb,
  ◌==◌, branch, length, length-append, ℤ, is_neg, is_pos, int_eq, pos, Bytes,
}
use fastpysgi.Tls.Loops.{ReadsWithin, read_loop-Filled}
use fastpysgi.Client.{Action, ca_ok, ca_close, ca_shutdown}
use fastpysgi.Tls.{Ssl, HsState, is_done, read_fuel, hs_notused, hs_pending, hs_done, hs_error}
use fastpysgi.Tls.Session.{
  Sys, Tls, Conn, tls_has_encrypted_output, tls_drain_to_enc_out, shaken, with_shake, shake_from,
  tls_do_handshake,
}
use fastpysgi.Tls.Flow.{
  tls_flush_enc_out, decrypt, after_state, flushed, hs_output, reply_hs, fed, tls_process_rx_data,
  act,
}
use fastpysgi.Tls.Moves.{hs_may, Sealed, may_self, may_shake, quiet, then_step, stays, waits}

module _ {S : Type 0} (capacity : ℕ) where
  module _ (ssl : Ssl S) (reads : ReadsWithin ssl) where
    decrypt-Sealed :
        (c : Conn S)
        → is_done c.tls.hs_state ≡ true
        → length c.buf ≤ capacity
        → Sealed capacity c (decrypt ssl capacity c)
    unfolding decrypt
    decrypt-Sealed c h i =
        let f =
          read_loop-Filled ssl capacity (read_fuel capacity c.buf) c.tls.ssl_obj c.buf reads i
            (omega arith) in
        record {
          moved = may_self c.tls.hs_state;
          untouched = λ k. absurd (false≢true (sym k ∙ h));
          more = f.more;
          appended = f.appended;
          within = f.within;
          remembered = λ k. rw k refl;
          counted = refl;
          waiting = λ k. absurd (false≢true k);
        }

    after_state-Sealed :
        (c : Conn S) (h : HsState)
        → c.tls.hs_state ≡ h
        → length c.buf ≤ capacity
        → Sealed capacity c (after_state ssl capacity c h)
    unfolding after_state
    after_state-Sealed c hs_error e i = stays capacity c ca_close i
    after_state-Sealed c hs_done e i = decrypt-Sealed c (ap is_done e) i
    after_state-Sealed c hs_pending e i = waits capacity c (ap is_done e) i
    after_state-Sealed c hs_notused e i = waits capacity c (ap is_done e) i

    flush-Sealed :
        (sys : Sys S) (c : Conn S)
        → length c.buf ≤ capacity
        → Sealed capacity c (act ca_ok, (tls_flush_enc_out sys c).1)
    unfolding tls_flush_enc_out
    flush-Sealed sys c i =
        let P = λ (r : ℤ × Conn S). Sealed capacity c (act ca_ok, r.1) in
        branch P (length c.tls.enc_out == 0) (λ h. stays capacity c ca_ok i)
          λ h.
            branch P (not (sys.alloc c.tls.ssl_obj (length c.tls.enc_out)))
              (λ h. stays capacity c ca_ok i)
              λ h.
                branch P (sys.uv_write c.tls.ssl_obj c.tls.enc_out) (λ h. handed)
                  λ h.
                    quiet capacity (act ca_ok) c (record (c.tls) { enc_out = [] })
                      (may_self c.tls.hs_state) refl (λ k. absurd (false≢true k)) i
      where
        handed : Sealed capacity c (
          act ca_ok,
          record c {
            tls = record (c.tls) { enc_out = [] };
            sent = c.sent ++ c.tls.enc_out ∷ [];
            num_writes = c.num_writes + 1;
          },
        )
        handed = record {
          moved = may_self c.tls.hs_state;
          untouched = λ k. refl;
          more = [];
          appended = sym (append-nil c.buf);
          within = i;
          remembered = λ k. k;
          counted = omega (arith, length-append c.sent (c.tls.enc_out ∷ []));
          waiting = λ k. absurd (false≢true k);
        }

    flushed-Sealed :
        (r : ℤ × Conn S) → length r.1.buf ≤ capacity → Sealed capacity r.1 (flushed ssl capacity r)
    unfolding flushed
    flushed-Sealed (rc, c) i =
        branch (Sealed capacity c) (is_neg rc) (λ h. stays capacity c ca_shutdown i)
          (λ h. after_state-Sealed c c.tls.hs_state refl i)

    -- the bytes that the handshake wants sent, drained to `t`
    hs_output-Sealed :
        (sys : Sys S) (c : Conn S) (r : ℤ × Tls S)
        → r.1.hs_state ≡ c.tls.hs_state
        → r.1.close_notify ≡ c.tls.close_notify
        → length c.buf ≤ capacity
        → Sealed capacity c (hs_output ssl sys capacity c r)
    unfolding hs_output
    hs_output-Sealed sys c (size, t) e n i =
        let same : hs_may c.tls.hs_state t.hs_state ≡ true =
          subst (λ h. hs_may c.tls.hs_state h ≡ true) (sym e) (may_self c.tls.hs_state) in
        let put =
          λ (a : Action). quiet capacity (act a) c t same n (λ k. absurd (false≢true k)) i in
        let d : Conn S = record c { tls = t } in
        let f = flush-Sealed sys d i in
        branch (Sealed capacity c) (not (is_pos size)) (λ h. put ca_shutdown)
          λ h.
            then_step capacity (put ca_ok)
              (then_step capacity f (flushed-Sealed (tls_flush_enc_out sys d) f.within))

    reply_hs-Sealed :
        (sys : Sys S) (c : Conn S)
        → length c.buf ≤ capacity
        → Sealed capacity c (reply_hs ssl sys capacity c)
    unfolding reply_hs tls_drain_to_enc_out
    reply_hs-Sealed sys c i =
        branch (Sealed capacity c) (ltb 0 (tls_has_encrypted_output ssl c.tls))
          (λ h. hs_output-Sealed sys c (tls_drain_to_enc_out ssl sys 0 c.tls) refl refl i)
          (λ h. after_state-Sealed c c.tls.hs_state refl i)

    shaken-Sealed :
        (c : Conn S) (h : HsState)
        → c.tls.hs_state ≡ h
        → length c.buf ≤ capacity
        → Sealed capacity c (act ca_ok, record c { tls = shake_from ssl c.tls h })
    unfolding shake_from
    shaken-Sealed c hs_error e i = stays capacity c ca_ok i
    shaken-Sealed c hs_done e i = stays capacity c ca_ok i
    shaken-Sealed c hs_pending e i =
        let a = ssl.do_handshake c.tls.ssl_obj in
        quiet capacity (act ca_ok) c (with_shake c.tls a)
          (subst (λ h. hs_may h (shaken a.0) ≡ true) (sym e) (may_shake a.0)) refl
          (λ k. absurd (false≢true k)) i
    shaken-Sealed c hs_notused e i =
        let a = ssl.do_handshake c.tls.ssl_obj in
        quiet capacity (act ca_ok) c (with_shake c.tls a)
          (subst (λ h. hs_may h (shaken a.0) ≡ true) (sym e) refl) refl (λ k. absurd (false≢true k))
          i

    fed-Sealed :
        (sys : Sys S) (size : ℕ) (c : Conn S) (r : ℤ × S)
        → length c.buf ≤ capacity
        → Sealed capacity c (fed ssl sys capacity size c r)
    unfolding fed
    fed-Sealed sys size c (rc, s) i =
        let d : Conn S = record c { tls = record (c.tls) { ssl_obj = s } } in
        let put = λ (a : Action).
          quiet capacity (act a) c d.tls (may_self c.tls.hs_state) refl (λ k. absurd (false≢true k))
            i in
        branch (Sealed capacity c) (not (int_eq rc (pos size))) (λ h. put ca_shutdown)
          λ h.
            branch (Sealed capacity c) (is_done c.tls.hs_state)
              (λ h. then_step capacity (put ca_ok) (decrypt-Sealed d h i))
              λ h. then_step capacity (put ca_ok) (
                then_step capacity (shaken-Sealed d d.tls.hs_state refl i)
                  (reply_hs-Sealed sys (record d { tls = tls_do_handshake ssl d.tls }) i))

    -- OpenSSL that gives no more bytes than are asked for: whatever arrives and however OpenSSL and
    -- libuv answer, the bytes for the parser change only if the handshake is complete in the end; then
    -- new ones stand behind the old ones, within the capacity. The handshake is never taken back, a
    -- close_notify is never forgotten, each packet given to libuv is one more write in flight, and more
    -- data is awaited only while the handshake is not complete.
    pub tls_process_rx_data-Sealed :
        (sys : Sys S) (raw : Bytes) (c : Conn S)
        → length c.buf ≤ capacity
        → Sealed capacity c (tls_process_rx_data ssl sys capacity raw c)
    unfolding tls_process_rx_data
    tls_process_rx_data-Sealed sys raw c i =
        branch (Sealed capacity c) (c.tls.close_notify) (λ h. stays capacity c ca_close i)
          λ h.
            branch (Sealed capacity c) (length raw == 0) (λ h. stays capacity c ca_shutdown i)
              λ h. fed-Sealed sys (length raw) c (ssl.bio_write c.tls.ssl_obj raw) i

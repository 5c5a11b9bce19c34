-- ===== src/Tls/Moves.antt =====
-- What a step of tls_process_rx_data (fastwsgi/tls.c) may do to a connection, and two steps in a row.
use mathlib.Core.Bool.{false≢true}
use fastpysgi.Base.{
  ℕ, ◌+◌, ◌≤◌, ◌≡◌, refl, sym, ap, ◌∙◌, Bool, true, false, [], ◌++◌, append-nil, append_assoc,
  arith, length, Bytes,
}
use fastpysgi.Client.{Action}
use fastpysgi.Tls.{
  Shake, HsState, is_done, shake_done, shake_want_read, shake_failed, hs_notused, hs_pending,
  hs_done, hs_error,
}
use fastpysgi.Tls.Session.{Tls, Conn, shaken}
use fastpysgi.Tls.Flow.{Verdict, act, hs_waits}

-- A handshake that is complete stays so, one that failed stays failed, and none is taken back.
abbrev pub hs_may : HsState → HsState → Bool
hs_may hs_notused b = true
hs_may hs_pending hs_notused = false
hs_may hs_pending b = true
hs_may hs_done b = is_done b
hs_may hs_error hs_error = true
hs_may hs_error b = false

abbrev pub is_waiting : Verdict → Bool
is_waiting hs_waits = true
is_waiting (act a) = false

-- What a step did to a connection. The buffer changes only if the handshake is complete in the end;
-- then it has new bytes behind the old ones, within its capacity. A close_notify is not forgotten,
-- the writes in flight are counted, and more data is awaited only before the handshake is complete.
pub record Sealed {S : Type 0} (capacity : ℕ) (c : Conn S) (r : Verdict × Conn S) : Type 0 where
  pub moved : hs_may c.tls.hs_state r.1.tls.hs_state ≡ true
  pub untouched : is_done r.1.tls.hs_state ≡ false → r.1.buf ≡ c.buf
  pub more : Bytes
  pub appended : r.1.buf ≡ c.buf ++ more
  pub within : length r.1.buf ≤ capacity
  pub remembered : c.tls.close_notify ≡ true → r.1.tls.close_notify ≡ true
  pub counted : r.1.num_writes + length c.sent ≡ c.num_writes + length r.1.sent
  pub waiting : is_waiting r.0 ≡ true → is_done r.1.tls.hs_state ≡ false

pub may_self : (a : HsState) → hs_may a a ≡ true
may_self hs_notused = refl
may_self hs_pending = refl
may_self hs_done = refl
may_self hs_error = refl

pub may_trans : (a b c : HsState) → hs_may a b ≡ true → hs_may b c ≡ true → hs_may a c ≡ true
may_trans hs_notused b c h k = refl
may_trans hs_pending hs_notused c h k = absurd (false≢true h)
may_trans hs_pending hs_pending c h k = k
may_trans hs_pending hs_done hs_done h k = refl
may_trans hs_pending hs_done hs_notused h k = k
may_trans hs_pending hs_done hs_pending h k = absurd (false≢true k)
may_trans hs_pending hs_done hs_error h k = refl
may_trans hs_pending hs_error hs_error h k = refl
may_trans hs_pending hs_error hs_notused h k = k
may_trans hs_pending hs_error hs_pending h k = refl
may_trans hs_pending hs_error hs_done h k = refl
may_trans hs_done b c h k = ground arith
may_trans hs_error b c h k = ground arith

-- no handshake that is not complete in the end was complete before
pub not_before : (a b : HsState) → hs_may a b ≡ true → is_done b ≡ false → is_done a ≡ false
not_before a b h k = ground arith

pub may_shake : (b : Shake) → hs_may hs_pending (shaken b) ≡ true
may_shake shake_done = refl
may_shake shake_want_read = refl
may_shake shake_failed = refl

module _ {S : Type 0} (capacity : ℕ) where
  -- a step that leaves the buffer and the writes alone
  pub quiet :
      (v : Verdict) (c : Conn S) (t : Tls S)
      → hs_may c.tls.hs_state t.hs_state ≡ true
      → t.close_notify ≡ c.tls.close_notify
      → (is_waiting v ≡ true → is_done t.hs_state ≡ false)
      → length c.buf ≤ capacity
      → Sealed capacity c (v, record c { tls = t })
  quiet v c t h n w i = record {
    moved = h;
    untouched = λ k. refl;
    more = [];
    appended = sym (append-nil c.buf);
    within = i;
    remembered = λ k. n ∙ k;
    counted = refl;
    waiting = w;
  }

  pub then_step :
      {c : Conn S} {v : Verdict} {d : Conn S} {r : Verdict × Conn S}
      → Sealed capacity c (v, d)
      → Sealed capacity d r
      → Sealed capacity c r
  then_step {c} {v} {d} {r} a b = record {
    moved = may_trans c.tls.hs_state d.tls.hs_state r.1.tls.hs_state a.moved b.moved;
    untouched =
        λ k. b.untouched k ∙ a.untouched (not_before d.tls.hs_state r.1.tls.hs_state b.moved k);
    more = a.more ++ b.more;
    appended = b.appended ∙ ap (λ t. t ++ b.more) a.appended ∙ append_assoc c.buf a.more b.more;
    within = b.within;
    remembered = λ k. b.remembered (a.remembered k);
    counted = omega (arith, a.counted, b.counted);
    waiting = b.waiting;
  }

  pub stays : (c : Conn S) (a : Action) → length c.buf ≤ capacity → Sealed capacity c (act a, c)
  stays c a i = quiet (act a) c c.tls (may_self c.tls.hs_state) refl (λ h. absurd (false≢true h)) i

  pub waits :
      (c : Conn S)
      → is_done c.tls.hs_state ≡ false
      → length c.buf ≤ capacity
      → Sealed capacity c (hs_waits, c)
  waits c h i = quiet hs_waits c c.tls (may_self c.tls.hs_state) refl (λ k. h) i

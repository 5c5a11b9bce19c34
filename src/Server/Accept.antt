-- ===== src/Server/Accept.antt =====
-- The beginning and the end of a connection in fastwsgi/server.c: connection_cb and close_cb. libuv and
-- OpenSSL answer as a parameter; `calloc` gives a block.
use mathlib.Core.Bool.{false≢true}
use fastpysgi.Base.{
  ℕ, ◌+◌, ◌*◌, ◌≤◌, ◌≡◌, refl, sym, ap, ◌∙◌, Bool, true, false, not, Option, none, some, arith,
  if◌then◌else◌, branch, ℤ, is_neg, is_zero,
}
use fastpysgi.Client.{ClientState, accept, req_read, destroy}
use fastpysgi.Tls.{hs_pending}
use fastpysgi.Tls.Clients.{
  Answers, Live, ClientTls, zeroed, tls_client_free, tls_client_init, Owned, tls_client_init-Owned,
}

-- the status of the callback, the results of uv_accept and of uv_read_start (UV_EALREADY is no error), and
-- the answers for tls_client_init
pub record AcceptAnswers : Type 0 where
  pub status : ℤ
  pub accept_rc : ℤ
  pub read_ok : Bool
  pub tls : Answers

-- A new connection: the bytes behind its struct, its state, its TLS part with what is alive, whether it
-- reads or is being closed, and its clocks.
pub record Begun : Type 0 where
  pub aux_size : ℕ
  pub state : ClientState
  pub tls : ClientTls
  pub live : Live
  pub reading_on : Bool
  pub closing : Bool
  pub start_time : ℕ
  pub update_time : ℕ

-- `client_aux_size`: one buffer for reading, and with TLS another for the raw bytes
abbrev pub client_aux_size : ℕ → Bool → ℕ
client_aux_size read_buffer_size tls_enabled =
    if tls_enabled then (read_buffer_size + 8) * 2 else read_buffer_size + 8

-- SET_CSTATE(CS_DESTROY) and uv_close
abbrev pub close_begun : Begun → Begun
close_begun b = record b { state = destroy; closing = true }

-- the clocks and stream_read_start
unfoldable pub start_begun : Bool → ℕ → Begun → Begun
start_begun read_ok now b =
    let timed : Begun = record b { start_time = now; update_time = now } in
    if read_ok then record timed { state = req_read; reading_on = true } else close_begun timed

-- for the result of tls_client_init
unfoldable pub tls_begun : Bool → ℕ → Begun → ℤ × ClientTls × Live → Begun
unfolding start_begun
tls_begun read_ok now b (rc, t, l) =
    let b' : Begun = record b { tls = t; live = l } in
    if not (is_zero rc) then close_begun b' else start_begun read_ok now b'

-- `connection_cb`, on a server with TLS or without; `none` is no connection
unfoldable pub connection_cb : AcceptAnswers → ℕ → ℕ → Bool → Live → Option Begun
unfolding tls_begun start_begun
connection_cb a now read_buffer_size tls_enabled l =
    let b : Begun = record {
      aux_size = client_aux_size read_buffer_size tls_enabled;
      state = accept;
      tls = record zeroed { enabled = tls_enabled };
      live = l;
      reading_on = false;
      closing = false;
      start_time = 0;
      update_time = 0;
    } in
    if is_neg a.status
    then none
    else if not (is_zero a.accept_rc)
    then some (close_begun b)
    else if not tls_enabled
    then some (start_begun a.read_ok now b)
    else some (tls_begun a.read_ok now b (tls_client_init a.tls tls_enabled l))

-- the part of `close_cb` that frees what TLS holds
unfoldable pub close_cb : Begun → Live
close_cb b = (tls_client_free b.tls b.live).1

-- What connection_cb made: a connection that reads, its clocks set, with TLS waiting for the handshake
-- if the server has TLS; or one that is being closed. Its buffers fit the bytes behind its struct, and
-- close_cb frees what TLS made.
pub record Begins (now read_buffer_size : ℕ) (tls_enabled : Bool) (l : Live) (b : Begun)
    : Type 0 where
  pub either_way : b.reading_on ≡ not b.closing
  pub clocks : b.reading_on ≡ true → (b.start_time ≡ now) × (b.update_time ≡ now)
  pub secured : b.reading_on ≡ true → b.tls.enabled ≡ tls_enabled
  pub waits : b.reading_on ≡ true → tls_enabled ≡ true → b.tls.hs_state ≡ hs_pending
  pub room : read_buffer_size + 3 ≤ b.aux_size
  pub raw_room : tls_enabled ≡ true → (read_buffer_size + 8) + (read_buffer_size + 3) ≤ b.aux_size
  pub freed : close_cb b ≡ l

abbrev pub BeginsIf : ℕ → ℕ → Bool → Live → Option Begun → Type 0
BeginsIf now size tls_enabled l none = Unit {0}
BeginsIf now size tls_enabled l (some b) = Begins now size tls_enabled l b

enough : (size : ℕ) (t : Bool) → size + 3 ≤ client_aux_size size t
enough size true = omega arith
enough size false = omega arith

enough_raw : (size : ℕ) (t : Bool) → t ≡ true → (size + 8) + (size + 3) ≤ client_aux_size size t
enough_raw size true h = omega arith
enough_raw size false h = absurd (false≢true h)

nothing_freed : (l : Live) (t : Bool) → (tls_client_free (record zeroed { enabled = t }) l).1 ≡ l
unfolding tls_client_free
nothing_freed l t = ground arith

-- a connection that is being closed and does not read
closing-Begins :
    (now size : ℕ) (t : Bool) (l : Live) (b : Begun)
    → size + 3 ≤ b.aux_size
    → (t ≡ true → (size + 8) + (size + 3) ≤ b.aux_size)
    → b.reading_on ≡ false
    → b.closing ≡ true
    → close_cb b ≡ l
    → Begins now size t l b
closing-Begins now size t l b lo hi ro cl f = record {
  either_way = ro ∙ sym (ap not cl);
  clocks = λ k. absurd (false≢true (sym ro ∙ k));
  secured = λ k. absurd (false≢true (sym ro ∙ k));
  waits = λ k. absurd (false≢true (sym ro ∙ k));
  room = lo;
  raw_room = hi;
  freed = f;
}

start_begun-Begins :
    (ok : Bool) (now size : ℕ) (t : Bool) (l : Live) (b : Begun)
    → size + 3 ≤ b.aux_size
    → (t ≡ true → (size + 8) + (size + 3) ≤ b.aux_size)
    → b.reading_on ≡ false
    → b.closing ≡ false
    → b.tls.enabled ≡ t
    → (t ≡ true → b.tls.hs_state ≡ hs_pending)
    → close_cb b ≡ l
    → Begins now size t l (start_begun ok now b)
unfolding start_begun close_cb
start_begun-Begins true now size t l b lo hi ro cl e w f = record {
  either_way = sym (ap not cl);
  clocks = λ k. (refl, refl);
  secured = λ k. e;
  waits = λ k. w;
  room = lo;
  raw_room = hi;
  freed = f;
}
start_begun-Begins false now size t l b lo hi ro cl e w f =
    closing-Begins now size t l (close_begun (record b { start_time = now; update_time = now })) lo
      hi ro refl f

tls_begun-Begins :
    (ok : Bool) (now size : ℕ) (e : Bool) (b : Begun) (l : Live) (r : ℤ × ClientTls × Live)
    → e ≡ true
    → size + 3 ≤ b.aux_size
    → (e ≡ true → (size + 8) + (size + 3) ≤ b.aux_size)
    → b.reading_on ≡ false
    → b.closing ≡ false
    → Owned l r
    → Begins now size e l (tls_begun ok now b r)
unfolding tls_begun close_cb
tls_begun-Begins ok now size e b l (rc, t, m) y lo hi ro cl o =
    let b' : Begun = record b { tls = t; live = m } in
    branch (Begins now size e l) (not (is_zero rc))
      (λ h. closing-Begins now size e l (close_begun b') lo hi ro refl o.freed)
      (λ h.
        let z : is_zero rc ≡ true = ground (arith, h) in
        start_begun-Begins ok now size e l b' lo hi ro cl (sym o.coded ∙ z ∙ sym y)
          (λ j. (o.made z).0) o.freed)

-- Whatever libuv and OpenSSL answer: a connection that connection_cb makes reads, with its clocks set
-- and, on a server with TLS, with its own TLS part that waits for the handshake, or it is being closed.
-- Its one or two read buffers fit the bytes behind its struct, and close_cb leaves no object of TLS.
pub connection_cb-Begins :
    (a : AcceptAnswers) (now read_buffer_size : ℕ) (tls_enabled : Bool) (l : Live)
    → BeginsIf now read_buffer_size tls_enabled l
        (connection_cb a now read_buffer_size tls_enabled l)
unfolding connection_cb close_cb
connection_cb-Begins a now size t l =
    let P = BeginsIf now size t l in
    let b : Begun = record {
      aux_size = client_aux_size size t;
      state = accept;
      tls = record zeroed { enabled = t };
      live = l;
      reading_on = false;
      closing = false;
      start_time = 0;
      update_time = 0;
    } in
    branch P (is_neg a.status) (λ h. tt)
      λ h.
        branch P (not (is_zero a.accept_rc))
          (λ k.
            closing-Begins now size t l (close_begun b) (enough size t) (enough_raw size t) refl
              refl (nothing_freed l t))
          λ k.
            branch P (not t)
              (λ j.
                start_begun-Begins a.read_ok now size t l b (enough size t) (enough_raw size t) refl
                  refl refl (λ i. absurd (false≢true (sym (ap not i) ∙ j))) (nothing_freed l t))
              (λ j.
                tls_begun-Begins a.read_ok now size t b l (tls_client_init a.tls t l)
                  (ground (arith, j)) (enough size t) (enough_raw size t) refl refl
                  (tls_client_init-Owned a.tls t l))

-- ===== src/Process/Start.antt =====
-- What init_srv (fastwsgi/server.c) promises.
use mathlib.Core.Bool.{false≢true}
use fastpysgi.Base.{
  ℕ, zero, suc, ◌+◌, ◌≤◌, ◌<◌, ◌≡◌, refl, sym, ap, ◌∙◌, inl, inr, Bool, true, false, not, ◌&&◌,
  ◌||◌, List, [], ◌∷◌, ◌++◌, arith, ◌==◌, if◌then◌else◌, Bool-cases, branch, ℤ, neg, is_neg,
  is_zero, is_pos, int_lt, pos, negsuc,
}
use fastpysgi.Process.{
  Op, Proc, InitAnswers, bind_servers, listen_servers, close_servers, op_if, InitResult,
  init_failed, init_done, init_bind, init_srv, tcp_bind, tcp_listen, server_close, signal_start,
  signal_stop, timer_start, loop_close, free_aio, free_tls,
}

abbrev pub is_tcp_bind : ℕ → Op → Bool
is_tcp_bind j (tcp_bind i) = i == j
is_tcp_bind j _ = false

abbrev pub is_tcp_listen : ℕ → Op → Bool
is_tcp_listen j (tcp_listen i) = i == j
is_tcp_listen j _ = false

abbrev pub is_server_close : Op → Bool
is_server_close (server_close i) = true
is_server_close _ = false

abbrev pub is_loop_close : Op → Bool
is_loop_close loop_close = true
is_loop_close _ = false

-- some operation of the list is such
unfoldable pub any_op : (Op → Bool) → List Op → Bool
any_op f [] = false
any_op f (op ∷ ops) = f op || any_op f ops

pub any_op-append :
    (f : Op → Bool) (xs ys : List Op) → any_op f (xs ++ ys) ≡ (any_op f xs || any_op f ys)
unfolding any_op
any_op-append f [] ys = refl
any_op-append f (op ∷ xs) ys = ground (arith, any_op-append f xs ys)

bind_servers-all :
    (binds : ℕ → Bool) (idx n j : ℕ)
    → idx ≤ j
    → j < idx + n
    → (bind_servers binds idx n).0 ≡ true
    → (binds j ≡ true) × (any_op (is_tcp_bind j) (bind_servers binds idx n).1 ≡ true)
unfolding bind_servers any_op
bind_servers-all binds idx zero j h k e = absurd (omega arith)
bind_servers-all binds idx (suc n) j h k e = elim (Bool-cases (binds idx)) [
  | inr fails ↦ absurd (false≢true (rw fails at e))
  | inl does ↦ elim (Bool-cases (idx == j)) [
    | inl y ↦ (ap binds (ground (arith, y)) ∙ does, rw (does, y) refl)
    | inr m ↦
        let rest =
          bind_servers-all binds (idx + 1) n j (ground arith) (omega arith) (rw does at e) in
        (rest.0, rw (does, m) rest.1)
  ]
]

listen_servers-all :
    (listens : ℕ → Bool) (idx n j : ℕ)
    → idx ≤ j
    → j < idx + n
    → (listen_servers listens idx n).0 ≡ true
    → (listens j ≡ true) × (any_op (is_tcp_listen j) (listen_servers listens idx n).1 ≡ true)
unfolding listen_servers any_op
listen_servers-all listens idx zero j h k e = absurd (omega arith)
listen_servers-all listens idx (suc n) j h k e = elim (Bool-cases (listens idx)) [
  | inr fails ↦ absurd (false≢true (rw fails at e))
  | inl does ↦ elim (Bool-cases (idx == j)) [
    | inl y ↦ (ap listens (ground (arith, y)) ∙ does, rw (does, y) refl)
    | inr m ↦
        let rest =
          listen_servers-all listens (idx + 1) n j (ground arith) (omega arith) (rw does at e) in
        (rest.0, rw (does, m) rest.1)
  ]
]

-- A server was asked to bind and to listen, and did.
pub record Opened (a : InitAnswers) (ops : List Op) (j : ℕ) : Type 0 where
  pub bound : a.binds j ≡ true
  pub listening : a.listens j ≡ true
  pub asked_bind : any_op (is_tcp_bind j) ops ≡ true
  pub asked_listen : any_op (is_tcp_listen j) ops ≡ true

-- What init_srv did for so many servers: with 0 every one of them is bound and listens, and the server
-- is initialised; with a code that is not 0 it is not, and the loop of libuv is closed.
pub record InitEnd (a : InitAnswers) (n : ℕ) (r : InitResult) : Type 0 where
  pub coded : is_zero r.0 ≡ r.2.inited
  pub opened : is_zero r.0 ≡ true → (j : ℕ) → j < n → Opened a r.1 j
  pub closed : is_zero r.0 ≡ false → any_op is_loop_close r.1 ≡ true

has_loop_close : (xs ys : List Op) → any_op is_loop_close (xs ++ loop_close ∷ ys) ≡ true
unfolding any_op
has_loop_close [] ys = refl
has_loop_close (op ∷ xs) ys = ground (arith, has_loop_close xs ys)

init_failed-InitEnd :
    (a : InitAnswers) (n : ℕ) (hr : ℤ) (ops : List Op) (p : Proc)
    → is_zero hr ≡ false
    → p.inited ≡ false
    → InitEnd a n (init_failed hr ops p)
unfolding init_failed
init_failed-InitEnd a n hr ops p z i = record {
  coded = z ∙ sym i;
  opened = λ h. absurd (false≢true (sym z ∙ h));
  closed = λ h.
      any_op-append is_loop_close (before ++ loop_close ∷ op_if p.aio free_aio) (free_tls ∷ [])
      ∙ ap (λ b. b || any_op is_loop_close (free_tls ∷ []))
          (has_loop_close before (op_if p.aio free_aio));
}
  where
    before : List Op
    before =
        ops
        ++ op_if p.signal signal_stop
        ++ (if not (int_lt (neg 9) hr) && not (int_lt hr (neg 90))
            then close_servers 0 p.servers_num
            else [])

any_op-left : (f : Op → Bool) (xs ys : List Op) → any_op f xs ≡ true → any_op f (xs ++ ys) ≡ true
any_op-left f xs ys h = any_op-append f xs ys ∙ ap (λ b. b || any_op f ys) h

any_op-middle :
    (f : Op → Bool) (xs ys zs : List Op) → any_op f ys ≡ true → any_op f ((xs ++ ys) ++ zs) ≡ true
any_op-middle f xs ys zs h = any_op-left f (xs ++ ys) zs (any_op-append f xs ys ∙ ground (arith, h))

-- every server is bound and listens
init_done-InitEnd :
    (a : InitAnswers) (p : Proc)
    → (bind_servers a.binds 0 p.servers_num).0 ≡ true
    → (listen_servers a.listens 0 p.servers_num).0 ≡ true
    → InitEnd a p.servers_num (
        init_done
          ((bind_servers a.binds 0 p.servers_num).1 ++ (listen_servers a.listens 0 p.servers_num).1)
          p)
unfolding init_done
init_done-InitEnd a p h k =
    let n = p.servers_num in
    let bound = (bind_servers a.binds 0 n).1 in
    let listening = (listen_servers a.listens 0 n).1 in
    let hooked = op_if (is_pos p.hook_sigint) signal_start in
    record {
      coded = refl;
      opened = λ l j less.
          let b = bind_servers-all a.binds 0 n j (omega arith) (omega (arith, less)) h in
          let s = listen_servers-all a.listens 0 n j (omega arith) (omega (arith, less)) k in
          record {
            bound = b.0;
            listening = s.0;
            asked_bind =
                any_op-left (is_tcp_bind j) (bound ++ listening ++ hooked) (timer_start ∷ []) (
                  any_op-left (is_tcp_bind j) (bound ++ listening) hooked
                    (any_op-left (is_tcp_bind j) bound listening b.1));
            asked_listen =
                any_op-left (is_tcp_listen j) (bound ++ listening ++ hooked) (timer_start ∷ [])
                  (any_op-middle (is_tcp_listen j) bound listening hooked s.1);
          };
      closed = λ l. absurd (false≢true (sym l));
    }

init_bind-InitEnd :
    (a : InitAnswers) (p : Proc) → p.inited ≡ false → InitEnd a p.servers_num (init_bind a p)
unfolding init_bind
init_bind-InitEnd a p i =
    let n = p.servers_num in
    let bound = (bind_servers a.binds 0 n).1 in
    let listening = (listen_servers a.listens 0 n).1 in
    branch (InitEnd a n) ((bind_servers a.binds 0 n).0)
      (λ h.
        branch (InitEnd a n) ((listen_servers a.listens 0 n).0) (init_done-InitEnd a p h)
          (λ k. init_failed-InitEnd a n (neg 10) (bound ++ listening) p refl i))
      (λ h. init_failed-InitEnd a n (neg 9) bound p refl i)

-- Whatever libuv, OpenSSL and asyncio answer: init_srv on a server that is not initialised returns 0
-- exactly if it is initialised afterwards, and then every server is bound and listens; otherwise the
-- loop of libuv is closed.
pub init_srv-InitEnd :
    (a : InitAnswers) (p : Proc) → p.inited ≡ false → InitEnd a p.servers_num (init_srv a p)
unfolding init_srv
init_srv-InitEnd a p i =
    let P = InitEnd a p.servers_num in
    branch P (p.inited) (λ h. absurd (false≢true (sym i ∙ h)))
      λ h.
        branch P (is_neg a.tls_num)
          (λ k. init_failed-InitEnd a p.servers_num a.tls_num [] p (neg_not_zero a.tls_num k) i)
          λ k.
            branch P (not p.asgi) (λ l. init_bind-InitEnd a p i)
              λ l.
                branch P (not (is_zero a.asyncio))
                  (λ m.
                    init_failed-InitEnd a p.servers_num a.asyncio [] p
                      (not_true (is_zero a.asyncio) m) i)
                  (λ m. init_bind-InitEnd a (record p { aio = true }) i)
  where
    neg_not_zero : (v : ℤ) → is_neg v ≡ true → is_zero v ≡ false
    neg_not_zero (pos n) h = absurd (false≢true h)
    neg_not_zero (negsuc n) h = refl

    not_true : (b : Bool) → not b ≡ true → b ≡ false
    not_true true h = absurd (false≢true h)
    not_true false h = refl

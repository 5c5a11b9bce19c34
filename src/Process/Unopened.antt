-- ===== src/Process/Unopened.antt =====
-- A failed bind in init_srv (fastwsgi/server.c) closes handles that were never initialised.
use mathlib.Core.Bool.{false≢true}
use fastpysgi.Base.{
  ℕ, zero, suc, ◌+◌, ◌≤◌, ◌<◌, ◌≡◌, refl, sym, ap, ◌∙◌, inl, inr, Bool, true, false, not, List,
  arith, ◌==◌, Bool-cases, branch, neg, is_neg, is_zero,
}
use fastpysgi.Process.{
  Op, Proc, InitAnswers, bind_servers, close_servers, op_if, InitResult, init_failed, init_bind,
  init_srv, tcp_init, server_close, signal_stop, free_aio,
}
use fastpysgi.Process.Start.{any_op, any_op-append}

abbrev pub is_tcp_init : ℕ → Op → Bool
is_tcp_init j (tcp_init i) = i == j
is_tcp_init j _ = false

abbrev pub closes : ℕ → Op → Bool
closes j (server_close i) = i == j
closes j _ = false

-- the servers `idx` to `idx + n - 1` are closed
closes_all : (idx n j : ℕ) → idx ≤ j → j < idx + n → any_op (closes j) (close_servers idx n) ≡ true
unfolding any_op close_servers
closes_all idx zero j h k = absurd (omega arith)
closes_all idx (suc n) j h k = elim (Bool-cases (idx == j)) [
  | inl y ↦ rw y refl
  | inr m ↦ rw m (closes_all (idx + 1) n j (ground arith) (omega arith))
]

no_init_in_close : (idx n j : ℕ) → any_op (is_tcp_init j) (close_servers idx n) ≡ false
unfolding any_op close_servers
no_init_in_close idx zero j = refl
no_init_in_close idx (suc n) j = no_init_in_close (idx + 1) n j

-- the binding stops at the first failure
stops_at :
    (binds : ℕ → Bool) (idx n k j : ℕ)
    → binds k ≡ false
    → idx ≤ k
    → k < idx + n
    → k < j
    → ((bind_servers binds idx n).0 ≡ false)
      × (any_op (is_tcp_init j) (bind_servers binds idx n).1 ≡ false)
unfolding bind_servers any_op
stops_at binds idx zero k j f lo hi h = absurd (omega arith)
stops_at binds idx (suc n) k j f lo hi h = elim (Bool-cases (binds idx)) [
  | inr fails ↦ rw fails (refl, ground arith)
  | inl does ↦ elim (Bool-cases (idx == k)) [
    | inl y ↦ absurd (false≢true (sym f ∙ ap binds (sym (ground (arith, y))) ∙ does))
    | inr m ↦
        let (failed, none_later) =
          stops_at binds (idx + 1) n k j f (ground arith) (omega arith) h in
        rw does (failed, ground (arith, none_later))
  ]
]

none_in_if : (f : Op → Bool) (b : Bool) (op : Op) → f op ≡ false → any_op f (op_if b op) ≡ false
unfolding any_op
none_in_if f true op h = ground (arith, h)
none_in_if f false op h = refl

closes_failed :
    (ops : List Op) (p : Proc) (j : ℕ)
    → j < p.servers_num
    → any_op (closes j) (init_failed (neg 9) ops p).1 ≡ true
unfolding init_failed any_op
closes_failed ops p j h = simp any_op-append (ground (arith, closes_all 0 p.servers_num j))

never_opened :
    (ops : List Op) (p : Proc) (j : ℕ)
    → any_op (is_tcp_init j) ops ≡ false
    → any_op (is_tcp_init j) (init_failed (neg 9) ops p).1 ≡ false
unfolding init_failed any_op
never_opened ops p j n = simp any_op-append (
    ground (
      arith,
      n,
      no_init_in_close 0 p.servers_num j,
      none_in_if (is_tcp_init j) p.signal signal_stop,
      none_in_if (is_tcp_init j) p.aio free_aio,
    ))

-- init_srv failed to bind server `k`: it closes every server, and those behind `k` were not initialised
pub record BindRefused (n k : ℕ) (r : InitResult) : Type 0 where
  pub code : r.0 ≡ neg 9
  pub all_closed : (j : ℕ) → j < n → any_op (closes j) r.1 ≡ true
  pub never_init : (j : ℕ) → k < j → any_op (is_tcp_init j) r.1 ≡ false

init_bind-BindRefused :
    (a : InitAnswers) (p : Proc) (k : ℕ)
    → a.binds k ≡ false
    → k < p.servers_num
    → BindRefused p.servers_num k (init_bind a p)
unfolding init_bind
init_bind-BindRefused a p k f h =
    let failed =
      (stops_at a.binds 0 p.servers_num k (k + 1) f (omega arith) (omega arith) (omega arith)).0 in
    let ops = (bind_servers a.binds 0 p.servers_num).1 in
    branch (BindRefused p.servers_num k) ((bind_servers a.binds 0 p.servers_num).0)
      (λ y. absurd (false≢true (sym failed ∙ y)))
      λ _. record {
        code = refl;
        all_closed = closes_failed ops p;
        never_init = λ j less.
            never_opened ops p j
              (stops_at a.binds 0 p.servers_num k j f (omega arith) (omega arith) less).1;
      }

-- A server that cannot be bound, with TLS set up and asyncio too if the application is ASGI: init_srv
-- returns -9 and asks libuv to close every server, also those behind the failing one, whose handles
-- were never initialised.
pub unopened_closed :
    (a : InitAnswers) (p : Proc) (k : ℕ)
    → p.inited ≡ false
    → is_neg a.tls_num ≡ false
    → is_zero a.asyncio ≡ true
    → a.binds k ≡ false
    → k < p.servers_num
    → BindRefused p.servers_num k (init_srv a p)
unfolding init_srv
unopened_closed a p k i t z f h =
    let P = BindRefused p.servers_num k in
    branch P (p.inited) (λ y. absurd (false≢true (sym i ∙ y)))
      λ _.
        branch P (is_neg a.tls_num) (λ y. absurd (false≢true (sym t ∙ y)))
          λ _.
            branch P (not p.asgi) (λ _. init_bind-BindRefused a p k f h)
              λ _.
                branch P (not (is_zero a.asyncio)) (λ y. absurd (false≢true (sym (ap not z) ∙ y)))
                  (λ _. init_bind-BindRefused a (record p { aio = true }) k f h)

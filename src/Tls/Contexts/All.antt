-- ===== src/Tls/Contexts/All.antt =====
-- tls_server_init_all (fastwsgi/tls.c) makes the contexts of all servers, or leaves none.
use mathlib.Core.Bool.{false≢true}
use fastpysgi.Base.{
  ℕ, ◌+◌, ◌-◌, ◌<◌, ◌≡◌, refl, sym, ap, ap₂, ◌∙◌, subst, Bool, true, false, ◌&&◌, Option, List, [],
  ◌∷◌, arith, if◌then◌else◌, branch, ℤ, is_neg, int_eq, pos, negsuc,
}
use fastpysgi.Common.Attributes.{ListAttr}
use fastpysgi.Tls.Library.{Os, Lib, ssl_lib_free}
use fastpysgi.Tls.Contexts.{
  CtxAnswers, ServerTls, Glob, free_one, tls_server_init, Inits, count_server, keep_server,
  init_next, init_servers, free_servers, init_fin, tls_server_init_all,
}
use fastpysgi.Tls.Contexts.Balance.{
  one_if, contexts, with_tls, IsReady, OneInit, IsBlank, tls_server_init-OneInit,
}

abbrev pub AllBlank : List ServerTls → Type 0
AllBlank [] = Unit {0}
AllBlank (s ∷ servers) = IsBlank s × AllBlank servers

-- a server has a context exactly if its TLS is on
abbrev pub AllSame : List ServerTls → Type 0
AllSame [] = Unit {0}
AllSame (s ∷ servers) = (s.enabled ≡ s.ctx) × AllSame servers

-- neither TLS nor a context
abbrev pub AllOff : List ServerTls → Type 0
AllOff [] = Unit {0}
AllOff (s ∷ servers) = (s.enabled ≡ false) × (s.ctx ≡ false) × AllOff servers

blank_same : (servers : List ServerTls) → AllBlank servers → AllSame servers
blank_same [] b = tt
blank_same (s ∷ servers) (b, bs) = (b.0 ∙ sym b.1, blank_same servers bs)

-- what the loop over the servers did
pub record LoopInit (os : Os) (live : ℕ) (r : Inits) : Type 0 where
  pub ready : IsReady os r.1
  pub balance : r.1.live ≡ live + contexts r.2
  pub coded : is_neg r.0 ≡ false → r.0 ≡ pos (with_tls r.2)
  pub same : with_tls r.2 ≡ contexts r.2
  pub each : AllSame r.2

blank_sums :
    (servers : List ServerTls) → AllBlank servers → (with_tls servers ≡ 0) × (contexts servers ≡ 0)
unfolding contexts with_tls
blank_sums [] b = (refl, refl)
blank_sums (s ∷ servers) (b, bs) =
    let rest = blank_sums servers bs in (rw (b.0, rest.0) refl, rw (b.1, rest.1) refl)

count_server-one : (b : Bool) (n : ℕ) → count_server (pos (one_if b)) (pos n) ≡ pos (one_if b + n)
count_server-one true n = ap pos (omega arith)
count_server-one false n = ap pos (omega arith)

neg_total : (hr total : ℤ) → is_neg (count_server hr total) ≡ is_neg total
neg_total hr (pos n) = branch (λ r. is_neg r ≡ false) (int_eq hr (pos 1)) (λ h. refl) (λ h. refl)
neg_total hr (negsuc n) = refl

keep_server-LoopInit :
    (os : Os) (live : ℕ) (hr : ℤ) (g : Glob) (s : ServerTls) (r : Inits)
    → OneInit os live (hr, g, s)
    → is_neg hr ≡ false
    → LoopInit os g.live r
    → LoopInit os live (keep_server hr s r)
unfolding contexts with_tls
keep_server-LoopInit os live hr g s (total, h, servers) o n l = record {
  ready = l.ready;
  balance = l.balance ∙ omega (arith, o.balance);
  coded = λ k.
      ap₂ count_server (o.coded n) (l.coded (sym (neg_total hr total) ∙ k))
      ∙ count_server-one s.enabled (with_tls servers);
  same = ap₂ (λ a b. one_if a + b) o.same l.same;
  each = (o.same, l.each);
}

init_servers-LoopInit :
    (a : CtxAnswers) (tls_list : Option ListAttr) (idx : ℕ) (servers : List ServerTls) (g : Glob)
    → IsReady a.os g
    → AllBlank servers
    → LoopInit a.os g.live (init_servers a tls_list idx servers g)
unfolding init_servers contexts with_tls
init_servers-LoopInit a tls_list idx [] g r b = record {
  ready = r;
  balance = omega arith;
  coded = λ h. refl;
  same = refl;
  each = tt;
}
init_servers-LoopInit a tls_list idx (s ∷ servers) g r (b, bs) =
    let o = tls_server_init-OneInit a tls_list idx g s r b in
    by_result (tls_server_init a tls_list idx g s) o
      (λ h ready. init_servers-LoopInit a tls_list (idx + 1) servers h ready bs)
  where
    sums : (with_tls servers ≡ 0) × (contexts servers ≡ 0)
    sums = blank_sums servers bs

    by_result :
        (t : ℤ × Glob × ServerTls)
        → OneInit a.os g.live t
        → ((h : Glob)
            → IsReady a.os h
            → LoopInit a.os h.live (init_servers a tls_list (idx + 1) servers h))
        → LoopInit a.os g.live (init_next (init_servers a tls_list (idx + 1) servers) servers t)
    by_result (hr, h, t) o later =
        branch (LoopInit a.os g.live) (is_neg hr)
          (λ k. record {
            ready = o.ready;
            balance = o.balance ∙ omega (arith, sums.1);
            coded = λ i. absurd (false≢true (sym i ∙ k));
            same = ap₂ (λ a b. one_if a + b) o.same (sums.0 ∙ sym sums.1);
            each = (o.same, blank_same servers bs);
          })
          (λ k.
            keep_server-LoopInit a.os g.live hr h t (init_servers a tls_list (idx + 1) servers h) o
              k (later h o.ready))

-- what tls_server_free left of these servers
pub record Freed (lib : Lib) (live : ℕ) (r : Glob × List ServerTls) : Type 0 where
  pub kept : r.0.lib ≡ lib
  pub less : r.0.live ≡ live
  pub off : AllOff r.1

free_one-less :
    (g : Glob) (s : ServerTls) (n : ℕ)
    → (0 < g.live → g.lib.loaded ≡ true)
    → g.live ≡ n + one_if s.ctx
    → ((free_one g s).0.live ≡ n) × ((free_one g s).0.lib ≡ g.lib)
unfolding free_one
free_one-less g s n r e = by_ctx g.lib.loaded s.ctx refl e
  where
    by_ctx :
        (l c : Bool)
        → g.lib.loaded ≡ l
        → g.live ≡ n + one_if c
        → let h : Glob = (if l && c then record g { live = g.live - 1 } else g) in
          (h.live ≡ n) × (h.lib ≡ g.lib)
    by_ctx true true k i = (omega arith, refl)
    by_ctx true false k i = (omega arith, refl)
    by_ctx false true k i = absurd (false≢true (sym k ∙ r (omega arith)))
    by_ctx false false k i = (omega arith, refl)

free_servers-Freed :
    (servers : List ServerTls) (g : Glob) (n : ℕ)
    → (0 < g.live → g.lib.loaded ≡ true)
    → g.live ≡ n + contexts servers
    → Freed g.lib n (free_servers g servers)
unfolding free_servers contexts with_tls
free_servers-Freed [] g n r e = record { kept = refl; less = omega arith; off = tt }
free_servers-Freed (s ∷ servers) g n r e =
    let one = free_one-less g s (n + contexts servers) r (omega arith) in
    let rest =
      free_servers-Freed servers (free_one g s).0 n
        (λ h. ap (λ (l : Lib). l.loaded) one.1 ∙ r (omega (arith, one.0))) one.0 in
    record { kept = rest.kept ∙ one.1; less = rest.less; off = (refl, refl, rest.off) }

-- All servers have the TLS that their options ask for, or none has.
pub record AllOrNone (r : Inits) : Type 0 where
  pub served :
      is_neg r.0 ≡ false
      → (r.0 ≡ pos (with_tls r.2))
        × (r.1.live ≡ contexts r.2)
        × AllSame r.2
        × (0 < r.1.live → r.1.lib.loaded ≡ true)
  pub refused : is_neg r.0 ≡ true → AllOff r.2 × (r.1.live ≡ 0) × (r.1.lib.opened ≡ 0)

init_fin-AllOrNone : (os : Os) (r : Inits) → LoopInit os 0 r → AllOrNone (init_fin r)
unfolding init_fin ssl_lib_free
init_fin-AllOrNone os (pos n, g, servers) l = record {
  served = λ h. (l.coded refl, l.balance ∙ omega arith, l.each, l.ready.needed);
  refused = λ h. absurd (false≢true h);
}
init_fin-AllOrNone os (negsuc e, g, servers) l =
    let f = free_servers-Freed servers g 0 l.ready.needed l.balance in
    record {
      served = λ h. absurd (false≢true (sym h));
      refused = λ h. (f.off, f.less, closed f.kept);
    }
  where
    closed : {lib : Lib} → lib ≡ g.lib → (ssl_lib_free lib).opened ≡ 0
    closed k =
        subst (λ (lib : Lib). (ssl_lib_free lib).opened ≡ 0) (sym k)
          (omega (arith, l.ready.sound.counted))

-- Servers without TLS, no context, and OpenSSL sound: whatever the options and OpenSSL say,
-- tls_server_init_all returns how many servers have TLS, each server has a context exactly if it has
-- TLS, and OpenSSL is loaded if there is one; or it returns a negative code, no server has TLS, none has
-- a context, no context is alive and no library is open.
pub tls_server_init_all-AllOrNone :
    (a : CtxAnswers) (tls_list : Option ListAttr) (servers : List ServerTls) (g : Glob)
    → IsReady a.os g
    → g.live ≡ 0
    → AllBlank servers
    → AllOrNone (tls_server_init_all a tls_list servers g)
unfolding tls_server_init_all
tls_server_init_all-AllOrNone a tls_list servers g r z b =
    init_fin-AllOrNone a.os (init_servers a tls_list 0 servers g) (
      subst (λ n. LoopInit a.os n (init_servers a tls_list 0 servers g)) z
        (init_servers-LoopInit a tls_list 0 servers g r b))

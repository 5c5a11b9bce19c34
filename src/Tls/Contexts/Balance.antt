-- ===== src/Tls/Contexts/Balance.antt =====
-- tls_server_init_all (fastwsgi/tls.c) makes the contexts of all servers, or leaves none.
use mathlib.Core.Bool.{false≢true}
use fastpysgi.Base.{
  ℕ, ◌+◌, ◌-◌, ◌<◌, ◌≡◌, refl, sym, ap, ◌∙◌, subst, Bool, true, false, not, ◌&&◌, Option, none,
  some, List, [], ◌∷◌, arith, ◌==◌, if◌then◌else◌, branch, length, ℤ, neg, is_neg, is_zero, int_eq,
  int_lt, pos, negsuc, Bytes,
}
use fastpysgi.Common.Attributes.{Attr, ListAttr, get_obj_attr_list_tup}
use fastpysgi.Tls.Library.{Os, Lib, ssl_lib_init}
use fastpysgi.Tls.Library.Loading.{IsSound, Inited, negated, ssl_lib_init-Inited}
use fastpysgi.Tls.Contexts.{
  CtxAnswers, ServerTls, Glob, PathOption, Paths, with_ca, with_cert, nth_option, tuple_paths,
  list_paths, tls_paths, free_one, load_ca, fill_ctx, server_fin, enabled_by, make_ctx, init_paths,
  tls_server_init, absent, bad_type, path, no_tls, bad_paths, cert_paths,
}

abbrev pub one_if : Bool → ℕ
one_if true = 1
one_if false = 0

-- the contexts of these servers, and the servers with TLS
unfoldable pub contexts : List ServerTls → ℕ
contexts [] = 0
contexts (s ∷ servers) = one_if s.ctx + contexts servers

unfoldable pub with_tls : List ServerTls → ℕ
with_tls [] = 0
with_tls (s ∷ servers) = one_if s.enabled + with_tls servers

-- OpenSSL is sound, and loaded while there is a context.
pub record IsReady (os : Os) (g : Glob) : Type 0 where
  pub sound : IsSound os g.lib
  pub needed : 0 < g.live → g.lib.loaded ≡ true

-- what tls_server_init did to one server
pub record OneInit (os : Os) (live : ℕ) (r : ℤ × Glob × ServerTls) : Type 0 where
  pub ready : IsReady os r.1
  pub balance : r.1.live ≡ live + one_if r.2.ctx
  pub coded : is_neg r.0 ≡ false → r.0 ≡ pos (one_if r.2.enabled)
  pub same : r.2.enabled ≡ r.2.ctx

abbrev pub IsBlank : ServerTls → Type 0
IsBlank s = (s.enabled ≡ false) × (s.ctx ≡ false)

-- a code of fill_ctx
abbrev FillCode : ℤ → Type 0
FillCode (pos n) = n ≡ 1
FillCode (negsuc e) = Unit {0}

load_ca-FillCode : (a : CtxAnswers) (ca : Option Bytes) → FillCode (load_ca a ca)
unfolding load_ca
load_ca-FillCode a none = refl
load_ca-FillCode a (some ca) =
    branch FillCode (int_eq (a.load_verify_locations ca) (pos 1)) (λ h. refl) (λ h. tt)

fill_ctx-FillCode :
    (a : CtxAnswers) (cert key : Bytes) (ca : Option Bytes) → FillCode (fill_ctx a cert key ca)
unfolding fill_ctx
fill_ctx-FillCode a cert key ca =
    branch FillCode (not (int_eq (a.use_certificate_chain_file cert) (pos 1))) (λ h. tt)
      λ h.
        branch FillCode (not (int_eq (a.use_private_key_file key) (pos 1))) (λ h. tt)
          λ h.
            branch FillCode (not (int_eq (a.check_private_key cert key) (pos 1))) (λ h. tt)
              (λ h. load_ca-FillCode a ca)

-- a server whose TLS was refused before it had a context
refused-OneInit :
    (os : Os) (e : ℕ) (g : Glob) (s : ServerTls)
    → IsReady os g
    → s.ctx ≡ false
    → OneInit os g.live (server_fin (negsuc e) g s)
unfolding server_fin free_one
refused-OneInit os e g s r b = record {
  ready = subst (IsReady os) (sym same_glob) r;
  balance = ap (λ (t : Glob). t.live) same_glob ∙ ground arith;
  coded = λ h. absurd (false≢true (sym h));
  same = refl;
}
  where
    same_glob : (if g.lib.loaded && s.ctx then record g { live = g.live - 1 } else g) ≡ g
    same_glob = rw b (by_loaded g.lib.loaded)
      where
        by_loaded : (l : Bool) → (if l && false then record g { live = g.live - 1 } else g) ≡ g
        by_loaded true = refl
        by_loaded false = refl

-- a server that has a new context, with the code for it
made-OneInit :
    (os : Os) (hr : ℤ) (live : ℕ) (lib : Lib)
    → IsSound os lib
    → lib.loaded ≡ true
    → FillCode hr
    → OneInit os live (server_fin hr (record { lib = lib; live = live + 1 }) (enabled_by hr))
unfolding server_fin free_one
made-OneInit os (pos n) live lib s l c = record {
  ready = record { sound = s; needed = λ h. l };
  balance = refl;
  coded = λ h. ap pos c;
  same = refl;
}
made-OneInit os (negsuc e) live lib s l c = by_loaded lib.loaded l
  where
    g : Glob
    g = record { lib = lib; live = live + 1 }

    by_loaded :
        (b : Bool)
        → b ≡ true
        → OneInit os live (
          negsuc e,
          (if b && true then record g { live = g.live - 1 } else g),
          record { enabled = false; ctx = false },
        )
    by_loaded false h = absurd (false≢true h)
    by_loaded true h = record {
      ready = record { sound = s; needed = λ k. l };
      balance = omega arith;
      coded = λ k. absurd (false≢true (sym k));
      same = refl;
    }

-- once ssl_lib_init has returned
make_ctx-OneInit :
    (a : CtxAnswers) (live : ℕ) (cert key : Bytes) (ca : Option Bytes) (r : ℤ × Lib)
    → Inited a.os r
    → (0 < live → r.1.loaded ≡ true)
    → OneInit a.os live (make_ctx a live cert key ca r)
unfolding make_ctx
make_ctx-OneInit a live cert key ca (rc, lib) i n =
    let P = OneInit a.os live in
    let ready : IsReady a.os (record { lib = lib; live = live }) = record {
      sound = i.sound;
      needed = n;
    } in
    let refused = λ (e : ℕ).
      refused-OneInit a.os e (record { lib = lib; live = live })
        (record { enabled = false; ctx = false }) ready refl in
    branch P (not (is_zero rc)) (λ h. refused 1709)
      λ h.
        branch P (not a.ctx_new) (λ k. refused 1719)
          λ k.
            made-OneInit a.os (fill_ctx a cert key ca) live lib i.sound (sym i.coded ∙ negated h)
              (fill_ctx-FillCode a cert key ca)

-- OpenSSL that is loaded stays so.
ssl_lib_init-loaded :
    (os : Os) (lib : Lib) → lib.loaded ≡ true → (ssl_lib_init os lib).1.loaded ≡ true
unfolding ssl_lib_init
ssl_lib_init-loaded os lib h =
    branch (λ (r : ℤ × Lib). r.1.loaded ≡ true) (lib.loaded) (λ k. h)
      (λ k. absurd (false≢true (sym k ∙ h)))

-- a refusal has a negative code
abbrev pub BadIsNeg : Paths → Type 0
BadIsNeg (bad_paths e) = is_neg e ≡ true
BadIsNeg no_tls = Unit {0}
BadIsNeg (cert_paths cert key ca) = Unit {0}

tls_paths-BadIsNeg :
    (tls_list : Option ListAttr) (srv_idx : ℕ) → BadIsNeg (tls_paths tls_list srv_idx)
unfolding tls_paths
tls_paths-BadIsNeg tls_list srv_idx =
    listed (get_obj_attr_list_tup tls_list (neg 1) 0).0
      (get_obj_attr_list_tup tls_list (pos srv_idx) 3)
  where
    nonempty :
        (cert : Bytes) (p : Paths) → BadIsNeg p → BadIsNeg (if length cert == 0 then no_tls else p)
    nonempty cert p h = branch BadIsNeg (length cert == 0) (λ k. tt) (λ k. h)

    with_ca-BadIsNeg : (cert key : Bytes) (ca : PathOption) → BadIsNeg (with_ca cert key ca)
    with_ca-BadIsNeg cert key absent = nonempty cert (cert_paths cert key none) tt
    with_ca-BadIsNeg cert key bad_type = refl
    with_ca-BadIsNeg cert key (path ca) = nonempty cert (cert_paths cert key (some ca)) tt

    options : (cert key ca : PathOption) → BadIsNeg (with_cert cert key ca)
    options absent key ca = tt
    options bad_type key ca = refl
    options (path cert) absent ca = with_ca-BadIsNeg cert cert ca
    options (path cert) bad_type ca = refl
    options (path cert) (path key) ca = with_ca-BadIsNeg cert key ca

    tuple : (rc : ℤ) (xs : List (Option Attr)) → BadIsNeg (tuple_paths (rc, xs))
    tuple rc xs =
        branch BadIsNeg (int_eq rc (neg 42)) (λ h. tt)
          λ h.
            branch BadIsNeg (int_eq rc (neg 11)) (λ h. refl)
              λ h.
                branch BadIsNeg (int_lt rc (pos 1)) (λ h. refl)
                  (λ h. options (nth_option xs 0) (nth_option xs 1) (nth_option xs 2))

    listed : (rc : ℤ) (t : ℤ × List (Option Attr)) → BadIsNeg (list_paths rc t)
    listed rc (trc, xs) =
        branch BadIsNeg (int_eq rc (neg 41)) (λ h. tt)
          λ h.
            branch BadIsNeg (int_eq rc (pos 0)) (λ h. tt)
              λ h.
                branch BadIsNeg (int_eq rc (neg 1)) (λ h. refl)
                  λ h.
                    branch BadIsNeg (int_lt rc (pos 1)) (λ h. refl)
                      λ h. branch BadIsNeg (int_lt (pos 4) rc) (λ h. refl) (λ h. tuple trc xs)

init_paths-OneInit :
    (a : CtxAnswers) (g : Glob) (s : ServerTls) (p : Paths)
    → IsReady a.os g
    → IsBlank s
    → BadIsNeg p
    → OneInit a.os g.live (init_paths a g s p)
unfolding init_paths
init_paths-OneInit a g s no_tls r b n = record {
  ready = r;
  balance = rw (b.1) (omega arith);
  coded = λ h. rw (b.0) refl;
  same = b.0 ∙ sym b.1;
}
init_paths-OneInit a g s (bad_paths (pos e)) r b n = absurd (false≢true n)
init_paths-OneInit a g s (bad_paths (negsuc e)) r b n = refused-OneInit a.os e g s r b.1
init_paths-OneInit a g s (cert_paths cert key ca) r b n =
    make_ctx-OneInit a g.live cert key ca (ssl_lib_init a.os g.lib)
      (ssl_lib_init-Inited a.os g.lib r.sound) (λ h. ssl_lib_init-loaded a.os g.lib (r.needed h))

-- A server that had no TLS: afterwards it has a context exactly if it has TLS, the contexts are counted,
-- and the code is 1 exactly if it has TLS.
pub tls_server_init-OneInit :
    (a : CtxAnswers) (tls_list : Option ListAttr) (idx : ℕ) (g : Glob) (s : ServerTls)
    → IsReady a.os g
    → IsBlank s
    → OneInit a.os g.live (tls_server_init a tls_list idx g s)
unfolding tls_server_init
tls_server_init-OneInit a tls_list idx g s r b =
    init_paths-OneInit a g s (tls_paths tls_list idx) r b (tls_paths-BadIsNeg tls_list idx)

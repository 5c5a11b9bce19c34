-- ===== src/Tls/Library/Loading.antt =====
-- The loading of OpenSSL (fastwsgi/libssl.c) leaves it whole, or not at all.
use mathlib.Core.Bool.{false≢true}
use fastpysgi.Base.{
  ℕ, ◌+◌, ◌≡◌, refl, sym, ap, ◌∙◌, ◌⊎◌, inl, inr, Bool, true, false, not, none, some, List, [], ◌∷◌,
  ◌++◌, arith, ◌==◌, if◌then◌else◌, ==_iff, branch, ℤ, neg, is_neg, is_zero, int_eq, pos, negsuc,
  Bytes, codes,
}
use fastpysgi.Tls.Library.{
  Dl, Os, Lib, probe_one, crypto_opened, open_crypto, open_probed, lib_load_all, required,
  get_lib_sym, sym_err, held, ssl_lib_free, resolve, ssl_lib_init, dl_loaded, dl_no_file, dl_error,
  probe_none,
}

-- The two libraries are open, of one version, and every required symbol was found.
pub record Whole (os : Os) (lib : Lib) : Type 0 where
  pub ext : Bytes
  pub ssl : lib.h_ssl ≡ some (codes "libssl" ++ ext)
  pub crypto : lib.h_crypto ≡ some (codes "libcrypto" ++ ext)
  pub symbols : sym_err os lib required ≡ 0

-- OpenSSL is whole if it is loaded, and otherwise no handle is open.
pub record IsSound (os : Os) (lib : Lib) : Type 0 where
  pub counted : lib.opened ≡ held lib.h_ssl + held lib.h_crypto
  pub resting : lib.loaded ≡ false → lib.opened ≡ 0
  pub whole : lib.loaded ≡ true → Whole os lib

-- what lib_load_all leaves, with its code
pub record Loads (r : ℤ × Lib) : Type 0 where
  pub counted : r.1.opened ≡ held r.1.h_ssl + held r.1.h_crypto
  pub coded : (is_zero r.0 ≡ true) ⊎ (is_neg r.0 ≡ true)
  pub ext : Bytes
  pub ssl : is_zero r.0 ≡ true → r.1.h_ssl ≡ some (codes "libssl" ++ ext)
  pub crypto : is_zero r.0 ≡ true → r.1.h_crypto ≡ some (codes "libcrypto" ++ ext)

crypto_opened-Loads :
    (lib : Lib) (ext : Bytes) (a : Dl)
    → lib.h_ssl ≡ some (codes "libssl" ++ ext)
    → lib.h_crypto ≡ none
    → lib.opened ≡ 1
    → Loads (crypto_opened lib (codes "libcrypto" ++ ext) a)
crypto_opened-Loads lib ext dl_loaded s c o = record {
  counted = rw (s, o) refl;
  coded = inl refl;
  ext = ext;
  ssl = λ h. s;
  crypto = λ h. refl;
}
crypto_opened-Loads lib ext dl_no_file s c o = record {
  counted = rw (s, c) o;
  coded = inr refl;
  ext = ext;
  ssl = λ h. s;
  crypto = λ h. absurd (false≢true h);
}
crypto_opened-Loads lib ext dl_error s c o = record {
  counted = rw (s, c) o;
  coded = inr refl;
  ext = ext;
  ssl = λ h. s;
  crypto = λ h. absurd (false≢true h);
}

nothing_opened :
    (lib : Lib) (e : ℕ)
    → lib.opened ≡ 0
    → Loads (negsuc e, record lib { h_ssl = none; h_crypto = none })
nothing_opened lib e o = record {
  counted = o;
  coded = inr refl;
  ext = [];
  ssl = λ h. absurd (false≢true h);
  crypto = λ h. absurd (false≢true h);
}

-- the answers for the three names, in their order
lib_load_all-Loads :
    (os : Os) (lib : Lib)
    → lib.opened ≡ 0
    → Loads (lib_load_all os (record lib { h_ssl = none; h_crypto = none }))
unfolding lib_load_all open_crypto
lib_load_all-Loads os lib o =
    answered (os.dlopen (codes "libssl.so.3")) (os.dlopen (codes "libssl.so.1.1"))
      (os.dlopen (codes "libssl.so"))
  where
    found :
        (ext : Bytes)
        → Loads (
            open_crypto os
              (record lib {
                h_ssl = some (codes "libssl" ++ ext);
                h_crypto = none;
                opened = lib.opened + 1;
              })
              (some ext))
    found ext =
        crypto_opened-Loads
          (record lib {
            h_ssl = some (codes "libssl" ++ ext);
            h_crypto = none;
            opened = lib.opened + 1;
          })
          ext (os.dlopen (codes "libcrypto" ++ ext)) refl refl (omega arith)

    answered :
        (a b c : Dl)
        → Loads (
            open_probed os
              (record lib { h_ssl = none; h_crypto = none })
              (probe_one
                (probe_one (probe_one probe_none (codes "libssl.so") c) (codes "libssl.so.1.1") b)
                (codes "libssl.so.3")
                a))
    answered dl_loaded b c = found (codes ".so.3")
    answered dl_error b c = nothing_opened lib 11 o
    answered dl_no_file dl_loaded c = found (codes ".so.1.1")
    answered dl_no_file dl_error c = nothing_opened lib 11 o
    answered dl_no_file dl_no_file dl_loaded = found (codes ".so")
    answered dl_no_file dl_no_file dl_error = nothing_opened lib 11 o
    answered dl_no_file dl_no_file dl_no_file = nothing_opened lib 10 o

-- what ssl_lib_init leaves: OpenSSL is sound, and loaded exactly if the code is 0
pub record Inited (os : Os) (r : ℤ × Lib) : Type 0 where
  pub sound : IsSound os r.1
  pub coded : is_zero r.0 ≡ r.1.loaded
  pub failed : r.1.loaded ≡ false → is_neg r.0 ≡ true

freed :
    (os : Os) (lib : Lib) (e : ℤ)
    → lib.opened ≡ held lib.h_ssl + held lib.h_crypto
    → is_neg e ≡ true
    → Inited os (e, ssl_lib_free lib)
unfolding ssl_lib_free
freed os lib (pos n) c h = absurd (false≢true h)
freed os lib (negsuc n) c h = record {
  sound = record {
    counted = omega (arith, c);
    resting = λ k. omega (arith, c);
    whole = λ k. absurd (false≢true k);
  };
  coded = refl;
  failed = λ k. refl;
}

pub negated : {b : Bool} → not b ≡ false → b ≡ true
negated {b = true} h = refl
negated {b = false} h = absurd (false≢true (sym h))

sym_err-loaded :
    (os : Os) (lib : Lib) (names : List Bytes)
    → sym_err os (record lib { loaded = true }) names ≡ sym_err os lib names
unfolding sym_err
sym_err-loaded os lib [] = refl
sym_err-loaded os lib (name ∷ names) =
    ap (λ n. n + (if get_lib_sym os lib name then 0 else 1)) (sym_err-loaded os lib names)

resolve-Inited : (os : Os) (hr : ℤ) (lib : Lib) → Loads (hr, lib) → Inited os (resolve os (hr, lib))
unfolding resolve
resolve-Inited os hr lib l =
    branch (Inited os) (not (is_zero hr)) (λ h. freed os lib hr l.counted (failed_code l.coded h))
      λ h.
        branch (Inited os) (not (sym_err os lib required == 0))
          (λ k. freed os lib (neg 30) l.counted refl)
          λ k.
            branch (Inited os) (not (int_eq os.init_ssl (pos 1)))
              (λ i. freed os lib (neg 33) l.counted refl) (λ i. whole (negated h) (negated k))
  where
    failed_code :
        (is_zero hr ≡ true) ⊎ (is_neg hr ≡ true) → not (is_zero hr) ≡ true → is_neg hr ≡ true
    failed_code (inl y) h = absurd (false≢true (sym (ap not y) ∙ h))
    failed_code (inr n) h = n

    whole :
        is_zero hr ≡ true
        → (sym_err os lib required == 0) ≡ true
        → Inited os (pos 0, record lib { loaded = true })
    whole h k = record {
      sound = record {
        counted = l.counted;
        resting = λ g. absurd (false≢true (sym g));
        whole = λ g. record {
          ext = l.ext;
          ssl = l.ssl h;
          crypto = l.crypto h;
          symbols = sym_err-loaded os lib required ∙ (==_iff (sym_err os lib required) 0).0 k;
        };
      };
      coded = refl;
      failed = λ g. absurd (false≢true (sym g));
    }

-- Whatever the system answers: ssl_lib_init leaves OpenSSL whole, its two libraries of one version and
-- with every required symbol, and returns 0; or it returns a negative code and no handle is open.
pub ssl_lib_init-Inited : (os : Os) (lib : Lib) → IsSound os lib → Inited os (ssl_lib_init os lib)
unfolding ssl_lib_init
ssl_lib_init-Inited os lib s =
    branch (Inited os) (lib.loaded)
      (λ h. record { sound = s; coded = sym h; failed = λ k. absurd (false≢true (sym k ∙ h)) })
      (λ h.
        let r = lib_load_all os (record lib { h_ssl = none; h_crypto = none }) in
        resolve-Inited os r.0 r.1 (lib_load_all-Loads os lib (s.resting h)))

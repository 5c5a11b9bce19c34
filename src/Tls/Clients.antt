-- ===== src/Tls/Clients.antt =====
-- fastwsgi/tls.c: the making and the freeing of the TLS part of a connection. Whether OpenSSL and malloc
-- give an object is a parameter; the objects that are alive are counted.
use mathlib.Core.Bool.{false≢true}
use fastpysgi.Base.{
  ℕ, ◌+◌, ◌-◌, ◌≡◌, refl, sym, Bool, true, false, not, ◌&&◌, arith, if◌then◌else◌, ℤ, neg, is_neg,
  is_zero, pos, negsuc,
}
use fastpysgi.Tls.{HsState, hs_notused, hs_pending, hs_error}

-- whether SSL_new, the two calls of BIO_new, and xbuf_init give something
pub record Answers : Type 0 where
  pub ssl_new : Bool
  pub bio_in_new : Bool
  pub bio_out_new : Bool
  pub enc_out_init : Bool

-- the SSL objects, BIOs and buffers that are alive
pub record Live : Type 0 where
  pub ssl : ℕ
  pub bios : ℕ
  pub bufs : ℕ

-- `tls_client_t`, with whether its pointers are set; the two BIOs are set together
pub record ClientTls : Type 0 where
  pub enabled : Bool
  pub ssl_obj : Bool
  pub bios : Bool
  pub enc_out : Bool
  pub hs_state : HsState

abbrev pub one_of : Bool → ℕ
one_of true = 1
one_of false = 0

-- after `memset`
abbrev pub zeroed : ClientTls
zeroed = record {
  enabled = false;
  ssl_obj = false;
  bios = false;
  enc_out = false;
  hs_state = hs_notused;
}

-- `tls_client_free`: SSL_free frees the BIOs that belong to the object.
unfoldable pub tls_client_free : ClientTls → Live → ClientTls × Live
tls_client_free t l = (
  record t { ssl_obj = false; bios = false; enc_out = false; hs_state = hs_error },
  record {
    ssl = l.ssl - one_of t.ssl_obj;
    bios = l.bios - (one_of t.bios + one_of t.bios);
    bufs = l.bufs - one_of t.enc_out;
  },
)

-- the end of `tls_client_init`, with the BIOs that do not yet belong to the object
unfoldable pub client_fin : ℤ → ℕ → ClientTls → Live → ℤ × ClientTls × Live
unfolding tls_client_free
client_fin (pos n) own t l =
    (pos n, record t { hs_state = hs_pending }, record l { bios = l.bios - own })
client_fin (negsuc e) own t l =
    let (t', l') =
      tls_client_free (record t { hs_state = hs_pending }) (record l { bios = l.bios - own }) in
    (negsuc e, t', l')

-- once the object has its BIOs
unfoldable pub attach : Bool → Live → ℤ × ClientTls × Live
unfolding client_fin
attach enc_out_init l =
    let t : ClientTls = record zeroed { ssl_obj = true; bios = true } in
    if enc_out_init
    then client_fin (pos 0) 0 (record t { enabled = true; enc_out = true })
        (record l { bufs = l.bufs + 1 })
    else client_fin (neg 11) 0 t l

-- once the object is there
unfoldable pub make_bios : Answers → Live → ℤ × ClientTls × Live
unfolding attach
make_bios a l =
    let own = one_of a.bio_in_new + one_of a.bio_out_new in
    let l' : Live = record l { bios = l.bios + own } in
    if a.bio_in_new && a.bio_out_new
    then attach a.enc_out_init l'
    else client_fin (neg 6) own (record zeroed { ssl_obj = true }) l'

-- `tls_client_init`, on a server with TLS or without
unfoldable pub tls_client_init : Answers → Bool → Live → ℤ × ClientTls × Live
unfolding make_bios
tls_client_init a server_enabled l =
    if not server_enabled
    then (neg 1, zeroed, l)
    else if a.ssl_new
    then make_bios a (record l { ssl = l.ssl + 1 })
    else client_fin (neg 5) 0 zeroed l

-- What is alive after the making, and again after the freeing. A failure leaves nothing; a success
-- leaves an object with two BIOs and a buffer, that waits for its handshake.
pub record Owned (l : Live) (r : ℤ × ClientTls × Live) : Type 0 where
  pub coded : is_zero r.0 ≡ r.1.enabled
  pub failed : is_zero r.0 ≡ false → (is_neg r.0 ≡ true) × (r.2 ≡ l)
  pub made :
      is_zero r.0 ≡ true
      → (r.1.hs_state ≡ hs_pending)
        × (r.2 ≡ record { ssl = l.ssl + 1; bios = l.bios + 2; bufs = l.bufs + 1 })
  pub freed : (tls_client_free r.1 r.2).1 ≡ l

-- Whatever OpenSSL and malloc give: tls_client_init makes all of the objects or leaves none alive, and
-- tls_client_free afterwards frees each of them once.
pub tls_client_init-Owned :
    (a : Answers) (server_enabled : Bool) (l : Live) → Owned l (tls_client_init a server_enabled l)
unfolding tls_client_init tls_client_free
tls_client_init-Owned a server_enabled l =
    by_answers server_enabled a.ssl_new a.bio_in_new a.bio_out_new a.enc_out_init
  where
    by_answers :
        (s n i o x : Bool)
        → Owned l (
            tls_client_init
              (record { ssl_new = n; bio_in_new = i; bio_out_new = o; enc_out_init = x })
              s
              l)
    by_answers false n i o x = record {
      coded = refl;
      failed = λ h. (refl, ground arith);
      made = λ h. absurd (false≢true h);
      freed = ground arith;
    }
    by_answers true false i o x = record {
      coded = refl;
      failed = λ h. (refl, ground arith);
      made = λ h. absurd (false≢true h);
      freed = ground arith;
    }
    by_answers true true false false x = record {
      coded = refl;
      failed = λ h. (refl, ground arith);
      made = λ h. absurd (false≢true h);
      freed = ground arith;
    }
    by_answers true true false true x = record {
      coded = refl;
      failed = λ h. (refl, ground arith);
      made = λ h. absurd (false≢true h);
      freed = ground arith;
    }
    by_answers true true true false x = record {
      coded = refl;
      failed = λ h. (refl, ground arith);
      made = λ h. absurd (false≢true h);
      freed = ground arith;
    }
    by_answers true true true true false = record {
      coded = refl;
      failed = λ h. (refl, ground arith);
      made = λ h. absurd (false≢true h);
      freed = ground arith;
    }
    by_answers true true true true true = record {
      coded = refl;
      failed = λ h. absurd (false≢true (sym h));
      made = λ h. (refl, ground arith);
      freed = ground arith;
    }

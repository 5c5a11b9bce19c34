-- ===== src/Tls/Taken.antt =====
-- tls_data_encode (fastwsgi/tls.c) gives OpenSSL all the bytes of a response, in order, and none before
-- the handshake is complete.
use mathlib.Core.Bool.{false≢true}
use fastpysgi.Base.{
  ℕ, ◌+◌, ◌≡◌, refl, sym, ap, ◌∙◌, subst, inl, inr, true, false, not, List, [], ◌∷◌, ◌++◌,
  append-nil, append_assoc, arith, ◌==◌, Bool-cases, branch, length, ℤ, neg, is_neg, pos, Bytes,
}
use fastpysgi.Response.Body.{join}
use fastpysgi.Tls.Flow.{encrypted, tls_encrypt, encode_next, encode_bufs, tls_data_encode}
use fastpysgi.Tls.{Ssl, is_done, WriteEnd, write_loop, all_written, write_starved, write_failed}
use fastpysgi.Tls.Encrypt.{is_all_written, empty_bytes}
use fastpysgi.Tls.Session.{Sys, Tls, drain_fuel, bio_drain_to_xbuf, kept_out}
use fastpysgi.Tls.Ledger.{ends_well, Ledger, write_loop-Wrote, drain_loop-taken}

module _ {S : Type 0} (ssl : Ssl S) (taken : S → Bytes) where
  -- What a routine made of a connection whose object took `old`: if its code is not negative then the
  -- object took the bytes, and a complete handshake stays so.
  pub record Encoded (old bytes : Bytes) (r : ℤ × Tls S) : Type 0 where
    pub whole : is_neg r.0 ≡ false → taken r.1.ssl_obj ≡ old ++ bytes
    pub still : is_done r.1.hs_state ≡ true

  encrypted-Encoded :
      (sys : Sys S) (chunk_idx : ℕ) (tls : Tls S) (old bytes : Bytes) (end : WriteEnd) (s : S)
      → Ledger ssl taken
      → is_done tls.hs_state ≡ true
      → ends_well end ≡ true
      → (is_all_written end ≡ true → taken s ≡ old ++ bytes)
      → Encoded old bytes (encrypted ssl sys chunk_idx tls end s)
  unfolding encrypted bio_drain_to_xbuf
  encrypted-Encoded sys chunk_idx tls old bytes all_written s l d e w =
      let out = kept_out chunk_idx tls.enc_out in
      record {
        whole = λ h. drain_loop-taken ssl taken sys (drain_fuel out) s out l ∙ w refl;
        still = d;
      }
  encrypted-Encoded sys chunk_idx tls old bytes (write_failed c) s l d e w = record {
    whole = λ h. absurd (false≢true (sym h ∙ e));
    still = d;
  }
  encrypted-Encoded sys chunk_idx tls old bytes write_starved s l d e w = absurd (false≢true e)

  tls_encrypt-Encoded :
      (sys : Sys S) (chunk_idx : ℕ) (bytes : Bytes) (tls : Tls S)
      → Ledger ssl taken
      → is_done tls.hs_state ≡ true
      → Encoded (taken tls.ssl_obj) bytes (tls_encrypt ssl sys chunk_idx bytes tls)
  unfolding tls_encrypt
  tls_encrypt-Encoded sys chunk_idx bytes tls l d =
      let P = Encoded (taken tls.ssl_obj) bytes in
      let loop = write_loop-Wrote ssl taken (length bytes + 1) tls.ssl_obj bytes l (omega arith) in
      let r = write_loop ssl (length bytes + 1) tls.ssl_obj bytes in
      branch P (length bytes == 0)
        (λ y. record {
          whole = λ h.
              sym (append-nil (taken tls.ssl_obj))
              ∙ ap (λ t. taken tls.ssl_obj ++ t) (empty_bytes bytes y);
          still = d;
        })
        λ n.
          branch P (not (is_done tls.hs_state)) (λ h. absurd (false≢true (sym (ap not d) ∙ h)))
            λ h.
              encrypted-Encoded sys chunk_idx tls (taken tls.ssl_obj) bytes r.0 r.1 l d loop.ended
                loop.whole

  -- What the encoding of some buffers made of a connection whose object took `old`: a result that is
  -- not negative is the size of the encrypted bytes, and the object took the bytes.
  pub record Given (old bytes : Bytes) (r : ℤ × Tls S) : Type 0 where
    pub whole : is_neg r.0 ≡ false → taken r.1.ssl_obj ≡ old ++ bytes
    pub sized : is_neg r.0 ≡ false → r.0 ≡ pos (length r.1.enc_out)

  refused : {old bytes : Bytes} (e : ℤ) (t : Tls S) → is_neg e ≡ true → Given old bytes (e, t)
  refused e t h = record {
    whole = λ k. absurd (false≢true (sym k ∙ h));
    sized = λ k. absurd (false≢true (sym k ∙ h));
  }

  encode_next-Given :
      (again : ℕ → Tls S → ℤ × Tls S) (chunk_idx : ℕ) (old b rest : Bytes) (r : ℤ × Tls S)
      → ((i : ℕ) (t : Tls S) → is_done t.hs_state ≡ true → Given (taken t.ssl_obj) rest (again i t))
      → Encoded old b r
      → Given old (b ++ rest) (encode_next again chunk_idx r)
  unfolding encode_next
  encode_next-Given again chunk_idx old b rest (rc, t) later e =
      branch (Given old (b ++ rest)) (is_neg rc) (λ h. refused (neg 10) t refl)
        λ h.
          let g = later (chunk_idx + 1) t e.still in
          record {
            whole = λ k. g.whole k ∙ ap (λ l. l ++ rest) (e.whole h) ∙ append_assoc old b rest;
            sized = g.sized;
          }

  encode_bufs-Given :
      (sys : Sys S) (bufs : List Bytes) (chunk_idx : ℕ) (tls : Tls S)
      → Ledger ssl taken
      → is_done tls.hs_state ≡ true
      → Given (taken tls.ssl_obj) (join bufs) (encode_bufs ssl sys bufs chunk_idx tls)
  unfolding encode_bufs join
  encode_bufs-Given sys [] chunk_idx tls l d = record {
    whole = λ k. sym (append-nil (taken tls.ssl_obj));
    sized = λ k. refl;
  }
  encode_bufs-Given sys (b ∷ bufs) chunk_idx tls l d =
      branch (Given (taken tls.ssl_obj) (join (b ∷ bufs))) (length b == 0)
        (λ y.
          subst
            (λ e.
              Given (taken tls.ssl_obj) (e ++ join bufs) (encode_bufs ssl sys bufs chunk_idx tls))
            (empty_bytes b y) (encode_bufs-Given sys bufs chunk_idx tls l d))
        λ n.
          encode_next-Given (encode_bufs ssl sys bufs) chunk_idx (taken tls.ssl_obj) b (join bufs)
            (tls_encrypt ssl sys chunk_idx b tls) (λ i t h. encode_bufs-Given sys bufs i t l h)
            (tls_encrypt-Encoded sys chunk_idx b tls l d)

  -- The handshake is complete: if tls_data_encode returns no error then the object took the bytes of
  -- all the buffers, in order, and the result is the size of the encrypted bytes.
  pub tls_data_encode-Given :
      (sys : Sys S) (bufs : List Bytes) (total_len : ℕ) (tls : Tls S)
      → Ledger ssl taken
      → is_done tls.hs_state ≡ true
      → Given (taken tls.ssl_obj) (join bufs) (tls_data_encode ssl sys bufs total_len tls)
  unfolding tls_data_encode
  tls_data_encode-Given sys [] total_len tls l d = refused (neg 2) tls refl
  tls_data_encode-Given sys (b ∷ bufs) total_len tls l d =
      let P = Given (taken tls.ssl_obj) (join (b ∷ bufs)) in
      branch P (length b == 0) (λ h. refused (neg 4) tls refl)
        λ h.
          branch P (not (sys.resize tls.ssl_obj (total_len + 512)))
            (λ h. refused (neg 5) (record tls { enc_out = [] }) refl)
            (λ h. encode_bufs-Given sys (b ∷ bufs) 0 (record tls { enc_out = [] }) l d)

-- Before the handshake is complete tls_data_encode always returns an error, and OpenSSL is given
-- nothing.
pub tls_data_encode-closed :
    {S : Type 0} (ssl : Ssl S) (sys : Sys S) (bufs : List Bytes) (total_len : ℕ) (tls : Tls S)
    → is_done tls.hs_state ≡ false
    → let r = tls_data_encode ssl sys bufs total_len tls in
      (is_neg r.0 ≡ true) × (r.1.ssl_obj ≡ tls.ssl_obj)
unfolding tls_data_encode encode_bufs encode_next tls_encrypt
tls_data_encode-closed {S} ssl sys [] total_len tls d = (refl, refl)
tls_data_encode-closed {S} ssl sys (b ∷ bufs) total_len tls d = elim (Bool-cases (length b == 0)) [
  | inl y ↦ rw y (refl, refl)
  | inr n ↦
      rw (n, d)
        (branch (λ (r : ℤ × Tls S). (is_neg r.0 ≡ true) × (r.1.ssl_obj ≡ tls.ssl_obj))
          (not (sys.resize tls.ssl_obj (total_len + 512))) (λ h. (refl, refl)) (λ h. (refl, refl)))
]

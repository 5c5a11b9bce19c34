-- ===== src/Tls/Tests.antt =====
-- The theorems on the loops of fastwsgi/tls.c at concrete inputs.
use fastpysgi.Base.{
  ℕ, zero, suc, ◌+◌, ◌≡◌, refl, sym, ap, true, false, [], ◌∷◌, ◌++◌, append-nil, arith, length,
  take, is_neg, pos, Bytes, codes,
}
use fastpysgi.Response.Body.{join}
use fastpysgi.Tls.{
  SslRead, BioRead, Ssl, HsState, read_bytes, want_read, shake_done, bio_bytes, bio_retry,
  hs_pending, hs_done,
}
use fastpysgi.Tls.Loops.{Within, ReadsWithin}
use fastpysgi.Tls.Encrypt.{WritesWithin}
use fastpysgi.Tls.Session.{Sys, Conn, bio_drain_to_xbuf}
use fastpysgi.Tls.Flow.{tls_data_encode, decrypt, tls_process_rx_data}
use fastpysgi.Tls.Moves.{Sealed}
use fastpysgi.Tls.Sealed.{tls_process_rx_data-Sealed}
use fastpysgi.Tls.Reading.{read_tls, SafeIf, read_tls-SafeIf}
use fastpysgi.Tls.Drain.{Gives, MemBio, bio_drain_to_xbuf-All}
use fastpysgi.Tls.Ledger.{Ledger}
use fastpysgi.Tls.Taken.{Given, tls_data_encode-Given, tls_data_encode-closed}
use fastpysgi.Tls.Plain.{HandsPlain, Kept, decrypt-Kept}

-- one byte for each call that has room
abbrev one_byte : ℕ → SslRead
one_byte zero = want_read
one_byte (suc n) = read_bytes b'A' []

-- an object that never runs dry, and takes all that it is given
abbrev ssl : Ssl ℕ
ssl = record {
  ssl_read = λ s n. (one_byte n, s + 1);
  ssl_write = λ s b. (pos (length b), s + 1);
  do_handshake = λ s. (shake_done, s);
  bio_write = λ s b. (pos (length b), s);
  bio_pending = λ s. pos 0;
  bio_read = λ s n. (bio_retry, s);
}

one_byte-Within : (n : ℕ) → Within n (one_byte n)
one_byte-Within zero = omega arith
one_byte-Within (suc n) = omega arith

ssl-ReadsWithin : ReadsWithin ssl
ssl-ReadsWithin s n = one_byte-Within n

ssl-WritesWithin : WritesWithin ssl
ssl-WritesWithin s b = omega arith

-- an object that copies what is written into `bio_out`, and reads what was fed: what it took, what
-- `bio_out` holds, and what it holds for the reader
abbrev Echo : Type 0
Echo = Bytes × Bytes × Bytes

abbrev echo_bio_read : Bytes → Bytes → Bytes → BioRead × Echo
echo_bio_read t [] p = (bio_retry, (t, [], p))
echo_bio_read t (x ∷ b) p = (bio_bytes x b, (t, [], p))

abbrev echo_read : Bytes → Bytes → Bytes → ℕ → SslRead × Echo
echo_read t o p zero = (want_read, (t, o, p))
echo_read t o [] (suc n) = (want_read, (t, o, []))
echo_read t o (x ∷ p) (suc n) = (read_bytes x [], (t, o, p))

abbrev echo : Ssl Echo
echo = record {
  ssl_read = λ s n. echo_read s.0 s.1 s.2 n;
  ssl_write = λ s b. (pos (length b), (s.0 ++ b, s.1 ++ b, s.2));
  do_handshake = λ s. (shake_done, s);
  bio_write = λ s b. (pos (length b), (s.0, s.1, s.2 ++ b));
  bio_pending = λ s. pos (length s.1);
  bio_read = λ s n. echo_bio_read s.0 s.1 s.2;
}

abbrev taken_of : Echo → Bytes
taken_of s = s.0

abbrev held_of : Echo → Bytes
held_of s = s.1

abbrev plain_of : Echo → Bytes
plain_of s = s.2

abbrev sys : Sys Echo
sys = record {
  expand = λ s m n. true;
  resize = λ s n. true;
  alloc = λ s n. true;
  uv_write = λ s b. true;
}

abbrev conn : HsState → Conn Echo
conn h = record {
  tls = record {
    ssl_obj = ([], codes "hello", []);
    hs_state = h;
    close_notify = false;
    enc_out = [];
  };
  buf = [];
  sent = [];
  num_writes = 0;
}

echo-ReadsWithin : ReadsWithin echo
echo-ReadsWithin (t, o, p) zero = omega arith
echo-ReadsWithin (t, o, []) (suc n) = omega arith
echo-ReadsWithin (t, o, x ∷ p) (suc n) = omega arith

echo-HandsPlain : HandsPlain echo plain_of
echo-HandsPlain (t, o, p) zero h = absurd (omega arith)
echo-HandsPlain (t, o, []) (suc n) h = (refl, refl)
echo-HandsPlain (t, o, x ∷ p) (suc n) h = (refl, omega arith)

echo-MemBio : MemBio echo held_of
echo-MemBio = record { counts = λ s. refl; gives = gives_held }
  where
    gives_held : (s : Echo) (n : ℕ) → Gives held_of s.1 (echo_bio_read s.0 s.1 s.2)
    gives_held (t, [], p) n = (refl, refl)
    gives_held (t, x ∷ b, p) n = append-nil (x ∷ b)

take_all : (b : Bytes) → take (length b) b ≡ b
take_all [] = refl
take_all (x ∷ b) = ap (λ t. x ∷ t) (take_all b)

echo-Ledger : Ledger echo taken_of
echo-Ledger = record {
  writes = λ s b. (omega arith, ap (λ t. s.0 ++ t) (sym (take_all b)));
  reads = reads_nothing;
}
  where
    reads_nothing : (s : Echo) (n : ℕ) → taken_of (echo_bio_read s.0 s.1 s.2).1 ≡ s.0
    reads_nothing (t, [], p) n = refl
    reads_nothing (t, x ∷ b, p) n = refl

tls_process_rx_data-Sealed_example :
    Sealed 8 (conn hs_pending) (tls_process_rx_data echo sys 8 (codes "abc") (conn hs_pending))
tls_process_rx_data-Sealed_example =
    tls_process_rx_data-Sealed 8 echo echo-ReadsWithin sys (codes "abc") (conn hs_pending)
      (omega arith)

bio_drain_to_xbuf-All_example :
    let r = bio_drain_to_xbuf echo sys ([], codes "hello", []) (codes "x") in
    (r.0 ≡ pos 5) × (r.2 ≡ codes "x" ++ codes "hello") × (r.1.1 ≡ [])
bio_drain_to_xbuf-All_example =
    bio_drain_to_xbuf-All echo sys held_of ([], codes "hello", []) (codes "x") echo-MemBio
      (λ t m n. refl) (omega arith)

tls_data_encode-Given_example :
    Given echo taken_of []
      (codes "abc")
      (tls_data_encode echo sys (codes "a" ∷ [] ∷ codes "bc" ∷ []) 3 (conn hs_done).tls)
unfolding join
tls_data_encode-Given_example =
    tls_data_encode-Given echo taken_of sys (codes "a" ∷ [] ∷ codes "bc" ∷ []) 3 (conn hs_done).tls
      echo-Ledger refl

tls_data_encode-closed_example :
    let r = tls_data_encode echo sys (codes "a" ∷ []) 1 (conn hs_pending).tls in
    (is_neg r.0 ≡ true) × (r.1.ssl_obj ≡ ([], codes "hello", []))
tls_data_encode-closed_example =
    tls_data_encode-closed echo sys (codes "a" ∷ []) 1 (conn hs_pending).tls refl

decrypt-Kept_example :
    let c = (decrypt echo 2 (record (conn hs_done) { buf = codes "x" })).1 in
    Kept plain_of 2 (codes "x") c.tls.ssl_obj c.buf
decrypt-Kept_example =
    decrypt-Kept echo plain_of 2 (record (conn hs_done) { buf = codes "x" }) echo-HandsPlain
      (omega arith)

read_tls-SafeIf_example : SafeIf 8 (read_tls echo sys 8 16 false (codes "abc") (conn hs_pending))
read_tls-SafeIf_example =
    read_tls-SafeIf 8 echo sys 16 false (codes "abc") (conn hs_pending) echo-ReadsWithin

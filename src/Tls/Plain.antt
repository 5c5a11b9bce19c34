-- ===== src/Tls/Plain.antt =====
-- The reading of tls_process_rx_data (fastwsgi/tls.c) loses no byte of what OpenSSL decrypts.
use fastpysgi.Base.{
  ℕ, zero, suc, ◌-◌, ◌≤◌, ◌<◌, ◌≡◌, refl, ap, ◌∙◌, subst, ◌⊎◌, inl, inr, [], ◌∷◌, ◌++◌,
  append_assoc, arith, leb, ◌==◌, ==_iff, branch, length, Bytes,
}
use fastpysgi.Tls.{
  SslRead, Ssl, Reading, read_step, read_loop, read_fuel, process_decrypted, read_bytes, want_read,
  zero_return, read_error,
}
use fastpysgi.Tls.Loops.{grown, closer, not_yet}
use fastpysgi.Tls.Session.{Conn}
use fastpysgi.Tls.Flow.{decrypt}

-- an answer of SSL_read for at most `n` bytes, on an object that holds these bytes for the reader
abbrev pub Hands : {S : Type 0} → (S → Bytes) → Bytes → ℕ → SslRead × S → Type 0
Hands plain old n (read_bytes x b, t) = (x ∷ b ++ plain t ≡ old) × (length (x ∷ b) ≤ n)
Hands plain old n (want_read, t) = (old ≡ []) × (plain t ≡ [])
Hands plain old n (zero_return, t) = (old ≡ []) × (plain t ≡ [])
Hands plain old n (read_error, t) = ⊥

-- SSL_read, for one byte at least, gives the bytes that the object holds, in order, and no error.
abbrev pub HandsPlain : {S : Type 0} → Ssl S → (S → Bytes) → Type 0
HandsPlain {S} ssl plain = (s : S) (n : ℕ) → 0 < n → Hands plain (plain s) n (ssl.ssl_read s n)

-- The buffer and what the object still holds are what they were, in order; the object holds none, or
-- the buffer is full.
pub record Kept {S : Type 0} (plain : S → Bytes) (capacity : ℕ) (all : Bytes) (s : S) (buf : Bytes)
    : Type 0 where
  pub whole : buf ++ plain s ≡ all
  pub stops : (plain s ≡ []) ⊎ (length buf ≡ capacity)

module _ {S : Type 0} (ssl : Ssl S) (plain : S → Bytes) (capacity : ℕ) where
  read_step-Kept :
      (again : S → Bytes → Reading S) (fuel : ℕ) (buf old : Bytes) (a : SslRead × S)
      → ((t : S) (new : Bytes)
          → length new ≤ capacity
          → capacity - length new < fuel
          → Kept plain capacity (new ++ plain t) (again t new).1 (again t new).2)
      → Hands plain old (capacity - length buf) a
      → length buf < capacity
      → capacity - length buf < suc fuel
      → let r = read_step capacity again buf a in Kept plain capacity (buf ++ old) r.1 r.2
  unfolding read_step
  read_step-Kept again fuel buf old (want_read, t) later h i f = record {
    whole = rw (h.0, h.1) refl;
    stops = inl h.1;
  }
  read_step-Kept again fuel buf old (zero_return, t) later h i f = record {
    whole = rw (h.0, h.1) refl;
    stops = inl h.1;
  }
  read_step-Kept again fuel buf old (read_error, t) later h i f = absurd h
  read_step-Kept again fuel buf old (read_bytes x b, t) later h i f =
      let new : Bytes = buf ++ x ∷ b in
      let same : new ++ plain t ≡ buf ++ old =
        append_assoc buf (x ∷ b) (plain t) ∙ ap (λ l. buf ++ l) h.0 in
      branch (λ (r : Reading S). Kept plain capacity (buf ++ old) r.1 r.2) (length new == capacity)
        (λ k. record { whole = same; stops = inr ((==_iff (length new) capacity).0 k) })
        (λ k.
          subst (λ l. Kept plain capacity l (again t new).1 (again t new).2) same
            (later t new (grown buf b x capacity (omega arith) h.1)
              (closer buf b x capacity fuel f i)))

  read_loop-Kept :
      (fuel : ℕ) (s : S) (buf : Bytes)
      → HandsPlain ssl plain
      → length buf ≤ capacity
      → capacity - length buf < fuel
      → let r = read_loop ssl capacity fuel s buf in Kept plain capacity (buf ++ plain s) r.1 r.2
  unfolding read_loop
  read_loop-Kept zero s buf p i f = absurd (omega arith)
  read_loop-Kept (suc fuel) s buf p i f =
      branch (λ (r : Reading S). Kept plain capacity (buf ++ plain s) r.1 r.2)
        (leb capacity (length buf)) (λ y. record { whole = refl; stops = inr (ground arith) })
        (λ n.
          read_step-Kept (read_loop ssl capacity fuel) fuel buf (plain s)
            (ssl.ssl_read s (capacity - length buf)) (λ t new j g. read_loop-Kept fuel t new p j g)
            (p s (capacity - length buf) (omega (arith, not_yet (length buf) capacity n)))
            (not_yet (length buf) capacity n) f)

  -- OpenSSL that hands over what it decrypted: the reading puts it behind the buffer, in order and
  -- without loss. It stops when OpenSSL holds no more, or when the buffer is full; what OpenSSL then
  -- holds stays there.
  pub decrypt-Kept :
      (c : Conn S)
      → HandsPlain ssl plain
      → length c.buf ≤ capacity
      → let r = (decrypt ssl capacity c).1 in
        Kept plain capacity (c.buf ++ plain c.tls.ssl_obj) r.tls.ssl_obj r.buf
  unfolding decrypt process_decrypted
  decrypt-Kept c p i =
      read_loop-Kept (read_fuel capacity c.buf) c.tls.ssl_obj c.buf p i (omega arith)

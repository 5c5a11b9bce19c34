-- ===== src/Tls/Drain.antt =====
-- bio_drain_to_xbuf (fastwsgi/tls.c) empties a memory BIO.
use fastpysgi.Base.{
  ℕ, zero, suc, ◌+◌, ◌<◌, ◌≡◌, refl, sym, ap, ◌∙◌, true, false, [], ◌∷◌, ◌++◌, append-nil,
  append_assoc, arith, length, length-append, pos, Bytes,
}
use fastpysgi.Tls.{BioRead, Ssl, bio_bytes, bio_retry, bio_eof, bio_failed}
use fastpysgi.Tls.Session.{
  Sys, DrainEnd, Draining, half_int, drain_step, too_big, asked, drain_round, drain_loop,
  drain_fuel, drained_or_code, bio_drain_to_xbuf, emptied,
}

-- an answer of BIO_read on a memory BIO that holds these bytes
abbrev pub Gives : {S : Type 0} → (S → Bytes) → Bytes → BioRead × S → Type 0
Gives pending held (bio_bytes x b, t) = x ∷ b ++ pending t ≡ held
Gives pending held (bio_retry, t) = (held ≡ []) × (pending t ≡ [])
Gives pending held (bio_eof, t) = (held ≡ []) × (pending t ≡ [])
Gives pending held (bio_failed, t) = ⊥

-- `bio_out` is a memory BIO that holds these bytes: BIO_pending counts them, and BIO_read gives the
-- first of them, or asks for a retry if there is none.
pub record MemBio {S : Type 0} (ssl : Ssl S) (pending : S → Bytes) : Type 0 where
  pub counts : (s : S) → ssl.bio_pending s ≡ pos (length (pending s))
  pub gives : (s : S) (n : ℕ) → Gives pending (pending s) (ssl.bio_read s n)

-- The BIO is empty, and its bytes are behind those of the buffer.
pub record Emptied {S : Type 0} (pending : S → Bytes) (out held : Bytes) (r : Draining S)
    : Type 0 where
  pub ended : r.0 ≡ emptied
  pub bytes : r.2 ≡ out ++ held
  pub empty : pending r.1 ≡ []

module _ {S : Type 0} (ssl : Ssl S) (sys : Sys S) (pending : S → Bytes) where
  drain_step-Emptied :
      (again : S → Bytes → Draining S) (fuel : ℕ) (out held : Bytes) (a : BioRead × S)
      → ((t : S) (new : Bytes)
          → length new + length (pending t) < half_int
          → length (pending t) < fuel
          → Emptied pending new (pending t) (again t new))
      → Gives pending held a
      → length out + length held < half_int
      → length held < suc fuel
      → Emptied pending out held (drain_step again out a)
  unfolding drain_step
  drain_step-Emptied again fuel out held (bio_retry, t) later g h f = record {
    ended = refl;
    bytes = rw (g.0) (sym (append-nil out));
    empty = g.1;
  }
  drain_step-Emptied again fuel out held (bio_eof, t) later g h f = record {
    ended = refl;
    bytes = rw (g.0) (sym (append-nil out));
    empty = g.1;
  }
  drain_step-Emptied again fuel out held (bio_failed, t) later g h f = absurd g
  drain_step-Emptied again fuel out held (bio_bytes x b, t) later g h f =
      let n = length-append (x ∷ b) (pending t) in
      let m = length-append out (x ∷ b) in
      let e : length (x ∷ b ++ pending t) ≡ length held = ap length g in
      let rest = later t (out ++ x ∷ b) (omega (arith, n, m, e)) (omega (arith, n, e)) in
      record {
        ended = rest.ended;
        bytes = rest.bytes ∙ append_assoc out (x ∷ b) (pending t) ∙ ap (λ l. out ++ l) g;
        empty = rest.empty;
      }

  small : (size m : ℕ) → m + size < half_int → too_big size m ≡ false
  small size m h = ground arith

  drain_loop-Emptied :
      (fuel : ℕ) (s : S) (out : Bytes)
      → MemBio ssl pending
      → ((t : S) (m n : ℕ) → sys.expand t m n ≡ true)
      → length out + length (pending s) < half_int
      → length (pending s) < fuel
      → Emptied pending out (pending s) (drain_loop ssl sys fuel s out)
  unfolding drain_loop
  drain_loop-Emptied zero s out bio mem h f = absurd (omega arith)
  drain_loop-Emptied (suc fuel) s out bio mem h f =
      rw (bio.counts s, drain_round)
        (rw (small (length (pending s)) (length out) h, mem s (length out) (length (pending s) + 1))
          (drain_step-Emptied (drain_loop ssl sys fuel) fuel out (pending s)
            (ssl.bio_read s (asked (length (pending s))))
            (λ t new k g. drain_loop-Emptied fuel t new bio mem k g)
            (bio.gives s (asked (length (pending s)))) h f))

  -- A memory BIO, memory enough, and less than 2^30 bytes in all: the draining ends and returns how
  -- many bytes the BIO held; they stand behind the buffer, in order, and the BIO is empty.
  pub bio_drain_to_xbuf-All :
      (s : S) (out : Bytes)
      → MemBio ssl pending
      → ((t : S) (m n : ℕ) → sys.expand t m n ≡ true)
      → length out + length (pending s) < half_int
      → let r = bio_drain_to_xbuf ssl sys s out in
        (r.0 ≡ pos (length (pending s))) × (r.2 ≡ out ++ pending s) × (pending r.1 ≡ [])
  unfolding bio_drain_to_xbuf
  bio_drain_to_xbuf-All s out bio mem h =
      let d = drain_loop-Emptied (drain_fuel out) s out bio mem h (omega arith) in
      (counted d.ended d.bytes, d.bytes, d.empty)
    where
      counted :
          {end : DrainEnd} {new : Bytes}
          → end ≡ emptied
          → new ≡ out ++ pending s
          → drained_or_code out end new ≡ pos (length (pending s))
      counted e b = rw (e, b) (ap pos (omega (arith, length-append out (pending s))))

-- ===== src/Tls/Ledger.antt =====
-- The loops of fastwsgi/tls.c around SSL_write and BIO_read, for a library that accounts for what it takes.
use mathlib.Core.Bool.{false≢true}
use fastpysgi.Base.{
  ℕ, zero, suc, ◌+◌, ◌≤◌, ◌<◌, ◌≡◌, refl, sym, ap, ◌∙◌, Bool, true, false, not, [], ◌∷◌, ◌++◌,
  append-nil, append_assoc, arith, ◌==◌, branch, length, take, drop, take-append-drop, length-take,
  ℤ, is_neg, pos, negsuc, Bytes,
}
use fastpysgi.Tls.{
  BioRead, Ssl, WriteEnd, Writing, write_step, write_loop, bio_bytes, bio_retry, bio_eof,
  bio_failed, all_written, write_starved, write_failed,
}
use fastpysgi.Tls.Encrypt.{is_all_written, shorter, empty_bytes}
use fastpysgi.Tls.Session.{Sys, Draining, drain_step, too_big, asked, drain_round, drain_loop}

-- The loop does not end for want of fuel, and it fails with a negative code only.
abbrev pub ends_well : WriteEnd → Bool
ends_well all_written = true
ends_well write_starved = false
ends_well (write_failed e) = is_neg e

-- an answer of SSL_write for these bytes, on an object that took `old` so far
abbrev pub Took : {S : Type 0} → (S → Bytes) → Bytes → Bytes → ℤ × S → Type 0
Took taken old b (pos n, t) = (n ≤ length b) × (taken t ≡ old ++ take n b)
Took taken old b (negsuc n, t) = taken t ≡ old

-- `taken s` are the bytes that SSL_write took so far. It takes the first of those that it is given,
-- as many as it says; reading from `bio_out` takes none.
pub record Ledger {S : Type 0} (ssl : Ssl S) (taken : S → Bytes) : Type 0 where
  pub writes : (s : S) (b : Bytes) → Took taken (taken s) b (ssl.ssl_write s b)
  pub reads : (s : S) (n : ℕ) → taken (ssl.bio_read s n).1 ≡ taken s

-- What the loop of tls_encrypt did: it ended by itself, and if it reports success then the object
-- took the bytes.
pub record Wrote {S : Type 0} (taken : S → Bytes) (old bytes : Bytes) (r : Writing S) : Type 0 where
  pub ended : ends_well r.0 ≡ true
  pub whole : is_all_written r.0 ≡ true → taken r.1 ≡ old ++ bytes

take-take : (n : ℕ) (b : Bytes) → n ≤ length (take 16384 b) → take n (take 16384 b) ≡ take n b
take-take n b h = take_min n 16384 b (omega (arith, length-take 16384 b))
  where
    take_min : (n k : ℕ) (b : Bytes) → n ≤ k → take n (take k b) ≡ take n b
    take_min zero k b h = refl
    take_min (suc n) zero b h = absurd (omega arith)
    take_min (suc n) (suc k) [] h = refl
    take_min (suc n) (suc k) (x ∷ b) h = ap (λ t. x ∷ t) (take_min n k b (omega arith))

module _ {S : Type 0} (ssl : Ssl S) (taken : S → Bytes) where
  write_step-Wrote :
      (fuel : ℕ) (again : S → Bytes → Writing S) (old bytes : Bytes) (a : ℤ × S)
      → ((s : S) (rest : Bytes) → length rest < fuel → Wrote taken (taken s) rest (again s rest))
      → Took taken old (take 16384 bytes) a
      → length bytes < suc fuel
      → Wrote taken old bytes (write_step again bytes a)
  unfolding write_step
  write_step-Wrote fuel again old bytes (negsuc n, s) later w f = record {
    ended = refl;
    whole = λ h. absurd (false≢true h);
  }
  write_step-Wrote fuel again old bytes (pos zero, s) later w f = record {
    ended = refl;
    whole = λ h. absurd (false≢true h);
  }
  write_step-Wrote fuel again old bytes (pos (suc n), s) later w f =
      let rest = later s (drop (suc n) bytes) (shorter n fuel bytes (w.0) f) in
      record {
        ended = rest.ended;
        whole = λ h.
            rest.whole h
            ∙ ap (λ t. t ++ drop (suc n) bytes)
                (w.1 ∙ ap (λ t. old ++ t) (take-take (suc n) bytes (w.0)))
            ∙ append_assoc old (take (suc n) bytes) (drop (suc n) bytes)
            ∙ ap (λ t. old ++ t) (take-append-drop (suc n) bytes);
      }

  pub write_loop-Wrote :
      (fuel : ℕ) (s : S) (bytes : Bytes)
      → Ledger ssl taken
      → length bytes < fuel
      → Wrote taken (taken s) bytes (write_loop ssl fuel s bytes)
  unfolding write_loop
  write_loop-Wrote zero s bytes l f = absurd (omega arith)
  write_loop-Wrote (suc fuel) s bytes l f =
      branch (Wrote taken (taken s) bytes) (length bytes == 0)
        (λ y. record {
          ended = refl;
          whole = λ h. sym (append-nil (taken s)) ∙ ap (λ t. taken s ++ t) (empty_bytes bytes y);
        })
        (λ n.
          write_step-Wrote fuel (write_loop ssl fuel) (taken s) bytes
            (ssl.ssl_write s (take 16384 bytes)) (λ t rest g. write_loop-Wrote fuel t rest l g)
            (l.writes s (take 16384 bytes)) f)

  drain_step-taken :
      (again : S → Bytes → Draining S) (out old : Bytes) (a : BioRead × S)
      → ((t : S) (new : Bytes) → taken (again t new).1 ≡ taken t)
      → taken a.1 ≡ old
      → taken (drain_step again out a).1 ≡ old
  unfolding drain_step
  drain_step-taken again out old (bio_bytes x b, t) later h = later t (out ++ x ∷ b) ∙ h
  drain_step-taken again out old (bio_retry, t) later h = h
  drain_step-taken again out old (bio_eof, t) later h = h
  drain_step-taken again out old (bio_failed, t) later h = h

  drain_round-taken :
      (sys : Sys S) (again : S → Bytes → Draining S) (s : S) (out : Bytes) (n : ℤ)
      → Ledger ssl taken
      → ((t : S) (new : Bytes) → taken (again t new).1 ≡ taken t)
      → taken (drain_round ssl sys again s out n).1 ≡ taken s
  unfolding drain_round
  drain_round-taken sys again s out (negsuc n) l later = refl
  drain_round-taken sys again s out (pos size) l later =
      let same = λ (r : Draining S). taken r.1 ≡ taken s in
      branch same (too_big size (length out)) (λ h. refl)
        λ h.
          branch same (not (sys.expand s (length out) (size + 1))) (λ h. refl)
            λ h.
              drain_step-taken again out (taken s) (ssl.bio_read s (asked size)) later
                (l.reads s (asked size))

  pub drain_loop-taken :
      (sys : Sys S) (fuel : ℕ) (s : S) (out : Bytes)
      → Ledger ssl taken
      → taken (drain_loop ssl sys fuel s out).1 ≡ taken s
  unfolding drain_loop
  drain_loop-taken sys zero s out l = refl
  drain_loop-taken sys (suc fuel) s out l =
      drain_round-taken sys (drain_loop ssl sys fuel) s out (ssl.bio_pending s) l
        (λ t new. drain_loop-taken sys fuel t new l)

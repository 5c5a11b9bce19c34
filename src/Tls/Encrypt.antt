-- ===== src/Tls/Encrypt.antt =====
-- The loop of tls_encrypt (fastwsgi/tls.c) hands over every byte.
use mathlib.Core.Bool.{false≢true}
use fastpysgi.Base.{
  ℕ, zero, suc, ◌≤◌, ◌<◌, ◌≡◌, refl, ap, ◌∙◌, inl, inr, Bool, true, false, [], ◌∷◌, ◌++◌, arith,
  ◌==◌, Bool-cases, length, take, drop, take-append-drop, length-take, length-drop, ℤ, pos, negsuc,
  Bytes,
}
use fastpysgi.Response.Body.{join}
use fastpysgi.Tls.{Ssl, WriteEnd, Writing, write_step, write_loop, all_written, write_starved}

-- the result of SSL_write for `n` bytes
abbrev pub AtMost : ℕ → ℤ → Type 0
AtMost n (pos k) = k ≤ n
AtMost n (negsuc k) = 0 ≤ n

-- SSL_write takes no more bytes than it is given.
abbrev pub WritesWithin : {S : Type 0} → Ssl S → Type 0
WritesWithin {S} ssl = (s : S) (b : Bytes) → AtMost (length b) (ssl.ssl_write s b).0

abbrev pub is_all_written : WriteEnd → Bool
is_all_written all_written = true
is_all_written _ = false

abbrev pub is_starved : WriteEnd → Bool
is_starved write_starved = true
is_starved _ = false

-- The loop ended by itself; if it reports success, the pieces taken are the bytes, in order.
pub record Handed {S : Type 0} (bytes : Bytes) (r : Writing S) : Type 0 where
  pub ended : is_starved r.0 ≡ false
  pub whole : is_all_written r.0 ≡ true → join r.2 ≡ bytes

pub shorter :
    (n fuel : ℕ) (bytes : Bytes)
    → suc n ≤ length (take 16384 bytes)
    → length bytes < suc fuel
    → length (drop (suc n) bytes) < fuel
shorter n fuel bytes h f = omega (arith, length-take 16384 bytes, length-drop (suc n) bytes)

pub empty_bytes : (bytes : Bytes) → (length bytes == 0) ≡ true → [] ≡ bytes
empty_bytes [] h = refl
empty_bytes (x ∷ b) h = absurd (false≢true (ground arith))

module _ {S : Type 0} (ssl : Ssl S) where
  write_step-Handed :
      (fuel : ℕ) (again : S → Bytes → Writing S) (bytes : Bytes) (a : ℤ × S)
      → ((s : S) (rest : Bytes) → length rest < fuel → Handed rest (again s rest))
      → AtMost (length (take 16384 bytes)) a.0
      → length bytes < suc fuel
      → Handed bytes (write_step again bytes a)
  unfolding write_step join
  write_step-Handed fuel again bytes (negsuc n, s) later w f = record {
    ended = refl;
    whole = λ h. absurd (false≢true h);
  }
  write_step-Handed fuel again bytes (pos zero, s) later w f = record {
    ended = refl;
    whole = λ h. absurd (false≢true h);
  }
  write_step-Handed fuel again bytes (pos (suc n), s) later w f =
      let rest = later s (drop (suc n) bytes) (shorter n fuel bytes w f) in
      record {
        ended = rest.ended;
        whole =
            λ h. ap (λ t. take (suc n) bytes ++ t) (rest.whole h) ∙ take-append-drop (suc n) bytes;
      }

  -- OpenSSL that takes no more bytes than it is given: the writing ends, whatever is answered, and if
  -- it reports success then the pieces that OpenSSL took are all the bytes, in order.
  pub write_loop-Handed :
      (fuel : ℕ) (s : S) (bytes : Bytes)
      → WritesWithin ssl
      → length bytes < fuel
      → Handed bytes (write_loop ssl fuel s bytes)
  unfolding write_loop join
  write_loop-Handed zero s bytes w f = absurd (omega arith)
  write_loop-Handed (suc fuel) s bytes w f = elim (Bool-cases (length bytes == 0)) [
    | inl y ↦ rw (write_loop, y) (record { ended = refl; whole = λ h. empty_bytes bytes y })
    | inr n ↦
        rw (write_loop, n)
          (write_step-Handed fuel (write_loop ssl fuel) bytes (ssl.ssl_write s (take 16384 bytes))
            (λ t rest g. write_loop-Handed fuel t rest w g) (w s (take 16384 bytes)) f)
  ]

-- ===== src/Tls/Loops.antt =====
-- The loops of fastwsgi/tls.c end, within the buffer and with every byte.
use fastpysgi.Base.{
  ℕ, zero, suc, ◌-◌, ◌≤◌, ◌<◌, ◌≡◌, refl, sym, ◌∙◌, inl, inr, Bool, true, false, [], ◌∷◌, ◌++◌,
  append-nil, append_assoc, arith, leb, ◌==◌, Bool-cases, length, length-append, Bytes,
}
use fastpysgi.Tls.{
  SslRead, Ssl, ReadEnd, Reading, read_step, read_loop, read_bytes, want_read, zero_return,
  read_error, drained, notified, no_room, read_broken, read_starved,
}

-- an answer to SSL_read for at most `n` bytes
abbrev pub Within : ℕ → SslRead → Type 0
Within n (read_bytes x b) = length (x ∷ b) ≤ n
Within n want_read = 0 ≤ n
Within n zero_return = 0 ≤ n
Within n read_error = 0 ≤ n

-- SSL_read gives no more bytes than are asked for.
abbrev pub ReadsWithin : {S : Type 0} → Ssl S → Type 0
ReadsWithin {S} ssl = (s : S) (n : ℕ) → Within n (ssl.ssl_read s n).0

abbrev pub is_starved : ReadEnd → Bool
is_starved read_starved = true
is_starved _ = false

-- The loop ended by itself, and put bytes behind the buffer within its capacity.
pub record Filled {S : Type 0} (capacity : ℕ) (buf : Bytes) (r : Reading S) : Type 0 where
  pub ended : is_starved r.0 ≡ false
  pub within : length r.2 ≤ capacity
  pub more : Bytes
  pub appended : r.2 ≡ buf ++ more

unread :
    {S : Type 0} (capacity : ℕ) (buf : Bytes) (end : ReadEnd) (s : S)
    → is_starved end ≡ false
    → length buf ≤ capacity
    → Filled capacity buf (end, s, buf)
unread capacity buf end s h i = record {
  ended = h;
  within = i;
  more = [];
  appended = sym (append-nil buf);
}

pub grown :
    (buf b : Bytes) (x n : ℕ)
    → length buf ≤ n
    → length (x ∷ b) ≤ n - length buf
    → length (buf ++ x ∷ b) ≤ n
grown buf b x n i h = ground (arith, length-append buf (x ∷ b))

pub closer :
    (buf b : Bytes) (x n fuel : ℕ)
    → n - length buf < suc fuel
    → length buf < n
    → n - length (buf ++ x ∷ b) < fuel
closer buf b x n fuel h i = ground (arith, length-append buf (x ∷ b))

pub not_yet : (m n : ℕ) → leb n m ≡ false → m < n
not_yet m n h = ground arith

module _ {S : Type 0} (ssl : Ssl S) (capacity : ℕ) where
  read_step-Filled :
      (fuel : ℕ) (again : S → Bytes → Reading S) (buf : Bytes) (a : SslRead × S)
      → ((s : S) (new : Bytes)
          → length new ≤ capacity
          → capacity - length new < fuel
          → Filled capacity new (again s new))
      → Within (capacity - length buf) a.0
      → length buf < capacity
      → capacity - length buf < suc fuel
      → Filled capacity buf (read_step capacity again buf a)
  unfolding read_step
  read_step-Filled fuel again buf (want_read, s) later w i f =
      unread capacity buf drained s refl (omega arith)
  read_step-Filled fuel again buf (zero_return, s) later w i f =
      unread capacity buf notified s refl (omega arith)
  read_step-Filled fuel again buf (read_error, s) later w i f =
      unread capacity buf read_broken s refl (omega arith)
  read_step-Filled fuel again buf (read_bytes x b, s) later w i f =
      elim (Bool-cases (length (buf ++ x ∷ b) == capacity)) [
        | inl y ↦
            rw (read_step, y)
              (record {
                ended = refl;
                within = grown buf b x capacity (omega arith) w;
                more = x ∷ b;
                appended = refl;
              })
        | inr n ↦
            rw (read_step, n)
              (behind (
                later s (buf ++ x ∷ b) (grown buf b x capacity (omega arith) w)
                  (closer buf b x capacity fuel f i)))
      ]
    where
      behind : {r : Reading S} → Filled capacity (buf ++ x ∷ b) r → Filled capacity buf r
      behind h = record {
        ended = h.ended;
        within = h.within;
        more = x ∷ b ++ h.more;
        appended = h.appended ∙ append_assoc buf (x ∷ b) h.more;
      }

  -- OpenSSL that gives no more bytes than are asked for: the reading ends, whatever is answered, with
  -- the bytes that were read behind the buffer and within its capacity.
  pub read_loop-Filled :
      (fuel : ℕ) (s : S) (buf : Bytes)
      → ReadsWithin ssl
      → length buf ≤ capacity
      → capacity - length buf < fuel
      → Filled capacity buf (read_loop ssl capacity fuel s buf)
  unfolding read_loop
  read_loop-Filled zero s buf w i f = absurd (omega arith)
  read_loop-Filled (suc fuel) s buf w i f = elim (Bool-cases (leb capacity (length buf))) [
    | inl y ↦ rw (read_loop, y) (unread capacity buf no_room s refl i)
    | inr n ↦
        rw (read_loop, n)
          (read_step-Filled fuel (read_loop ssl capacity fuel) buf
            (ssl.ssl_read s (capacity - length buf))
            (λ t new j g. read_loop-Filled fuel t new w j g) (w s (capacity - length buf))
            (not_yet (length buf) capacity n) f)
  ]

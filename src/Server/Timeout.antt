-- ===== src/Server/Timeout.antt =====
-- client_aux_check of fastwsgi/server.c: the connections that wait too long.
use mathlib.Core.Bool.{false≢true}
use native.Mathlib.Nat.{mod-eq_of_lt}
use fastpysgi.Base.{
  ℕ, ◌+◌, ◌<◌, ◌≡◌, refl, ◌≢◌, ◌⊎◌, inl, inr, Bool, true, false, not, ◌&&◌, ◌||◌, arith, ltb, ◌==◌,
  u64,
}
use fastpysgi.Client.{Client, Srv}

-- A clock is checked if its timeout and its start are set; the sum is a `uint64_t`.
abbrev expired : ℕ → ℕ → ℕ → Bool
expired now start timeout =
    not (timeout == 0) && not (start == 0) && ltb (u64 (start + timeout)) now

-- The connection is shut down.
pub client_aux_check : Srv → ℕ → Client → Bool
client_aux_check srv now c =
    expired now c.request.update_time srv.read_req_timeout
    || expired now c.request.start_time srv.curr_req_timeout
    || expired now c.response.last_chunk_time srv.next_req_timeout

-- the clock `start` is set, has a timeout, and has run past it
abbrev pub Late : ℕ → ℕ → ℕ → Type 0
Late now start timeout = (timeout ≢ 0) × (start ≢ 0) × (start + timeout < now)

expired_lem :
    (now start timeout : ℕ)
    → start + timeout < 18446744073709551616
    → (expired now start timeout ≡ true → Late now start timeout)
      × (Late now start timeout → expired now start timeout ≡ true)
expired_lem now start timeout h =
    let same : u64 (start + timeout) ≡ start + timeout = mod-eq_of_lt h in
    (λ e. ground (arith, same), λ e. rw same (ground arith))

any_of :
    (p q r : Bool) (P Q R : Type 0)
    → (p ≡ true → P) × (P → p ≡ true)
    → (q ≡ true → Q) × (Q → q ≡ true)
    → (r ≡ true → R) × (R → r ≡ true)
    → ((p || q || r) ≡ true → P ⊎ (Q ⊎ R)) × (P ⊎ (Q ⊎ R) → (p || q || r) ≡ true)
any_of true q r P Q R x y z = (λ h. inl (x.0 h), λ h. refl)
any_of false true r P Q R x y z = (λ h. inr (inl (y.0 h)), λ h. refl)
any_of false false r P Q R x y z = (λ h. inr (inr (z.0 h)), back)
  where
    back : P ⊎ (Q ⊎ R) → r ≡ true
    back (inl a) = absurd (false≢true (x.1 a))
    back (inr (inl b)) = absurd (false≢true (y.1 b))
    back (inr (inr d)) = z.1 d

-- On clocks that do not wrap a connection is shut down exactly if one of its three clocks is set,
-- has a timeout, and has run past it.
pub client_aux_check_lem :
    (srv : Srv) (now : ℕ) (c : Client)
    → c.request.update_time + srv.read_req_timeout < 18446744073709551616
    → c.request.start_time + srv.curr_req_timeout < 18446744073709551616
    → c.response.last_chunk_time + srv.next_req_timeout < 18446744073709551616
    → (client_aux_check srv now c ≡ true
        → Late now c.request.update_time srv.read_req_timeout
          ⊎ (Late now c.request.start_time srv.curr_req_timeout
              ⊎ Late now c.response.last_chunk_time srv.next_req_timeout))
      × (Late now c.request.update_time srv.read_req_timeout
            ⊎ (Late now c.request.start_time srv.curr_req_timeout
                ⊎ Late now c.response.last_chunk_time srv.next_req_timeout)
          → client_aux_check srv now c ≡ true)
unfolding client_aux_check
client_aux_check_lem srv now c a b d =
    let x = expired_lem now c.request.update_time srv.read_req_timeout a in
    let y = expired_lem now c.request.start_time srv.curr_req_timeout b in
    let z = expired_lem now c.response.last_chunk_time srv.next_req_timeout d in
    any_of _ _ _ _ _ _ x y z

-- ===== src/Aio/Rounds.antt =====
-- The rounds of uni_loop (fastwsgi/asgi.c) end.
use fastpysgi.Base.{
  ℕ, zero, suc, ◌+◌, ◌-◌, ◌≤◌, ◌<◌, ◌≡◌, sym, subst, ◌⊎◌, inl, inr, true, false, ◌||◌, arith, leb,
  ◌==◌, ==_iff, Bool-cases, branch,
}
use fastpysgi.Aio.{uv_rounds}

-- So many rounds were run, from `count` on: each but the last had events, and the last had none or was
-- the 151st.
pub record RoundsEnd (events : ℕ → ℕ) (count r : ℕ) : Type 0 where
  pub more : count < r
  pub bound : r ≤ 151
  pub busy : (k : ℕ) → count ≤ k → k + 1 < r → 0 < events k
  pub last : ((events (r - 1) == 0) || (r == 151)) ≡ true

last_round :
    (events : ℕ → ℕ) (count : ℕ)
    → count ≤ 150
    → (leb 150 count || events count == 0) ≡ true
    → ((events (count + 1 - 1) == 0) || (count + 1 == 151)) ≡ true
last_round events count h k = let e : count + 1 - 1 ≡ count = omega arith in rw e (ground arith)

goes_on :
    (events : ℕ → ℕ) (count : ℕ)
    → (leb 150 count || events count == 0) ≡ false
    → (count < 150) × (0 < events count)
goes_on events count k = (ground arith, ground arith)

uv_rounds-from :
    (events : ℕ → ℕ) (fuel count : ℕ)
    → count ≤ 150
    → 151 ≤ fuel + count
    → RoundsEnd events count (uv_rounds events fuel count)
unfolding uv_rounds
uv_rounds-from events zero count h f = absurd (omega arith)
uv_rounds-from events (suc fuel) count h f =
    branch (RoundsEnd events count) (leb 150 count || events count == 0)
      (λ k. record {
        more = omega arith;
        bound = omega arith;
        busy = λ m a b. absurd (omega arith);
        last = last_round events count h k;
      })
      (λ k.
        go (goes_on events count k) (λ i. uv_rounds-from events fuel (count + 1) i (omega arith)))
  where
    go :
        (count < 150) × (0 < events count)
        → (count + 1 ≤ 150 → RoundsEnd events (count + 1) (uv_rounds events fuel (count + 1)))
        → RoundsEnd events count (uv_rounds events fuel (count + 1))
    go g later =
        let r = later (omega (arith, g.0)) in
        record {
          more = omega (arith, r.more);
          bound = r.bound;
          busy = λ m a b. at m a b (Bool-cases (m == count));
          last = r.last;
        }
      where
        at :
            (m : ℕ)
            → count ≤ m
            → m + 1 < uv_rounds events fuel (count + 1)
            → ((m == count) ≡ true) ⊎ ((m == count) ≡ false)
            → 0 < events m
        at m a b (inl y) = subst (λ n. 0 < events n) (sym ((==_iff m count).0 y)) g.1
        at m a b (inr n) = (later (omega (arith, g.0))).busy m (ground arith) b

-- Whatever libuv answers, uni_loop runs at least one and at most 151 rounds of it; each but the last
-- had events, and the last had none or was the 151st.
pub uv_rounds-RoundsEnd : (events : ℕ → ℕ) → RoundsEnd events 0 (uv_rounds events 151 0)
uv_rounds-RoundsEnd events = uv_rounds-from events 151 0 (omega arith) (omega arith)

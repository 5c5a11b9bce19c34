-- ===== src/Process/Nowait.antt =====
-- When run_nowait (fastwsgi/server.c) comes back.
use mathlib.Core.Bool.{false≢true}
use fastpysgi.Base.{
  ℕ, ◌≡◌, refl, sym, ap, ◌∙◌, Bool, true, false, not, ◌&&◌, ◌||◌, Option, none, some, List, [], ◌∷◌,
  ltb, ◌==◌, if◌then◌else◌, branch, ℤ, is_zero, pos,
}
use fastpysgi.Process.{Proc, Round, nowait_loop, run_nowait}

-- a round without clients
abbrev pub is_quiet : ℕ → Round → Bool
is_quiet base (e, handles) = not (ltb base handles)

abbrev pub is_exit : Round → Bool
is_exit (e, handles) = not (is_zero e)

abbrev pub first_quiet : ℕ → List Round → Bool
first_quiet base [] = false
first_quiet base (r ∷ rs) = is_quiet base r

-- two rounds in a row without clients
abbrev pub two_quiet : ℕ → List Round → Bool
two_quiet base [] = false
two_quiet base (r ∷ rs) = (is_quiet base r && first_quiet base rs) || two_quiet base rs

abbrev pub some_exit : List Round → Bool
some_exit [] = false
some_exit (r ∷ rs) = is_exit r || some_exit rs

abbrev pub is_some {ℓ} : {A : Type ℓ} → Option A → Bool
is_some none = false
is_some (some a) = true

-- at the start, and after one round without clients
abbrev comes_back : ℕ → List Round → Bool
comes_back base rs = some_exit rs || two_quiet base rs

abbrev comes_back_soon : ℕ → List Round → Bool
comes_back_soon base rs = some_exit rs || (first_quiet base rs || two_quiet base rs)

round_fresh :
    (v : ℤ) (x q : Bool) (now later : Option ℤ) (ex fq tq : Bool)
    → is_some now ≡ (ex || tq)
    → is_some later ≡ (ex || (fq || tq))
    → is_some (if x then some v else if q then now else later)
      ≡ ((x || ex) || ((not q && fq) || tq))
round_fresh v true q now later ex fq tq n l = refl
round_fresh v false true now later ex fq tq n l = n
round_fresh v false false now later ex fq tq n l = l

round_after :
    (v : ℤ) (x q : Bool) (now : Option ℤ) (ex fq tq : Bool)
    → is_some now ≡ (ex || tq)
    → is_some (if x then some v else if q then now else some (pos 0))
      ≡ ((x || ex) || (not q || ((not q && fq) || tq)))
round_after v true q now ex fq tq n = refl
round_after v false true now ex fq tq n = n
round_after v false false now true fq tq n = refl
round_after v false false now false fq tq n = refl

nowait_cases :
    (mode base : ℕ) (rs : List Round)
    → (mode == 1) ≡ false
    → (is_some (nowait_loop mode base 0 rs) ≡ comes_back base rs)
      × (is_some (nowait_loop mode base 1 rs) ≡ comes_back_soon base rs)
unfolding nowait_loop
nowait_cases mode base [] h = (refl, refl)
nowait_cases mode base ((e, handles) ∷ rs) h =
    let (fresh, after) = nowait_cases mode base rs h in
    let x = not (is_zero e) in
    let q = ltb base handles in
    let one =
      round_fresh e x q (nowait_loop mode base 0 rs) (nowait_loop mode base 1 rs) (some_exit rs)
        (first_quiet base rs) (two_quiet base rs) fresh after in
    let two =
      round_after e x q (nowait_loop mode base 0 rs) (some_exit rs) (first_quiet base rs)
        (two_quiet base rs) fresh in
    (rw h one, rw h two)

-- the number of handles that run_nowait counts as its own
abbrev pub base_of : ℕ → Proc → ℕ
base_of first_handles p = if p.base_handles == 0 then first_handles else p.base_handles

-- A server that is initialised, in a mode that is not 1: run_nowait comes back exactly if a round of
-- libuv leaves an exit code, or two rounds in a row leave no more handles than the server's own.
pub run_nowait_returns :
    (first_handles : ℕ) (rounds : List Round) (p : Proc)
    → p.inited ≡ true
    → (p.nowait_mode == 1) ≡ false
    → is_some (run_nowait first_handles rounds p)
      ≡ (some_exit rounds || two_quiet (base_of first_handles p) rounds)
unfolding run_nowait
run_nowait_returns first_handles rounds p i m =
    let base = base_of first_handles p in
    branch (λ (r : Option (ℤ × Proc)). is_some r ≡ (some_exit rounds || two_quiet base rounds))
      (not p.inited) (λ k. absurd (false≢true (sym (ap not i) ∙ k)))
      (λ k.
        same_end (nowait_loop p.nowait_mode base 0 rounds)
        ∙ (nowait_cases p.nowait_mode base rounds m).0)
  where
    same_end :
        (r : Option ℤ)
        → is_some (
            let q : Option (ℤ × Proc) = elim r [
              | none ↦ none
              | some v ↦ some (v, record p { base_handles = base_of first_handles p })
            ] in
            q)
          ≡ is_some r
    same_end none = refl
    same_end (some v) = refl

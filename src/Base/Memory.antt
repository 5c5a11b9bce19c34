-- ===== src/Base/Memory.antt =====
-- A block of memory as the list of its bytes: `memcpy` into it, and what is read back.
use Prim.Native.Nat.{ℕ, zero, suc, ◌+◌, ◌≤◌, ◌<◌}
use mathlib.Core.Path.{◌≡◌, refl, sym, ap, ◌∙◌}
use mathlib.Core.List.{[], ◌∷◌, ◌++◌, append_assoc, append-nil}
use native.Mathlib.Omega.{arith}
use fastpysgi.Base.Lists.{length, set, take, get_or, length-set}
use fastpysgi.Base.Words.{Bytes}

-- `memcpy(mem + i, xs, len)`; what would go past the end of the block is lost.
unfoldable pub overlay : Bytes → ℕ → Bytes → Bytes
overlay mem i [] = mem
overlay mem i (x ∷ xs) = overlay (set mem i x) (suc i) xs

pub length-overlay : (mem : Bytes) (i : ℕ) (xs : Bytes) → length (overlay mem i xs) ≡ length mem
unfolding overlay
length-overlay mem i [] = refl
length-overlay mem i (x ∷ xs) = length-overlay (set mem i x) (suc i) xs ∙ length-set mem i x

pub take-set : (mem : Bytes) (n v : ℕ) → take n (set mem n v) ≡ take n mem
take-set [] n v = refl
take-set (x ∷ mem) zero v = refl
take-set (x ∷ mem) (suc n) v = ap (λ l. x ∷ l) (take-set mem n v)

take-suc-set :
    (mem : Bytes) (n v : ℕ) → n < length mem → take (suc n) (set mem n v) ≡ take n mem ++ v ∷ []
take-suc-set [] n v h = absurd (omega arith)
take-suc-set (x ∷ mem) zero v h = refl
take-suc-set (x ∷ mem) (suc n) v h = ap (λ l. x ∷ l) (take-suc-set mem n v (omega arith))

-- the first `i` bytes stay, and the written ones follow
pub take-overlay :
    (mem : Bytes) (i : ℕ) (xs : Bytes)
    → i + length xs ≤ length mem
    → take (i + length xs) (overlay mem i xs) ≡ take i mem ++ xs
unfolding overlay
take-overlay mem i [] h = ap (λ n. take n mem) (omega arith) ∙ sym (append-nil (take i mem))
take-overlay mem i (x ∷ xs) h =
    ap (λ n. take n (overlay (set mem i x) (suc i) xs)) (omega arith)
    ∙ take-overlay (set mem i x) (suc i) xs (omega (arith, length-set mem i x))
    ∙ ap (λ l. l ++ xs) (take-suc-set mem i x (omega arith))
    ∙ append_assoc (take i mem) (x ∷ []) xs

pub get_or-set_self : (mem : Bytes) (i v : ℕ) → i < length mem → get_or (set mem i v) i 0 ≡ v
get_or-set_self [] i v h = absurd (omega arith)
get_or-set_self (x ∷ mem) zero v h = refl
get_or-set_self (x ∷ mem) (suc i) v h = get_or-set_self mem i v (omega arith)

pub take_of_zero : (mem : Bytes) {n : ℕ} → n ≡ 0 → take n mem ≡ []
take_of_zero mem e = ap (λ n. take n mem) e

pub take-append : (xs ys : Bytes) → take (length xs) (xs ++ ys) ≡ xs
take-append [] ys = refl
take-append (x ∷ xs) ys = ap (λ l. x ∷ l) (take-append xs ys)

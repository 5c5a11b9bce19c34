-- ===== src/Request/Mount.antt =====
-- A server that is mounted below a root path.
use fastpysgi.Base.{
  ℕ, ◌≤◌, ◌≡◌, refl, ap₂, ◌≢◌, inl, inr, true, false, ◌&&◌, [], ◌∷◌, arith, ltb, ◌==◌, Bool-cases,
  length, pos, Bytes, codes, has_byte,
}
use fastpysgi.Client.{Client, Codecs}
use fastpysgi.Common.Uri.Output.{Clean}
use fastpysgi.Request.Environ.{memcmp_root, below_root, put_environ, set_path_wsgi, fin, slash}

memcmp_root-eq :
    (xs root : Bytes) → Clean xs → length root ≤ length xs → memcmp_root xs root ≡ true → xs ≡ root
unfolding memcmp_root
memcmp_root-eq [] [] c l h = refl
memcmp_root-eq [] (y ∷ root) c l h = absurd (omega arith)
memcmp_root-eq (x ∷ xs) [] c l h = absurd (ground arith)
memcmp_root-eq (x ∷ xs) (y ∷ root) c l h =
    let (e, rest) = split x y h in ap₂ ◌∷◌ e (memcmp_root-eq xs root c.1 (omega arith) rest)
  where
    split :
        (x y : ℕ) → (x == y && memcmp_root xs root) ≡ true → (x ≡ y) × (memcmp_root xs root ≡ true)
    split x y h = ground arith

memcmp_root_self : (xs : Bytes) → memcmp_root xs xs ≡ true
unfolding memcmp_root
memcmp_root_self [] = refl
memcmp_root_self (x ∷ xs) = ground (arith, memcmp_root_self xs)

-- Only the root path itself passes the comparison, which runs over the whole path.
below_root_ne :
    (root path : Bytes) → Clean path → path ≢ root → below_root root path ≡ fin (pos 404)
unfolding below_root
below_root_ne root path c ne = elim (Bool-cases (ltb (length path) (length root))) [
  | inl s ↦ rw s
  | inr s ↦ elim (Bool-cases (memcmp_root path root)) [
    | inl m ↦ absurd (ne (memcmp_root-eq path root c (ground arith) m))
    | inr m ↦ rw (below_root, s, m)
  ]
]

below_root_eq : (root : Bytes) → below_root root root ≡ slash
unfolding below_root
below_root_eq root =
    rw (below_root, ltb_self (length root), memcmp_root_self root, eq_self (length root))
  where
    ltb_self : (n : ℕ) → ltb n n ≡ false
    ltb_self n = ground arith

    eq_self : (n : ℕ) → (n == n) ≡ true
    eq_self n = ground arith

-- Under a root path that is not empty, a plain path is served only if it is the root path itself,
-- as "/"; every other path gets 404 and changes nothing, those below the root path included.
pub set_path_wsgi_root :
    (codecs : Codecs) (root path : Bytes) (c : Client)
    → length root ≢ 0
    → Clean path
    → has_byte b'\\' path ≡ false
    → has_byte b'%' path ≡ false
    → (path ≢ root → set_path_wsgi codecs root c path ≡ (pos 404, c))
      × (path ≡ root
          → set_path_wsgi codecs root c path ≡ put_environ c (codes "PATH_INFO") (codes "/"))
unfolding set_path_wsgi
set_path_wsgi_root codecs root path c n clean bs pc = (
  λ ne. rw (set_path_wsgi, bs, pc, not_empty, below_root_ne root path clean ne),
  λ e. rw (set_path_wsgi, bs, pc, not_empty, e, below_root_eq root),
)
  where
    not_empty : (length root == 0) ≡ false
    not_empty = ground arith

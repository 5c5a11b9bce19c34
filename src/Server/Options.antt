-- ===== src/Server/Options.antt =====
-- The options that init_server of fastwsgi/server.c reads. An option value is the answer of
-- `get_obj_attr_int`, LLONG_MIN if it is not set; `env` is the answer of `get_env_int`.
use fastpysgi.Base.{
  ℕ, ◌+◌, ◌-◌, ◌≤◌, ◌<◌, ◌≡◌, refl, ap, Bool, true, false, not, ◌&&◌, ◌||◌, Option, none, some, [],
  ◌∷◌, arith, ltb, leb, ◌==◌, if◌then◌else◌, length, get_or, take, ℤ, is_neg, int_eq, llong_min,
  pos, negsuc, Bytes, int_max,
}

abbrev is_unset : ℤ → Bool
is_unset v = int_eq v llong_min

-- `if (rv == LLONG_MIN) rv = get_env_int(…)`
abbrev pub or_env : ℤ → ℤ → ℤ
or_env v env = if is_unset v then env else v

-- `(rv >= 0) ? rv : default`
abbrev or_default : ℤ → ℕ → ℕ
or_default (pos n) d = n
or_default (negsuc n) d = d

abbrev clamp : ℕ → ℕ → ℕ → ℕ
clamp lo hi n = let m = if ltb n hi then n else hi in if ltb lo m then m else lo

pub max_content_length : ℤ → ℤ → ℕ
max_content_length v env =
    let n = or_default (or_env v env) 10000000 in if leb int_max n then int_max - 1 else n

pub max_chunk_size : ℤ → ℤ → ℕ
max_chunk_size v env = clamp 2048 67108864 (or_default (or_env v env) 262144)

abbrev magnitude : ℤ → ℕ
magnitude (pos n) = n
magnitude (negsuc n) = n + 1

-- A negative value is taken without limits, "only for testing".
pub read_buffer_size : ℤ → ℤ → ℕ
read_buffer_size v env =
    let rv = or_env v env in
    let limited = clamp 32768 4194304 (or_default rv 65536) in
    if not (is_unset rv) && is_neg rv then magnitude rv else limited

-- The checks on a `root_path` of two bytes or more, and the cut of a last slash. `struct_size` is
-- `sizeof` of the whole struct that holds the array.
unfoldable pub root_path : ℕ → Bytes → Option Bytes
root_path struct_size path =
    let n = length path in
    let cut = if get_or path (n - 1) 0 == b'/' then n - 1 else n in
    if ltb n 2
      || not (get_or path 0 0 == b'/')
      || get_or path 1 0 == b'/'
      || leb (struct_size - 1) n
    then none
    else if ltb cut 2
    then none
    else if get_or path cut 0 == b'/'
    then none
    else some (take cut path)

-- `(rv > 0) ? rv : default`
unfoldable pub positive_or : ℕ → ℤ → ℕ
positive_or d (pos n) = if ltb 0 n then n else d
positive_or d (negsuc n) = d

-- Whatever the application or the environment sets, a chunk holds 2 KiB to 64 MiB, the length of a
-- body stays below INT_MAX, and a read buffer that is not set to a negative number holds 32 KiB to
-- 4 MiB.
pub options_bounds :
    (v env : ℤ)
    → (2048 ≤ max_chunk_size v env)
      × (max_chunk_size v env ≤ 67108864)
      × (max_content_length v env < int_max)
      × (is_neg (or_env v env) ≡ false
          → (32768 ≤ read_buffer_size v env) × (read_buffer_size v env ≤ 4194304))
unfolding max_chunk_size max_content_length read_buffer_size
options_bounds v env = ground arith

-- two bytes at least, shorter than the size of the struct less one, one slash at its start, none at its
-- end
abbrev pub is_rooted : ℕ → Bytes → Bool
is_rooted struct_size path =
    leb 2 (length path)
    && ltb (length path) (struct_size - 1)
    && get_or path 0 0 == b'/'
    && not (get_or path 1 0 == b'/')
    && not (get_or path (length path - 1) 0 == b'/')

take-all : (path : Bytes) → take (length path) path ≡ path
take-all [] = refl
take-all (x ∷ xs) = ap (λ t. x ∷ t) (take-all xs)

get_or-end : (path : Bytes) → get_or path (length path) 0 ≡ 0
get_or-end [] = refl
get_or-end (x ∷ xs) = get_or-end xs

-- A root path is accepted exactly if it has two bytes at least, is shorter than the size of the struct
-- less one, starts with one slash only and does not end in one; it is then stored as it is.
pub root_path_lem :
    (struct_size : ℕ) (path : Bytes)
    → root_path struct_size path ≡ (if is_rooted struct_size path then some path else none)
unfolding root_path
root_path_lem struct_size path = by_end (get_or path (length path - 1) 0 == b'/') refl
  where
    by_end :
        (b : Bool)
        → (get_or path (length path - 1) 0 == b'/') ≡ b
        → root_path struct_size path ≡ (if is_rooted struct_size path then some path else none)
    by_end true e = rw e (ground arith)
    by_end false e = rw (e, take-all path, get_or-end path) (ground arith)

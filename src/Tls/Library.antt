-- ===== src/Tls/Library.antt =====
-- fastwsgi/libssl.c on POSIX: the loading of OpenSSL. dlopen, dlsym and OPENSSL_init_ssl are parameters;
-- a library is known by its name.
pub mod Loading
use fastpysgi.Base.{
  ℕ, ◌+◌, ◌-◌, Bool, true, false, not, ◌||◌, Option, none, some, List, [], ◌∷◌, ◌++◌, ◌==◌,
  if◌then◌else◌, take, ℤ, neg, is_zero, int_eq, pos, Bytes, codes, bytes_eq,
}

-- an answer of dlopen with that of dlerror
pub data Dl : Type 0 where
  dl_loaded dl_no_file dl_error : Dl

-- the system: dlopen, dlsym of a library, and the result of OPENSSL_init_ssl
pub record Os : Type 0 where
  pub dlopen : Bytes → Dl
  pub dlsym : Bytes → Bytes → Bool
  pub init_ssl : ℤ

-- `libssl_t`: the two handles, by the names of their libraries, `loaded`, and how many handles are open
pub record Lib : Type 0 where
  pub h_ssl : Option Bytes
  pub h_crypto : Option Bytes
  pub loaded : Bool
  pub opened : ℕ

abbrev pub ssl_names : List Bytes
ssl_names = codes "libssl.so.3" ∷ codes "libssl.so.1.1" ∷ codes "libssl.so" ∷ []

-- how the loop over the names ends
pub data Probe : Type 0 where
  probe_found : Bytes → Probe
  probe_none probe_error : Probe

abbrev pub probe_one : Probe → Bytes → Dl → Probe
probe_one rest name dl_loaded = probe_found name
probe_one rest name dl_no_file = rest
probe_one rest name dl_error = probe_error

unfoldable pub probe : (Bytes → Dl) → List Bytes → Probe
probe dlopen [] = probe_none
probe dlopen (name ∷ names) = probe_one (probe dlopen names) name (dlopen name)

-- `strstr(lib_name, ".so")`
unfoldable pub find_ext : Bytes → Option Bytes
find_ext [] = none
find_ext (c ∷ bs) =
    let rest = find_ext bs in
    if bytes_eq (take 3 (c ∷ bs)) (codes ".so") then some (c ∷ bs) else rest

-- the answer for libcrypto, of the same version
abbrev pub crypto_opened : Lib → Bytes → Dl → ℤ × Lib
crypto_opened lib name dl_loaded =
    (pos 0, record lib { h_crypto = some name; opened = lib.opened + 1 })
crypto_opened lib name dl_no_file = (neg 22, lib)
crypto_opened lib name dl_error = (neg 22, lib)

unfoldable pub open_crypto : Os → Lib → Option Bytes → ℤ × Lib
open_crypto os lib none = (neg 15, lib)
open_crypto os lib (some ext) =
    crypto_opened lib (codes "libcrypto" ++ ext) (os.dlopen (codes "libcrypto" ++ ext))

unfoldable pub open_probed : Os → Lib → Probe → ℤ × Lib
unfolding open_crypto find_ext
open_probed os lib probe_none = (neg 11, lib)
open_probed os lib probe_error = (neg 12, lib)
open_probed os lib (probe_found name) =
    open_crypto os (record lib { h_ssl = some name; opened = lib.opened + 1 }) (find_ext name)

-- `lib_load_all`
unfoldable pub lib_load_all : Os → Lib → ℤ × Lib
unfolding open_probed probe
lib_load_all os lib = open_probed os lib (probe os.dlopen ssl_names)

-- the names of the LOAD_SYM lines
abbrev pub required : List Bytes
required =
    codes "OpenSSL_version_num"
    ∷ codes "OPENSSL_init_ssl"
    ∷ codes "TLS_server_method"
    ∷ codes "SSL_CTX_new"
    ∷ codes "SSL_CTX_free"
    ∷ codes "SSL_CTX_use_certificate_chain_file"
    ∷ codes "SSL_CTX_use_PrivateKey_file"
    ∷ codes "SSL_CTX_check_private_key"
    ∷ codes "SSL_CTX_load_verify_locations"
    ∷ codes "SSL_CTX_set_verify"
    ∷ codes "SSL_CTX_get_options"
    ∷ codes "SSL_CTX_set_options"
    ∷ codes "SSL_CTX_clear_options"
    ∷ codes "SSL_new"
    ∷ codes "SSL_free"
    ∷ codes "SSL_get_options"
    ∷ codes "SSL_set_options"
    ∷ codes "SSL_clear_options"
    ∷ codes "SSL_set_bio"
    ∷ codes "SSL_set_accept_state"
    ∷ codes "SSL_do_handshake"
    ∷ codes "SSL_read"
    ∷ codes "SSL_write"
    ∷ codes "SSL_pending"
    ∷ codes "SSL_get_error"
    ∷ codes "SSL_shutdown"
    ∷ codes "BIO_new"
    ∷ codes "BIO_s_mem"
    ∷ codes "BIO_free"
    ∷ codes "BIO_write"
    ∷ codes "BIO_read"
    ∷ codes "BIO_ctrl"
    ∷ codes "BIO_set_flags"
    ∷ codes "BIO_test_flags"
    ∷ codes "ERR_get_error"
    ∷ codes "ERR_error_string_n"
    ∷ codes "ERR_clear_error"
    ∷ []

abbrev pub in_lib : Os → Option Bytes → Bytes → Bool
in_lib os none name = false
in_lib os (some l) name = os.dlsym l name

-- `get_lib_sym`, on the two handles
abbrev pub get_lib_sym : Os → Lib → Bytes → Bool
get_lib_sym os lib name = in_lib os lib.h_ssl name || in_lib os lib.h_crypto name

-- `sym_err` after the LOAD_SYM lines of these names
unfoldable pub sym_err : Os → Lib → List Bytes → ℕ
sym_err os lib [] = 0
sym_err os lib (name ∷ names) = sym_err os lib names + (if get_lib_sym os lib name then 0 else 1)

abbrev pub held : Option Bytes → ℕ
held none = 0
held (some l) = 1

-- `ssl_lib_free`
unfoldable pub ssl_lib_free : Lib → Lib
ssl_lib_free lib = record {
  h_ssl = none;
  h_crypto = none;
  loaded = false;
  opened = lib.opened - (held lib.h_ssl + held lib.h_crypto);
}

-- `ssl_lib_init` once lib_load_all has returned this code
unfoldable pub resolve : Os → ℤ × Lib → ℤ × Lib
unfolding sym_err ssl_lib_free
resolve os (hr, lib) =
    if not (is_zero hr)
    then (hr, ssl_lib_free lib)
    else if not (sym_err os lib required == 0)
    then (neg 30, ssl_lib_free lib)
    else if not (int_eq os.init_ssl (pos 1))
    then (neg 33, ssl_lib_free lib)
    else (pos 0, record lib { loaded = true })

-- `ssl_lib_init`
unfoldable pub ssl_lib_init : Os → Lib → ℤ × Lib
unfolding resolve lib_load_all
ssl_lib_init os lib =
    if lib.loaded
    then (pos 0, lib)
    else resolve os (lib_load_all os (record lib { h_ssl = none; h_crypto = none }))

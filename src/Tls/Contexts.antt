-- ===== src/Tls/Contexts.antt =====
-- fastwsgi/tls.c: the contexts of the servers, which tls_server_init_all makes. What OpenSSL answers for
-- the files of certificates and keys is a parameter.
pub mod Balance
pub mod All
use fastpysgi.Base.{
  ℕ, ◌+◌, ◌-◌, Bool, true, false, not, ◌&&◌, Option, none, some, List, [], ◌∷◌, ◌==◌, if◌then◌else◌,
  length, get_or, ℤ, neg, is_neg, is_zero, int_eq, int_lt, pos, negsuc, Bytes,
}
use fastpysgi.Common.Attributes.{Attr, ListAttr, get_obj_attr_list_tup, py_none, py_text}
use fastpysgi.Tls.Library.{Os, Lib, ssl_lib_free, ssl_lib_init}

-- the answers of OpenSSL for a context: whether there is one, and the results of the loading of a chain
-- of certificates, of a key, of the check of the two, and of the certificates of the clients' issuers
pub record CtxAnswers : Type 0 where
  pub os : Os
  pub ctx_new : Bool
  pub use_certificate_chain_file : Bytes → ℤ
  pub use_private_key_file : Bytes → ℤ
  pub check_private_key : Bytes → Bytes → ℤ
  pub load_verify_locations : Bytes → ℤ

-- `tls_server_t`, with whether `ctx` is there
pub record ServerTls : Type 0 where
  pub enabled : Bool
  pub ctx : Bool

-- OpenSSL, and how many contexts were made and not freed
pub record Glob : Type 0 where
  pub lib : Lib
  pub live : ℕ

-- one of the three values of a tuple of `tls_list`
pub data PathOption : Type 0 where
  absent bad_type : PathOption
  path : Bytes → PathOption

abbrev pub path_option : Option Attr → PathOption
path_option none = absent
path_option (some py_none) = absent
path_option (some (py_text b)) = path b
path_option (some _) = bad_type

-- what the options say: no TLS, a code, or the three files
pub data Paths : Type 0 where
  no_tls : Paths
  bad_paths : ℤ → Paths
  cert_paths : Bytes → Bytes → Option Bytes → Paths

abbrev pub with_ca : Bytes → Bytes → PathOption → Paths
with_ca cert key absent = if length cert == 0 then no_tls else cert_paths cert key none
with_ca cert key bad_type = bad_paths (neg 1709)
with_ca cert key (path ca) = if length cert == 0 then no_tls else cert_paths cert key (some ca)

abbrev pub with_key : Bytes → PathOption → PathOption → Paths
with_key cert absent ca = with_ca cert cert ca
with_key cert bad_type ca = bad_paths (neg 1708)
with_key cert (path key) ca = with_ca cert key ca

abbrev pub with_cert : PathOption → PathOption → PathOption → Paths
with_cert absent key ca = no_tls
with_cert bad_type key ca = bad_paths (neg 1707)
with_cert (path cert) key ca = with_key cert key ca

abbrev pub nth_option : List (Option Attr) → ℕ → PathOption
nth_option xs n = path_option (get_or xs n none)

-- for what get_obj_attr_list_tup gives at the index of the server
unfoldable pub tuple_paths : ℤ × List (Option Attr) → Paths
tuple_paths (rc, xs) =
    if int_eq rc (neg 42)
    then no_tls
    else if int_eq rc (neg 11)
    then bad_paths (neg 1705)
    else if int_lt rc (pos 1)
    then bad_paths (neg 1706)
    else with_cert (nth_option xs 0) (nth_option xs 1) (nth_option xs 2)

-- for the number of the tuples, or the code for them, and the tuple
unfoldable pub list_paths : ℤ → ℤ × List (Option Attr) → Paths
unfolding tuple_paths
list_paths rc tuple =
    if int_eq rc (neg 41)
    then no_tls
    else if int_eq rc (pos 0)
    then no_tls
    else if int_eq rc (neg 1)
    then bad_paths (neg 1703)
    else if int_lt rc (pos 1)
    then bad_paths (neg 1704)
    else if int_lt (pos 4) rc
    then bad_paths (neg 1704)
    else tuple_paths tuple

-- the part of `tls_server_init` that reads the attribute tls_list
unfoldable pub tls_paths : Option ListAttr → ℕ → Paths
unfolding list_paths
tls_paths tls_list srv_idx =
    list_paths (get_obj_attr_list_tup tls_list (neg 1) 0).0
      (get_obj_attr_list_tup tls_list (pos srv_idx) 3)

-- `tls_server_free` on one server: SSL_CTX_FREE frees a context only while OpenSSL is loaded
unfoldable pub free_one : Glob → ServerTls → Glob × ServerTls
free_one g s = (
  if g.lib.loaded && s.ctx then record g { live = g.live - 1 } else g,
  record { enabled = false; ctx = false },
)

unfoldable pub load_ca : CtxAnswers → Option Bytes → ℤ
load_ca a none = pos 1
load_ca a (some ca) = if int_eq (a.load_verify_locations ca) (pos 1) then pos 1 else neg 1750

-- the code for a context, once it is there
unfoldable pub fill_ctx : CtxAnswers → Bytes → Bytes → Option Bytes → ℤ
unfolding load_ca
fill_ctx a cert key ca =
    if not (int_eq (a.use_certificate_chain_file cert) (pos 1))
    then neg 1730
    else if not (int_eq (a.use_private_key_file key) (pos 1))
    then neg 1735
    else if not (int_eq (a.check_private_key cert key) (pos 1))
    then neg 1740
    else load_ca a ca

-- the end of `tls_server_init`: a negative code frees the server's context
unfoldable pub server_fin : ℤ → Glob → ServerTls → ℤ × Glob × ServerTls
unfolding free_one
server_fin (pos n) g s = (pos n, g, s)
server_fin (negsuc n) g s = let (g', s') = free_one g s in (negsuc n, g', s')

abbrev pub enabled_by : ℤ → ServerTls
enabled_by (pos n) = record { enabled = true; ctx = true }
enabled_by (negsuc n) = record { enabled = false; ctx = true }

-- once OpenSSL is loaded, or its code
unfoldable pub make_ctx :
    CtxAnswers → ℕ → Bytes → Bytes → Option Bytes → ℤ × Lib → ℤ × Glob × ServerTls
unfolding fill_ctx server_fin
make_ctx a live cert key ca (rc, lib) =
    let blank : ServerTls = record { enabled = false; ctx = false } in
    let hr = fill_ctx a cert key ca in
    if not (is_zero rc)
    then server_fin (neg 1710) (record { lib = lib; live = live }) blank
    else if not a.ctx_new
    then server_fin (neg 1720) (record { lib = lib; live = live }) blank
    else server_fin hr (record { lib = lib; live = live + 1 }) (enabled_by hr)

unfoldable pub init_paths : CtxAnswers → Glob → ServerTls → Paths → ℤ × Glob × ServerTls
unfolding make_ctx
init_paths a g s no_tls = (pos 0, g, s)
init_paths a g s (bad_paths e) = server_fin e g s
init_paths a g s (cert_paths cert key ca) = make_ctx a g.live cert key ca (ssl_lib_init a.os g.lib)

-- `tls_server_init`, on the server of the index
unfoldable pub tls_server_init :
    CtxAnswers → Option ListAttr → ℕ → Glob → ServerTls → ℤ × Glob × ServerTls
unfolding init_paths
tls_server_init a tls_list srv_idx g s = init_paths a g s (tls_paths tls_list srv_idx)

abbrev pub Inits : Type 0
Inits = ℤ × Glob × List ServerTls

-- `total++` for a server with TLS
abbrev pub count_server : ℤ → ℤ → ℤ
count_server hr (pos total) = if int_eq hr (pos 1) then pos (total + 1) else pos total
count_server hr (negsuc e) = negsuc e

abbrev pub keep_server : ℤ → ServerTls → Inits → Inits
keep_server hr s (total, g, servers) = (count_server hr total, g, s ∷ servers)

unfoldable pub init_next : (Glob → Inits) → List ServerTls → ℤ × Glob × ServerTls → Inits
init_next again servers (hr, g, s) =
    if is_neg hr then (hr, g, s ∷ servers) else keep_server hr s (again g)

-- the loop of tls_server_init_all, from the server of an index on
unfoldable pub init_servers : CtxAnswers → Option ListAttr → ℕ → List ServerTls → Glob → Inits
unfolding init_next
init_servers a tls_list idx [] g = (pos 0, g, [])
init_servers a tls_list idx (s ∷ servers) g =
    init_next (init_servers a tls_list (idx + 1) servers) servers
      (tls_server_init a tls_list idx g s)

unfoldable pub free_servers : Glob → List ServerTls → Glob × List ServerTls
unfolding free_one
free_servers g [] = (g, [])
free_servers g (s ∷ servers) =
    let (g1, s') = free_one g s in
    let (g2, servers') = free_servers g1 servers in (g2, s' ∷ servers')

-- `tls_server_free(NULL)`
unfoldable pub free_all : Glob → List ServerTls → Glob × List ServerTls
unfolding free_servers
free_all g servers =
    let (g', servers') = free_servers g servers in
    (record g' { lib = ssl_lib_free g'.lib }, servers')

unfoldable pub init_fin : Inits → Inits
unfolding free_all
init_fin (pos total, g, servers) = (pos total, g, servers)
init_fin (negsuc e, g, servers) =
    let (g', servers') = free_all g servers in (negsuc e, g', servers')

-- `tls_server_init_all`
unfoldable pub tls_server_init_all : CtxAnswers → Option ListAttr → List ServerTls → Glob → Inits
unfolding init_fin
tls_server_init_all a tls_list servers g = init_fin (init_servers a tls_list 0 servers g)

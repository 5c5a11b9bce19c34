-- ===== src/Tls/SetupTests.antt =====
-- The theorems on the making of OpenSSL's objects (fastwsgi/libssl.c, fastwsgi/tls.c) at concrete inputs.
use mathlib.Core.Bool.{false≢true}
use fastpysgi.Base.{
  ◌≡◌, refl, true, false, none, some, List, [], ◌∷◌, arith, if◌then◌else◌, neg, pos, codes,
  bytes_eq,
}
use fastpysgi.Common.Attributes.{ListAttr, get_obj_attr_list_tup, py_text, item_tuple, list_of}
use fastpysgi.Tls.Library.{Os, Lib, ssl_lib_init, dl_loaded}
use fastpysgi.Tls.Library.Loading.{IsSound, Inited, ssl_lib_init-Inited}
use fastpysgi.Tls.Contexts.{
  CtxAnswers, ServerTls, Glob, tls_paths, tls_server_init, init_servers, tls_server_init_all,
}
use fastpysgi.Tls.Contexts.All.{AllOrNone, tls_server_init_all-AllOrNone}
use fastpysgi.Tls.Clients.{Answers, Live}

-- a system with every library and symbol
abbrev os : Os
os = record { dlopen = λ name. dl_loaded; dlsym = λ l name. true; init_ssl = pos 1 }

abbrev unloaded : Lib
unloaded = record { h_ssl = none; h_crypto = none; loaded = false; opened = 0 }

unloaded-IsSound : IsSound os unloaded
unloaded-IsSound = record {
  counted = refl;
  resting = λ h. refl;
  whole = λ h. absurd (false≢true h);
}

ssl_lib_init-Inited_example : Inited os (ssl_lib_init os unloaded)
ssl_lib_init-Inited_example = ssl_lib_init-Inited os unloaded unloaded-IsSound

-- a chain of certificates that loads, and a key that does only from the file "key"
abbrev answers : CtxAnswers
answers = record {
  os = os;
  ctx_new = true;
  use_certificate_chain_file = λ cert. pos 1;
  use_private_key_file = λ key. if bytes_eq key (codes "key") then pos 1 else pos 0;
  check_private_key = λ cert key. pos 1;
  load_verify_locations = λ ca. pos 1;
}

abbrev two_servers : List ServerTls
two_servers = record { enabled = false; ctx = false } ∷ record { enabled = false; ctx = false } ∷ []

-- the key of the second server does not load
abbrev tls_list : ListAttr
tls_list = list_of (
    item_tuple (py_text (codes "cert") ∷ py_text (codes "key") ∷ [])
    ∷ item_tuple (py_text (codes "cert") ∷ [])
    ∷ [])

abbrev glob : Glob
glob = record { lib = unloaded; live = 0 }

tls_server_init_all-AllOrNone_example :
    AllOrNone (tls_server_init_all answers (some tls_list) two_servers glob)
tls_server_init_all-AllOrNone_example =
    tls_server_init_all-AllOrNone answers (some tls_list) two_servers glob
      (record { sound = unloaded-IsSound; needed = λ h. absurd (omega arith) }) refl
      ((refl, refl), ((refl, refl), tt))

abbrev nothing_alive : Live
nothing_alive = record { ssl = 0; bios = 0; bufs = 0 }

-- the second BIO is refused
abbrev no_bio_out : Answers
no_bio_out = record { ssl_new = true; bio_in_new = true; bio_out_new = false; enc_out_init = true }

-- the second server fails, and nothing is left of the first
second_fails :
    tls_server_init_all answers (some tls_list) two_servers glob
    ≡ (neg 1735, record glob { lib = unloaded }, two_servers)
unfolding tls_server_init_all init_servers tls_server_init tls_paths get_obj_attr_list_tup
    ssl_lib_init
second_fails = refl

-- ===== src/Process/Settings.antt =====
-- init_server of fastwsgi/server.c: the order of its checks, the options without a text, and init_srv.
-- What get_obj_attr_int and get_env_int give is a function of the name.
use fastpysgi.Base.{
  ℕ, zero, suc, ◌+◌, String, Bool, true, false, not, ◌||◌, Option, none, some, List, [], ◌∷◌, ltb,
  ◌==◌, if◌then◌else◌, length, take, ℤ, neg, is_neg, is_zero, is_pos, pos_part, int_eq, int_lt,
  llong_min, pos, negsuc, Bytes, codes,
}
use fastpysgi.Common.Attributes.{ListAttr, get_obj_attr_list_tup, to_int, get_obj_attr_bindlist}
use fastpysgi.Server.Options.{
  max_content_length, max_chunk_size, read_buffer_size, root_path, positive_or,
}
use fastpysgi.Process.{Op, Proc, zero_proc, InitAnswers, InitResult, init_srv}

-- the attributes of the object that Python passes
pub record Options : Type 0 where
  pub attr_int : Bytes → ℤ
  pub env_int : Bytes → ℤ
  pub app : Bool
  pub is_asgi : Bool
  pub bindlist : Option ListAttr
  pub root_path : Option Bytes

-- the options of `g_srv`
pub record Settings : Type 0 where
  pub backlog : ℤ
  pub hook_sigint : ℤ
  pub allow_keepalive : Bool
  pub resp_hdr_lower : Bool
  pub add_header_date : Bool
  pub max_headers_num : ℤ
  pub max_content_length : ℕ
  pub max_chunk_size : ℕ
  pub read_buffer_size : ℕ
  pub tcp_nodelay : ℤ
  pub tcp_keepalive : ℤ
  pub tcp_send_buf_size : ℤ
  pub tcp_recv_buf_size : ℤ
  pub svc_timer_interval : ℕ
  pub read_req_timeout : ℕ
  pub curr_req_timeout : ℕ
  pub next_req_timeout : ℕ
  pub nowait_mode : ℤ

-- `(rv >= 0) ? (int)rv : default`
abbrev pub int_or : ℤ → ℤ → ℤ
int_or d rv = if is_neg rv then d else to_int rv

-- `(rv > 0) ? (int)rv : default`
abbrev pub positive_int_or : ℤ → ℤ → ℤ
positive_int_or d rv = if is_pos rv then to_int rv else d

unfoldable pub read_settings : Options → Settings
read_settings o =
    let attr = λ (name : String). o.attr_int (codes name) in
    record {
      backlog = to_int (attr "backlog");
      hook_sigint = int_or (pos 1) (attr "hook_sigint");
      allow_keepalive = not (is_zero (attr "allow_keepalive"));
      resp_hdr_lower =
          if int_eq (attr "resp_hdr_lower") llong_min
          then o.is_asgi
          else not (is_zero (attr "resp_hdr_lower"));
      add_header_date = not (is_zero (attr "add_header_date"));
      max_headers_num = positive_int_or (pos 200) (attr "max_headers_num");
      max_content_length =
          max_content_length (attr "max_content_length")
            (o.env_int (codes "FASTPYSGI_MAX_CONTENT_LENGTH"));
      max_chunk_size =
          max_chunk_size (attr "max_chunk_size") (o.env_int (codes "FASTPYSGI_MAX_CHUNK_SIZE"));
      read_buffer_size =
          read_buffer_size (attr "read_buffer_size")
            (o.env_int (codes "FASTPYSGI_READ_BUFFER_SIZE"));
      tcp_nodelay = int_or (pos 0) (attr "tcp_nodelay");
      tcp_keepalive =
          if int_lt (attr "tcp_keepalive") (neg 1) then pos 0 else to_int (attr "tcp_keepalive");
      tcp_send_buf_size = int_or (pos 0) (attr "tcp_send_buf_size");
      tcp_recv_buf_size = int_or (pos 0) (attr "tcp_recv_buf_size");
      svc_timer_interval = positive_or 3000 (attr "svc_timer_interval");
      read_req_timeout = positive_or 0 (attr "read_req_timeout");
      curr_req_timeout = positive_or 0 (attr "curr_req_timeout");
      next_req_timeout = positive_or 0 (attr "next_req_timeout");
      nowait_mode = positive_int_or (pos 0) (attr "nowait");
    }

-- get_obj_attr_bindlist for a negative index
abbrev pub bindlist_number : Option ListAttr → ℤ
bindlist_number bindlist =
    let size = (get_obj_attr_list_tup bindlist (neg 1) 0).0 in
    if int_lt size (pos 1) then neg 3 else size

-- how the reading of the hosts and ports ends; `null_host` is a read through NULL
pub data Hosts : Type 0 where
  hosts : List (Bytes × ℤ) → Hosts
  bad_host null_host : Hosts

abbrev pub add_host : Bytes → ℤ → Hosts → Hosts
add_host h p (hosts rest) = hosts ((h, p) ∷ rest)
add_host h p bad_host = bad_host
add_host h p null_host = null_host

-- for one tuple, and the hosts behind it; a host is cut to the 63 bytes of its array
unfoldable pub next_host : ℤ × Option Bytes × ℤ → Hosts → Hosts
next_host (rc, host, port) rest =
    if not (is_pos rc)
    then bad_host
    else elim host [ none ↦ null_host | some h ↦ add_host (take 63 h) port rest ]

-- the loop over the servers, from an index on
unfoldable pub read_hosts : Option ListAttr → ℕ → ℕ → Hosts
unfolding next_host
read_hosts bindlist idx zero = hosts []
read_hosts bindlist idx (suc n) =
    next_host (get_obj_attr_bindlist bindlist idx) (read_hosts bindlist (idx + 1) n)

-- what init_server did: it refused with a code, read through NULL, or called init_srv
pub data Inited : Type 0 where
  refused : ℤ → Inited
  crashed : Inited
  called : ℤ → List (Bytes × ℤ) → Settings → List Op → Proc → Inited

-- the `g_srv` for init_srv
abbrev pub proc_of : Options → Settings → ℕ → Proc
proc_of o s n = record zero_proc {
  asgi = o.is_asgi;
  servers_num = n;
  hook_sigint = s.hook_sigint;
  nowait_mode = pos_part s.nowait_mode;
  allow_keepalive = s.allow_keepalive;
}

-- an error clears `g_srv`
abbrev pub call_srv : List (Bytes × ℤ) → Settings → InitResult → Inited
call_srv hs s (hr, ops, p) =
    if is_zero hr then called hr hs s ops p else called hr hs s ops zero_proc

-- the struct that holds the text of the root path has `struct_size` bytes
unfoldable pub root_refused : ℕ → Option Bytes → Bool
root_refused struct_size none = false
root_refused struct_size (some path) =
    if length path == 0
    then false
    else elim (root_path struct_size path) [ none ↦ true | some r ↦ false ]

unfoldable pub with_hosts : ℕ → InitAnswers → Options → Hosts → Inited
unfolding root_refused
with_hosts struct_size a o bad_host = refused (neg 1013)
with_hosts struct_size a o null_host = crashed
with_hosts struct_size a o (hosts hs) =
    let s = read_settings o in
    if int_eq (o.attr_int (codes "backlog")) llong_min
    then refused (neg 1014)
    else if root_refused struct_size o.root_path
    then refused (neg 1019)
    else call_srv hs s (init_srv a (proc_of o s (length hs)))

-- for the number of the servers, or the code for it
unfoldable pub with_number : ℕ → InitAnswers → Options → ℤ → Inited
unfolding with_hosts
with_number struct_size a o (negsuc n) = refused (neg 1012)
with_number struct_size a o (pos n) =
    if ltb n 1 || ltb 4 n
    then refused (neg 1012)
    else with_hosts struct_size a o (read_hosts o.bindlist 0 n)

-- `init_server`; `inited` is `g_srv_inited`
unfoldable pub init_server : ℕ → InitAnswers → Options → Bool → Inited
unfolding with_number
init_server struct_size a o inited =
    if inited
    then refused (neg 1000)
    else if int_eq (o.attr_int (codes "loglevel")) llong_min
    then refused (neg 1010)
    else if not o.app
    then refused (neg 1011)
    else with_number struct_size a o (bindlist_number o.bindlist)

-- ===== src/Request/Environ.antt =====
-- `set_header` of fastwsgi/request.c: a value enters the WSGI environ or the ASGI scope. Which of the
-- two is chosen by `client->asgi`. Python's codecs are a parameter; its allocations do not fail.
use fastpysgi.Base.{
  code, Bool, true, not, ◌&&◌, none, some, [], ◌∷◌, ◌++◌, ltb, ◌==◌, if◌then◌else◌, length, get_or,
  take, drop, ℤ, neg, pos, negsuc, Bytes, codes, has_byte,
}
use fastpysgi.Client.{Scope, Client, is_asgi, Srv, set_item, Codecs, text}
use fastpysgi.Common.Uri.{uri_percent_decode_inplace}

-- The key objects that the code compares by address, and any other name.
pub data Key : Type 0 where
  path_info query_string request_method remote_addr content_length_key : Key
  named : Bytes → Key

abbrev pub key_text : Key → Bytes
key_text path_info = codes "PATH_INFO"
key_text query_string = codes "QUERY_STRING"
key_text request_method = codes "REQUEST_METHOD"
key_text remote_addr = codes "REMOTE_ADDR"
key_text content_length_key = codes "CONTENT_LENGTH"
key_text (named n) = n

-- `memcmp(value, root_path.str, vlen) == 0`: the array holds the root path and then NULs.
unfoldable pub memcmp_root : Bytes → Bytes → Bool
memcmp_root [] root = true
memcmp_root (x ∷ xs) [] = x == 0 && memcmp_root xs []
memcmp_root (x ∷ xs) (y ∷ ys) = x == y && memcmp_root xs ys

-- The outcome of a step before the dictionary is written: a code to return, a value, or the constant
-- "/" for a request of the root path itself.
pub data Step : Type 0 where
  fin : ℤ → Step
  value : Bytes → Step
  slash : Step

-- The path after its percent escapes; the decoder's answer is `pos len` or a negative code.
unfoldable pub decoded_path : Bytes → Step
decoded_path path =
    if has_byte b'\\' path
    then fin (neg 41)
    else if has_byte b'%' path
    then elim (uri_percent_decode_inplace path (length path) true 100) [
      | none ↦ fin (neg 45)
      | some (pos n, buf) ↦ value (take n buf)
      | some (negsuc e, buf) ↦ fin (neg 45)
    ]
    else value path

-- The part of the path behind the root path, at `root_path.len > 0`.
unfoldable pub below_root : Bytes → Bytes → Step
unfolding memcmp_root
below_root root path =
    if ltb (length path) (length root)
    then fin (pos 404)
    else if not (memcmp_root path root)
    then fin (pos 404)
    else if length path == length root
    then slash
    else if not (get_or path (length root) 0 == b'/')
    then fin (pos 404)
    else value (drop (length root) path)

-- `PyDict_SetItem(client->request.headers, …)`, with -3 for a missing dictionary
unfoldable pub put_environ : Client → Bytes → Bytes → ℤ × Client
put_environ c k v = elim (c.request.headers) [
  | none ↦ (neg 3, c)
  | some d ↦
      (pos 0, record c { request = record (c.request) { headers = some (set_item d k (text v)) } })
]

unfoldable pub put_scope : Client → Scope → Bytes → Bytes → ℤ × Client
put_scope c s k v =
    (pos 0, record c { asgi = some (record s { entries = set_item s.entries k (text v) }) })

-- `PyList_Append(scope_headers, (key, value))`
unfoldable pub append_header : Client → Scope → Bytes → Bytes → ℤ × Client
append_header c s k v =
    (pos 0, record c { asgi = some (record s { headers = s.headers ++ (k, v) ∷ [] }) })

module _ (codecs : Codecs) where
  -- A path in ASGI: decoded as Latin-1 if it had no escape, else as UTF-8. -55: it is no UTF-8.
  set_path_asgi : Client → Scope → Bytes → ℤ × Client
  unfolding decoded_path put_scope
  set_path_asgi c s path = elim (decoded_path path) [
    | fin code ↦ (code, c)
    | slash ↦ (pos 0, c)
    | value v ↦
        if has_byte b'%' path
        then elim (codecs.utf8_strict v) [
          | none ↦ (neg 55, c)
          | some t ↦ put_scope c s (codes "path") t
        ]
        else put_scope c s (codes "path") (codecs.latin1 v)
  ]

  -- the text of PATH_INFO, with -68 for a path that is no UTF-8
  put_path_info : Client → Bytes → ℤ × Client
  unfolding put_environ
  put_path_info c v = elim (codecs.utf8_strict v) [
    | none ↦ (neg 68, c)
    | some t ↦ put_environ c (codes "PATH_INFO") t
  ]

  -- A path in WSGI: what stands behind the root path of the server.
  unfoldable pub set_path_wsgi : Bytes → Client → Bytes → ℤ × Client
  unfolding decoded_path below_root put_environ put_path_info
  set_path_wsgi root c path = elim (decoded_path path) [
    | fin code ↦ (code, c)
    | slash ↦ (pos 0, c)
    | value v ↦ if length root == 0 then put_path_info c v else elim (below_root root v) [
      | fin code ↦ (code, c)
      | slash ↦ put_environ c (codes "PATH_INFO") (codes "/")
      | value rest ↦ put_path_info c rest
    ]
  ]

  -- a value that is no path, in the ASGI scope
  unfoldable pub set_value_asgi : Client → Scope → Key → Bytes → ℤ × Client
  unfolding put_scope append_header
  set_value_asgi c s path_info v = (pos 0, c)
  set_value_asgi c s query_string v = put_scope c s (codes "query_string") v
  set_value_asgi c s request_method v = put_scope c s (codes "method") v
  set_value_asgi c s remote_addr v = put_scope c s (codes "REMOTE_ADDR") v
  set_value_asgi c s content_length_key v = append_header c s (codes "content-length") v
  set_value_asgi c s (named n) v = append_header c s n v

  -- a value that is no path, in the WSGI environ
  unfoldable pub set_value_wsgi : Client → Key → Bytes → ℤ × Client
  unfolding put_environ
  set_value_wsgi c query_string v = put_environ c (codes "QUERY_STRING") (codecs.latin1 v)
  set_value_wsgi c k v = put_environ c (key_text k) (codecs.utf8_ignore v)

  unfoldable pub set_header : Srv → Client → Key → Bytes → ℤ × Client
  unfolding set_path_asgi set_path_wsgi set_value_asgi set_value_wsgi
  set_header srv c path_info v = elim (c.asgi) [
    | none ↦ set_path_wsgi srv.root_path c v
    | some s ↦ set_path_asgi c s v
  ]
  set_header srv c k v = elim (c.asgi) [
    | none ↦ set_value_wsgi c k v
    | some s ↦ set_value_asgi c s k v
  ]

  -- `set_header_v`: -12 for an empty name
  unfoldable pub set_header_v : Srv → Client → Bytes → Bytes → ℤ × Client
  unfolding set_header
  set_header_v srv c [] v = (neg 12, c)
  set_header_v srv c (x ∷ key) v =
      set_header srv c (named (if is_asgi c then x ∷ key else codecs.latin1 (x ∷ key))) v

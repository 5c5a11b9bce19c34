-- ===== src/Request/Header.antt =====
-- The callbacks of fastwsgi/request.c for header fields. The head buffer holds `NAME \0 VALUE`, where
-- a WSGI name has the prefix `HTTP_`.
use fastpysgi.Base.{
  ℕ, ◌+◌, Bool, true, false, not, ◌&&◌, ◌||◌, Option, none, some, [], ◌∷◌, ◌++◌, map, ltb, leb,
  ◌==◌, if◌then◌else◌, length, take, drop, is_neg, pos, Bytes, codes, bytes_eq, has_byte,
}
use fastpysgi.Request.Reset.{reset_head_buffer}
use fastpysgi.Request.Environ.{set_header_v}
use fastpysgi.Common.Ascii.{ascii_to_lower, ascii_to_upper}
use fastpysgi.Client.{Client, is_asgi, Srv, Codecs, msg_headers}
use fastpysgi.Request.{Verdict, proceed, abort, no_body}
use fastpysgi.Request.Url.{Parser, with_error, or_fail}

abbrev pub prefix_len : Client → ℕ
prefix_len c = if is_asgi c then 0 else 5

abbrev with_lens : ℕ → ℕ → Client → Client
with_lens key val c = record c {
  request = record (c.request) { current_key_len = key; current_val_len = val };
}

unfoldable pub on_header_field : Bytes → Client → Verdict × Client
on_header_field chunk c =
    let prefixed = c.request.current_key_len == 0 && not (is_asgi c) in
    let start = if prefixed then c.head ++ codes "HTTP_" else c.head in
    let key = if prefixed then 5 else c.request.current_key_len in
    if length chunk == 0
    then (proceed, c)
    else if leb 32768 (length c.head + length chunk)
    then (abort, with_error 431 c)
    else (proceed, with_lens (key + length chunk) 0 (record c { head = start ++ chunk }))

-- one byte of a field name: ASGI may lower its case; WSGI has `_` for `-`, and upper case
unfoldable pub name_byte : Bool → Bool → ℕ → ℕ
unfolding ascii_to_lower ascii_to_upper
name_byte asgi lower b =
    if leb 127 b
    then b
    else if asgi
    then if lower then ascii_to_lower b else b
    else if b == b'-'
    then b'_'
    else ascii_to_upper b

unfoldable pub convert : Bool → Bool → Bytes → Bytes
unfolding name_byte
convert asgi lower [] = []
convert asgi lower (b ∷ bs) = name_byte asgi lower b ∷ convert asgi lower bs

-- A name with an underscore is dropped: it could pass for another header (CVE-2015-0219).
unfoldable pub on_header_field_complete : Srv → Client → Verdict × Client
unfolding convert
on_header_field_complete srv c =
    let n = c.request.headers_num + 1 in
    let d = record c { request = record (c.request) { headers_num = n } } in
    let name = drop (prefix_len c) c.head in
    let finish =
      λ (h : Bytes). with_lens c.request.current_key_len 0 (record d { head = h ++ 0 ∷ [] }) in
    if ltb srv.max_headers_num n
    then (abort, with_error 431 d)
    else if leb (length c.head) (prefix_len c)
    then (proceed, finish c.head)
    else if has_byte b'_' name
    then (proceed, with_lens 0 0 (record d { head = [] }))
    else (
      proceed,
      finish (take (prefix_len c) c.head ++ convert (is_asgi c) srv.req_hdr_lower name),
    )

unfoldable pub on_header_value : Bytes → Client → Verdict × Client
on_header_value chunk c =
    let first = c.request.current_val_len == 0 in
    if length chunk == 0
    then (proceed, c)
    else if first && c.request.current_key_len == 0
    then (proceed, c)
    else if first && not (c.request.current_key_len + 1 == length c.head)
    then (abort, with_error 1 c)
    else if leb 32768 (length c.head + length chunk)
    then (abort, with_error 431 c)
    else (
      proceed,
      with_lens c.request.current_key_len (c.request.current_val_len + length chunk)
          (record c { head = c.head ++ chunk }),
    )

pub data HeaderName : Type 0 where
  hn_unknown hn_content_length hn_content_type hn_transfer_encoding hn_expect hn_host : HeaderName

-- `strcasecmp`
unfoldable pub same_name : Bytes → Bytes → Bool
unfolding ascii_to_lower
same_name a b = bytes_eq (map ascii_to_lower a) (map ascii_to_lower b)

unfoldable pub header_name_asgi : Bytes → HeaderName
unfolding same_name
header_name_asgi key =
    if same_name key (codes "CONTENT-LENGTH")
    then hn_content_length
    else if same_name key (codes "CONTENT-TYPE")
    then hn_content_type
    else if same_name key (codes "TRANSFER-ENCODING")
    then hn_transfer_encoding
    else if same_name key (codes "EXPECT")
    then hn_expect
    else if same_name key (codes "HOST")
    then hn_host
    else hn_unknown

unfoldable pub header_name_wsgi : Bytes → HeaderName
header_name_wsgi key =
    if bytes_eq key (codes "HTTP_CONTENT_LENGTH")
    then hn_content_length
    else if bytes_eq key (codes "HTTP_CONTENT_TYPE")
    then hn_content_type
    else if bytes_eq key (codes "HTTP_TRANSFER_ENCODING")
    then hn_transfer_encoding
    else if bytes_eq key (codes "HTTP_EXPECT")
    then hn_expect
    else if bytes_eq key (codes "HTTP_HOST")
    then hn_host
    else hn_unknown

-- What the name asks for before the value is stored: stop, store nothing, or store under a name.
pub data Special : Type 0 where
  refuse : ℕ → Special
  hide : Special
  store_as : Bytes → Special

-- The tests on the special headers, with the name `key` and its prefix of `n` bytes.
unfoldable pub special : HeaderName → Parser → ℕ → Bytes → Bytes → Special
special hn_unknown p n key val = store_as key
special hn_host p n key val = store_as key
special hn_content_length p n key val = store_as (drop n key)
special hn_content_type p n key val = store_as (drop n key)
special hn_transfer_encoding p n key val = if bytes_eq val (codes "chunked") then hide else refuse 1
special hn_expect p n key val =
    if not (bytes_eq val (codes "100-continue"))
    then refuse 417
    else if p.http_minor == 0
    then refuse 417
    else hide

-- the flags of the request that a special header sets
unfoldable pub mark : HeaderName → Client → Client
mark hn_content_length c = record c { request = record (c.request) { http_content_length = pos 0 } }
mark hn_transfer_encoding c = record c { request = record (c.request) { chunked = true } }
mark hn_expect c = record c { request = record (c.request) { expect_continue = true } }
mark _ c = c

abbrev is_host : HeaderName → Bool
is_host hn_host = true
is_host _ = false

abbrev present {ℓ} : {A : Type ℓ} → Option A → Bool
present none = false
present (some a) = true

-- A Host header may come once, and holds no list, user name or path.
unfoldable pub bad_host : Client → Bytes → Bool
bad_host c val =
    present c.request.host
    || length val == 0
    || has_byte b',' val
    || has_byte b'@' val
    || has_byte b'/' val

module _ (codecs : Codecs) (srv : Srv) where
  store_host : Bytes → Client → Verdict × Client
  unfolding bad_host reset_head_buffer
  store_host val c = if bad_host c val then (abort, with_error 400 c) else (
    proceed,
    reset_head_buffer
        (record c { request = record (c.request) { host = some (codecs.utf8_ignore val) } }),
  )

  store_header : HeaderName → Bytes → Bytes → Client → Verdict × Client
  unfolding store_host reset_head_buffer
  store_header name key val c =
      or_fail (set_header_v codecs srv c key val)
        (λ d. if is_host name then store_host val d else (proceed, reset_head_buffer d))

  complete_header : HeaderName → Parser → Bytes → Bytes → Client → Verdict × Client
  unfolding special mark store_header reset_head_buffer
  complete_header name p key val c = elim (special name p (prefix_len c) key val) [
    | refuse e ↦ (abort, with_error e c)
    | hide ↦ (proceed, reset_head_buffer (mark name c))
    | store_as k ↦ store_header name k val (mark name c)
  ]

  unfoldable pub on_header_value_complete : Parser → Client → Verdict × Client
  unfolding complete_header header_name_asgi header_name_wsgi
  on_header_value_complete p c =
      let key = take c.request.current_key_len c.head in
      let val = take c.request.current_val_len (drop (c.request.current_key_len + 1) c.head) in
      let name = if is_asgi c then header_name_asgi key else header_name_wsgi key in
      if leb c.request.current_key_len (prefix_len c)
      then (proceed, c)
      else complete_header name p key val c

-- The limits on the announced length. With `Expect` the request is read as one without a body, and
-- refused when it is complete. `send_continue` sends the status 100 and tells whether that worked.
unfoldable pub on_headers_complete :
    Srv → (Client → Bool × Client) → Parser → Client → Verdict × Client
unfolding reset_head_buffer
on_headers_complete srv send_continue p c =
    let d =
      reset_head_buffer (record c { request = record (c.request) { load_state = msg_headers } }) in
    let length_known = record d {
      request = record (d.request) {
        http_content_length =
            if is_neg d.request.http_content_length
            then d.request.http_content_length
            else pos p.content_length;
      };
    } in
    let (sent, after) = send_continue length_known in
    if not (present c.request.host)
    then (
      abort,
      with_error 400 (record c { request = record (c.request) { load_state = msg_headers } }),
    )
    else if ltb srv.max_content_length p.content_length
    then if c.request.expect_continue then (no_body, with_error 417 d) else (abort, with_error 1 d)
    else if not c.request.expect_continue
    then (proceed, length_known)
    else if sent
    then (proceed, record after { request = record (after.request) { expect_continue = false } })
    else (abort, with_error 1 after)

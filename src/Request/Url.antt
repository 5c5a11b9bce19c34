-- ===== src/Request/Url.antt =====
-- The callbacks of fastwsgi/request.c for the request line.
use fastpysgi.Base.{
  ℕ, ◌+◌, Bool, true, false, not, ◌&&◌, none, some, [], ◌∷◌, ◌++◌, ltb, leb, ◌==◌, if◌then◌else◌,
  length, ℤ, neg, is_zero, pos, negsuc, Bytes, codes, bytes_eq, has_byte,
}
use fastpysgi.Client.{
  is_sending, Method, Client, Srv, Codecs, msg_begin, msg_url, http_pri, http_options, http_connect,
}
use fastpysgi.Request.{Verdict, proceed, abort}
use fastpysgi.Request.Reset.{reset_head_buffer, reset_wsgi_input, reset_response_body}
use fastpysgi.Request.Environ.{set_header, path_info, query_string}

-- What the callbacks read of the parser: `parser->method` and its fellows, the answer of
-- `llhttp_should_keep_alive` and the name of the method.
pub record Parser : Type 0 where
  pub method : Method
  pub method_name : Bytes
  pub is_request : Bool
  pub http_major : ℕ
  pub http_minor : ℕ
  pub content_length : ℕ
  pub should_keep_alive : Bool

abbrev pub with_error : ℕ → Client → Client
with_error e c = record c { error = e }

-- `asgi_init` of fastwsgi/asgi.c
pub asgi_init : Srv → Client → Client
asgi_init srv c =
    if srv.asgi_app
    then record c { asgi = some (record { entries = srv.def_scope; headers = [] }) }
    else c

-- the fields that a new request sets, before the guard on the client state
begin_times : ℕ → Client → Client
begin_times now c = record c {
  request = record (c.request) { start_time = now; update_time = now; load_state = msg_begin };
  response = record (c.response) { last_chunk_time = 0 };
  error = 0;
}

-- the fields that a new request sets, behind the guard
begin_request : Srv → Client → Client
begin_request srv c = record c {
  request = record (c.request) {
    headers = if srv.asgi_app then c.request.headers else some srv.def_env;
    http_content_length = neg 1;
    chunked = false;
    expect_continue = false;
    headers_num = 0;
    method = http_pri;
    host = none;
  };
}

unfoldable pub on_message_begin : Srv → ℕ → Client → Verdict × Client
unfolding begin_times begin_request reset_wsgi_input reset_head_buffer reset_response_body asgi_init
on_message_begin srv now c =
    let d = begin_times now c in
    let e = reset_response_body (reset_head_buffer (reset_wsgi_input (begin_request srv d))) in
    let f = record e { response = record (e.response) { wsgi_content_length = neg 1 } } in
    if is_sending c.state
    then (abort, with_error 1 d)
    else (proceed, if srv.asgi_app then asgi_init srv f else f)

abbrev is_connect : Method → Bool
is_connect http_connect = true
is_connect _ = false

-- CONNECT is refused with 501.
unfoldable pub on_method_complete : Parser → Client → Verdict × Client
on_method_complete p c =
    let d = record c { request = record (c.request) { method = p.method } } in
    if is_connect p.method then (abort, with_error 501 d) else (proceed, d)

-- A URL of 16 KiB or more is refused with 414.
unfoldable pub on_url : Bytes → Client → Verdict × Client
on_url chunk c =
    if length chunk == 0
    then (proceed, c)
    else if leb 16384 (length c.head + length chunk)
    then (abort, with_error 414 c)
    else (proceed, record c { head = c.head ++ chunk })

-- `memchr(path, '?', path_len)`: what stands before the first `?`, and what behind it
unfoldable pub before_query : Bytes → Bytes
before_query [] = []
before_query (x ∷ xs) = if x == b'?' then [] else x ∷ before_query xs

unfoldable pub after_query : Bytes → Bytes
after_query [] = []
after_query (x ∷ xs) = if x == b'?' then xs else after_query xs

abbrev is_options : Method → Bool
is_options http_options = true
is_options _ = false

-- `client->error = (hr < 0) ? HTTP_STATUS_BAD_REQUEST : hr`
abbrev pub status_of : ℤ → ℕ
status_of (pos n) = n
status_of (negsuc n) = 400

-- The result of a `set_header` call: go on at 0, else stop with a status.
unfoldable pub or_fail : ℤ × Client → (Client → Verdict × Client) → Verdict × Client
or_fail (hr, c) next = if is_zero hr then next c else (abort, with_error (status_of hr) c)

module _ (codecs : Codecs) (srv : Srv) where
  url_query : Bytes → Client → Verdict × Client
  unfolding or_fail
  url_query query c =
      if length query == 0
      then (proceed, c)
      else or_fail (set_header codecs srv c query_string query) (λ d. (proceed, d))

  url_parts : Parser → Bytes → Bytes → Client → Verdict × Client
  unfolding url_query or_fail
  url_parts p path query c =
      if length path == 0
      then (abort, with_error 400 c)
      else if not (is_options p.method) && has_byte b'*' path
      then (abort, with_error 400 c)
      else or_fail (set_header codecs srv c path_info path) (url_query query)

  -- The URL is split at the first `?`; the head buffer is reset on every way out.
  unfoldable pub on_url_complete : Parser → Client → Verdict × Client
  unfolding url_parts before_query after_query
  on_url_complete p c =
      let d = record c { request = record (c.request) { load_state = msg_url } } in
      let (verdict, e) =
        if has_byte b'#' c.head
        then (abort, with_error 400 d)
        else url_parts p (before_query c.head) (after_query c.head) d in
      (verdict, reset_head_buffer e)

unfoldable pub on_protocol : Bytes → Client → Verdict × Client
on_protocol chunk c =
    if length chunk == 0
    then (proceed, c)
    else if ltb 4 (length c.head + length chunk)
    then (abort, with_error 400 c)
    else (proceed, record c { head = c.head ++ chunk })

-- `strncmp(head.data, "HTTP", 4) == 0` on a head of 1 to 4 bytes: all four must agree.
unfoldable pub on_protocol_complete : Parser → Client → Verdict × Client
unfolding reset_head_buffer
on_protocol_complete p c =
    if not (bytes_eq c.head (codes "HTTP"))
    then (abort, with_error 400 c)
    else if not p.is_request
    then (abort, with_error 400 c)
    else (proceed, reset_head_buffer c)

-- Versions other than 1.x are refused with 505.
unfoldable pub on_version_complete : Parser → Client → Verdict × Client
on_version_complete p c = if p.http_major == 1 then (proceed, c) else (abort, with_error 505 c)

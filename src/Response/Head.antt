-- ===== src/Response/Head.antt =====
-- `build_response` and its callers (fastwsgi/request.c): the head of a response, byte by byte. The
-- names of the status codes and the date come from outside.
use fastpysgi.Base.{
  ℕ, code, Bool, true, false, not, ◌&&◌, ◌||◌, Option, none, some, List, [], ◌∷◌, ◌++◌, map, ltb,
  leb, ◌==◌, if◌then◌else◌, length, take, ℤ, neg, is_neg, is_zero, is_pos, pos_part, int_eq, pos,
  negsuc, Bytes, int_max, codes,
}
use fastpysgi.Base.Print.{decimal, upper_hex}
use fastpysgi.Common.Ascii.{ascii_to_lower}
use fastpysgi.Client.{Method, is_head, Client, Srv}
use fastpysgi.Request.Header.{same_name}
use fastpysgi.Request.Reset.{reset_head_buffer, reset_response_body}
use fastpysgi.Response.Body.{
  Item, WsgiBody, generator_mark, wsgi_iterator_get_next_chunk, wsgi_body_preload,
  is_content_length, with_content_length, get_info_from_wsgi_response, bytes_body, generator,
  iterator, not_iterable,
}

abbrev pub Header : Type 0
Header = Bytes × Bytes

abbrev pub crlf : Bytes
crlf = 13 ∷ 10 ∷ []

-- `xbuf_add_HDR`: lower case if the server is set to it
unfoldable pub hdr : Srv → Bytes → Bytes
unfolding ascii_to_lower
hdr srv bs = if srv.resp_hdr_lower then map ascii_to_lower bs else bs

-- A header of the application that the server writes itself is skipped.
unfoldable pub is_skipped : Bytes → Bool
unfolding is_content_length same_name
is_skipped key = is_content_length key || same_name key (codes "Connection")

abbrev is_server : Bytes → Bool
is_server key = same_name key (codes "Server")

abbrev is_date : Bytes → Bool
is_date key = same_name key (codes "Date")

-- the line of one header; a Server header has the server's own name in front
unfoldable pub header_line : Srv → Header → Bytes
unfolding hdr same_name
header_line srv (k, v) =
    hdr srv k
    ++ codes ": "
    ++ (if is_server k && ltb 0 (length srv.header_server)
        then srv.header_server ++ codes " "
        else [])
    ++ v
    ++ crlf

unfoldable pub header_lines : Srv → List Header → Bytes
unfolding header_line is_skipped
header_lines srv [] = []
header_lines srv ((k, v) ∷ hs) =
    (if is_skipped k then [] else header_line srv (k, v)) ++ header_lines srv hs

unfoldable pub any_key : (Bytes → Bool) → List Header → Bool
any_key p [] = false
any_key p ((k, v) ∷ hs) = p k || any_key p hs

-- The lines that the server adds: Date and Server unless the application sent them, Connection always.
unfoldable pub server_lines : Srv → Bytes → Bool → List Header → Bytes
unfolding hdr any_key same_name
server_lines srv date keep hs =
    (if not (any_key is_date hs) && srv.add_header_date
      then hdr srv (codes "Date: ") ++ date ++ crlf
      else [])
    ++ (if not (any_key is_server hs) && ltb 0 (length srv.header_server)
        then hdr srv (codes "Server: ") ++ srv.header_server ++ crlf
        else [])
    ++ hdr srv (
        if keep && srv.allow_keepalive
        then codes "Connection: keep-alive"
        else codes "Connection: close")
    ++ crlf

-- `HTTP/1.1 %d %s\r\n`
unfoldable pub status_line : ℤ → Bytes → Bytes
status_line status name =
    codes "HTTP/1.1 " ++ decimal (pos_part status) ++ codes " " ++ name ++ crlf

-- the line of the length, for a size that is not negative
unfoldable pub length_line : Srv → ℤ → Bytes
unfolding hdr
length_line srv (pos n) = hdr srv (codes "Content-Length: " ++ decimal n) ++ crlf
length_line srv (negsuc n) = []

-- A status without a body, or an answer to HEAD.
unfoldable pub is_bodiless : ℤ → Method → Bool
is_bodiless status method = int_eq status (pos 204) || int_eq status (pos 304) || is_head method

abbrev set_body : Bytes → Client → Client
set_body b c = record c {
  response = record (c.response) {
    body = b ∷ [];
    body_preloaded_size = length b;
    body_total_size = pos (length b);
  };
}

abbrev pub push_head : Bytes → Client → Client
push_head bs c = record c { head = c.head ++ bs }

-- the end of a head with a length
unfoldable pub end_head : Srv → ℤ → Client → ℤ × Client
unfolding length_line
end_head srv size c =
    let d = push_head (length_line srv size ++ crlf) c in
    (
      pos (length d.head),
      record d { response = record (d.response) { headers_size = length d.head } },
    )

-- the end of a head in chunks: it has the size of the first chunk behind it
unfoldable pub end_chunked : Srv → Client → ℤ × Client
unfolding hdr
end_chunked srv c =
    let d = push_head (hdr srv (codes "Transfer-Encoding: chunked") ++ crlf ++ crlf) c in
    let e = push_head (upper_hex d.response.body_preloaded_size ++ crlf) d in
    if leb int_max c.response.body_preloaded_size then (neg 7, d) else (
      pos (length e.head),
      record e { response = record (e.response) { headers_size = length e.head } },
    )

-- The body that stays: none at size 0, or the text that the server itself sends.
unfoldable pub place_body : Option Bytes → ℤ → Client → Client
unfolding reset_response_body
place_body own size c =
    let d = if is_zero size then reset_response_body c else c in
    elim own [ none ↦ d | some b ↦ if is_pos size then set_body b (reset_response_body d) else d ]

-- what follows the header lines; `size` is the size of `own`, 0 for no body or -1 for the body at hand,
-- and the parser's method is taken to be that of the request
unfoldable pub finish_head : Srv → Method → Option Bytes → ℤ → Client → ℤ × Client
unfolding end_head end_chunked place_body reset_response_body
finish_head srv method own size c =
    let d = place_body own size c in
    if is_head method
    then end_head srv c.response.wsgi_content_length (reset_response_body c)
    else if not (c.response.chunked == 0)
    then end_chunked srv c
    else end_head srv d.response.body_total_size d

-- `build_response`: -3 for a status without a name
unfoldable pub build_response :
    Srv
    → (ℤ → Option Bytes)
    → Bytes
    → Bool
    → ℤ
    → List Header
    → Option Bytes
    → ℤ
    → Client
    → ℤ × Client
unfolding is_bodiless status_line header_lines server_lines finish_head reset_head_buffer
    reset_response_body
build_response srv status_name date keep status hs body size c =
    let bodiless = is_bodiless status c.request.method in
    let d = if bodiless then reset_response_body (reset_head_buffer c) else reset_head_buffer c in
    elim (status_name status) [
      | none ↦ (neg 3, d)
      | some name ↦ finish_head srv c.request.method body (if bodiless then pos 0 else size) (
          push_head
            (status_line status name ++ header_lines srv hs ++ server_lines srv date keep hs) d)
    ]

-- What `start_response` recorded: the status text and the headers.
pub record StartResponse : Type 0 where
  pub status : Bytes
  pub headers : List Header

module _ (srv : Srv) (strtoll : Bytes → ℤ) where
  -- A generator is started: its first chunk is kept aside before the headers are looked at.
  unfoldable pub start_generator : List Item → Client → Bool × Client × List Item
  unfolding wsgi_iterator_get_next_chunk
  start_generator items c =
      let (got, d, rest) = wsgi_iterator_get_next_chunk c items in
      let first : List Bytes = elim got [ none ↦ [] | some b ↦ b ∷ [] ] in
      let size : ℕ = elim got [ none ↦ 0 | some b ↦ length b ] in
      let kept = record d {
        response = record (d.response) {
          body = first;
          body_total_size = generator_mark;
          body_preloaded_size = size;
        };
      } in
      elim got [
        | none ↦ if d.error == 0 then (true, kept, rest) else (false, d, rest)
        | some b ↦ (true, kept, rest)
      ]

  unfoldable pub failed_response : Client → Client
  unfolding reset_head_buffer reset_response_body
  failed_response c =
      let d = reset_response_body (reset_head_buffer c) in
      record d { request = record (d.request) { headers = none } }

  -- the headers and the preloading, once there is an iterator
  unfoldable pub prepare_body :
      Bool → WsgiBody → List Item → List Header → Client → ℕ × Client × List Item
  unfolding get_info_from_wsgi_response wsgi_body_preload failed_response
  prepare_body filelike body items hs c =
      let (bad, d) = get_info_from_wsgi_response strtoll hs c in
      let (code, e, rest) = wsgi_body_preload srv.max_chunk_size filelike body items d in
      if not (is_zero bad)
      then (500, failed_response d, items)
      else if is_neg code
      then (500, failed_response e, rest)
      else (0, e, rest)

  -- `process_wsgi_response`: 0 or the status 500, with the items that are left to send
  unfoldable pub process_wsgi_response :
      Bool → WsgiBody → List Header → Client → ℕ × Client × List Item
  unfolding start_generator prepare_body failed_response
  process_wsgi_response filelike (bytes_body b) hs c =
      prepare_body filelike (bytes_body b) [] hs (with_content_length (neg 1) c)
  process_wsgi_response filelike (iterator items) hs c =
      prepare_body filelike (iterator items) items hs (with_content_length (neg 1) c)
  process_wsgi_response filelike not_iterable hs c =
      (500, failed_response (with_content_length (neg 1) c), [])
  process_wsgi_response filelike (generator items) hs c =
      let (started, d, rest) = start_generator items (with_content_length (neg 1) c) in
      if started
      then prepare_body filelike (generator items) rest hs d
      else (500, failed_response d, rest)

-- `create_response`: the status is the number in front of the text (`atoi`), which has three bytes at
-- least. 0 or the status 500.
unfoldable pub create_response :
    Srv → (ℤ → Option Bytes) → (Bytes → ℤ) → Bytes → StartResponse → Client → ℕ × Client
unfolding build_response reset_head_buffer reset_response_body
create_response srv status_name atoi date r c =
    let (len, d) =
      if ltb (length r.status) 3
      then (neg 2, reset_head_buffer c)
      else build_response srv status_name date c.request.keep_alive (atoi (take 3 r.status))
          r.headers none (neg 1) c in
    let bad = not (is_pos len) in
    let e = if bad then reset_response_body (reset_head_buffer d) else d in
    (if bad then 500 else 0, record e { request = record (e.request) { headers = none } })

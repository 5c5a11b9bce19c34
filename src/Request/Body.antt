-- ===== src/Request/Body.antt =====
-- The callbacks of fastwsgi/request.c for the body and the end of a request. The input stream is the
-- list of its bytes; `bytesio_write` is what writing at the stream's position gives, which follows
-- the bytes written before because each request starts by seeking to 0.
use fastpysgi.Base.{
  ℕ, ◌+◌, Bool, not, ◌&&◌, Option, none, some, [], ◌++◌, ltb, ◌==◌, if◌then◌else◌, length, take,
  drop, is_neg, int_eq, pos, Bytes, codes,
}
use fastpysgi.Base.Print.{decimal}
use fastpysgi.Client.{Client, Srv, set_item, Codecs, msg_body, msg_end, ls_ok, stream}
use fastpysgi.Request.{Verdict, proceed, abort, pause}
use fastpysgi.Request.Environ.{set_header, request_method, remote_addr, content_length_key}
use fastpysgi.Request.Url.{Parser, with_error}

-- The stream after a write at the position `at`: bytes of an older request stay behind it until the
-- stream is truncated.
unfoldable pub bytesio_write : Bytes → ℕ → Bytes → Bytes
bytesio_write old at new = take at old ++ new ++ drop (at + length new) old

abbrev pub stream_bytes : Option Bytes → Bytes
stream_bytes none = []
stream_bytes (some s) = s

-- `wsgi_input_size` as the write finds it: a stream that is made now starts at 0
abbrev pub body_start : Client → ℕ
body_start c = elim (c.request.wsgi_input) [ none ↦ 0 | some s ↦ c.request.wsgi_input_size ]

-- The body may not grow beyond the limit, announced or not. The write into the stream is taken to
-- succeed.
unfoldable pub on_body : Srv → Bytes → Client → Verdict × Client
unfolding bytesio_write
on_body srv chunk c =
    let d = record c { request = record (c.request) { load_state = msg_body } } in
    let start = body_start c in
    let opened = record d {
      request = record (d.request) {
        wsgi_input = some (stream_bytes c.request.wsgi_input);
        wsgi_input_size = start;
      };
    } in
    let size = start + length chunk in
    let written = record opened {
      request = record (opened.request) {
        wsgi_input = some (bytesio_write (stream_bytes c.request.wsgi_input) start chunk);
        wsgi_input_size = size;
      };
    } in
    if length chunk == 0
    then (proceed, d)
    else if ltb srv.max_content_length size
    then (abort, with_error 1 opened)
    else if c.error == 0
    then (proceed, written)
    else (abort, written)

-- The first lines of on_message_complete.
abbrev pub ended : Parser → Client → Client
ended p c = record c {
  request = record (c.request) {
    load_state = msg_end;
    start_time = 0;
    update_time = 0;
    keep_alive = p.should_keep_alive;
  };
}

-- the input stream cut to the size of this request's body
abbrev pub truncated : Client → Bytes
truncated c =
    if c.request.wsgi_input_size == 0
    then []
    else take c.request.wsgi_input_size (stream_bytes c.request.wsgi_input)

-- `wsgi.input` enters the environ, if there is one.
unfoldable pub set_input : Client → Client
set_input c = record c {
  request = record (c.request) {
    wsgi_input =
        if c.request.wsgi_input_size == 0 then c.request.wsgi_input else some (truncated c);
    headers = elim (c.request.headers) [
      | none ↦ none
      | some d ↦ some (set_item d (codes "wsgi.input") (stream (truncated c)))
    ];
  };
}

-- The announced and the received length of the body differ.
unfoldable pub bad_length : Client → Bool
bad_length c =
    not (is_neg c.request.http_content_length)
    && not (int_eq (pos c.request.wsgi_input_size) c.request.http_content_length)

module _ (codecs : Codecs) (srv : Srv) where
  -- the values that the server adds; the results of these calls are not looked at
  unfoldable pub set_server_values : Parser → Bytes → Client → Client
  unfolding set_header
  set_server_values p remote c =
      let d = (set_header codecs srv c request_method p.method_name).1 in
      let e = if length remote == 0 then d else (set_header codecs srv d remote_addr remote).1 in
      if e.request.chunked && is_neg e.request.http_content_length
      then (set_header codecs srv e content_length_key (decimal e.request.wsgi_input_size)).1
      else e

  unfoldable pub on_message_complete : Parser → Bytes → Client → Verdict × Client
  unfolding set_server_values set_input bad_length
  on_message_complete p remote c =
      let d = ended p c in
      let e = set_server_values p remote (set_input d) in
      if not (c.error == 0)
      then if c.request.expect_continue && c.error == 417 then (pause, d) else (abort, d)
      else if bad_length c
      then (abort, with_error 1 d)
      else (pause, record e { request = record (e.request) { load_state = ls_ok } })

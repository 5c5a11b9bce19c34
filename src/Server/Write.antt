-- ===== src/Server/Write.antt =====
-- stream_write and write_cb of fastwsgi/server.c: a response goes out, one write at a time.
pub mod Chunks
use fastpysgi.Base.{
  ℕ, ◌+◌, Bool, true, false, not, ◌&&◌, ◌||◌, none, some, List, [], ◌∷◌, ◌++◌, ltb, ◌==◌,
  if◌then◌else◌, length, take, int_eq, int_lt, pos, Bytes, u32, codes,
}
use fastpysgi.Base.Print.{upper_hex}
use fastpysgi.Client.{
  is_sending, Action, Client, Srv, resp_bild, resp_send, resp_sended, resp_end, destroy, ca_ok,
  ca_shutdown,
}
use fastpysgi.Request.Reset.{reset_response_preload, reset_response_body}
use fastpysgi.Response.Body.{Item, wsgi_iterator_get_next_chunk}
use fastpysgi.Server.{Effect, read_stop, close, retry_read, writing}
use fastpysgi.Server.Status.{with_state, is_freezed, stream_read_start}

-- what is sent of a chunk: its length is cast to `unsigned int`
unfoldable pub cut : Bytes → Bytes
cut b = take (u32 (length b)) b

unfoldable pub join_cut : List Bytes → Bytes
join_cut [] = []
join_cut (b ∷ bs) = cut b ++ join_cut bs

-- the buffers of one write: head, preloaded chunks, and the line end of a chunk
unfoldable pub wire : Client → Bytes
unfolding join_cut
wire c =
    (if ltb 0 c.response.headers_size then c.head else [])
    ++ (if ltb 0 c.response.body_preloaded_size then join_cut c.response.body else [])
    ++ (if c.response.chunked == 1 then codes "\r\n" else [])

-- `stream_write`, with the answer of `uv_write`. A head whose recorded size is wrong is not sent.
unfoldable pub stream_write : Bool → Client → Action × Client × List Effect
unfolding wire
stream_write uv_ok c =
    if is_sending c.state
    then (ca_shutdown, with_state destroy c, [])
    else if ltb 0 c.response.headers_size && not (c.response.headers_size == length c.head)
    then (ca_ok, c, [])
    else if uv_ok
    then (ca_ok, with_state resp_send c, read_stop ∷ writing (wire c) ∷ [])
    else (ca_shutdown, with_state destroy c, read_stop ∷ writing (wire c) ∷ [])

abbrev pub is_ok : Action → Bool
is_ok ca_ok = true
is_ok _ = false

-- what the handlers of a finished write get from outside
pub record WriteEvent : Type 0 where
  pub status_ok : Bool
  pub now : ℕ
  pub uv_write_ok : Bool
  pub uv_read_ok : Bool

abbrev pub stamp : ℕ → Client → Client
stamp now c = record c { response = record (c.response) { last_chunk_time = now } }

-- Behind `fin:` of write_cb for WSGI; the flag is `status < 0`.
unfoldable pub finish_write : Srv → WriteEvent → Bool → Client → Client × List Effect
unfolding reset_response_body stream_read_start
finish_write srv ev bad c =
    let d = with_state resp_end (reset_response_body c) in
    let (_, e, started) = stream_read_start ev.uv_read_ok d in
    if bad || not c.request.keep_alive || not srv.allow_keepalive
    then (with_state destroy c, close ∷ [])
    else if is_freezed c.rx.status
    then (d, retry_read ∷ [])
    else (e, started)

-- the head of one chunk: its size, which is cast to `int` and printed as `unsigned int`, and a line end
unfoldable pub chunk_head : Bytes → Bytes
chunk_head b = upper_hex (u32 (length b)) ++ codes "\r\n"

unfoldable pub load_chunk : Bytes → Client → Client
unfolding chunk_head
load_chunk b c = record c {
  head = if c.response.chunked == 0 then [] else chunk_head b;
  response = record (c.response) {
    headers_size = if c.response.chunked == 0 then 0 else length (chunk_head b);
    body = b ∷ [];
    body_preloaded_size = length b;
  };
}

abbrev pub load_last : Client → Client
load_last c = record c {
  head = codes "0\r\n\r\n";
  response = record (c.response) { headers_size = 5; chunked = 2 };
}

-- a write that write_cb makes itself: `FIN_if(hr, -1, status = -1)` on a refusal
unfoldable pub write_more : Srv → WriteEvent → Client → Client × List Effect
unfolding stream_write finish_write
write_more srv ev c =
    let (act, d, effects) = stream_write ev.uv_write_ok c in
    let (e, rest) = finish_write srv ev true d in
    if is_ok act then (d, effects) else (e, effects ++ rest)

-- The next chunk of the application, or the end of the response.
unfoldable pub next_write : Srv → WriteEvent → List Item → Client → Client × List Item × List Effect
unfolding wsgi_iterator_get_next_chunk finish_write write_more load_chunk
next_write srv ev items c =
    let (got, d, rest) =
      wsgi_iterator_get_next_chunk (record (with_state resp_bild c) { error = 0 }) items in
    let (ended, end_effects) =
      if not (d.error == 0)
      then finish_write srv ev true d
      else if d.response.chunked == 1
      then write_more srv ev (load_last d)
      else finish_write srv ev false d in
    elim got [
      | none ↦ (ended, rest, end_effects)
      | some b ↦ let (e, effects) = write_more srv ev (load_chunk b d) in (e, rest, effects)
    ]

-- the bytes of the write that has ended are counted
abbrev pub count_written : Client → Client
count_written c = record c {
  state = resp_sended;
  response = record (c.response) {
    body_total_written = c.response.body_total_written + c.response.body_preloaded_size;
  };
}

-- `write_cb` of a WSGI response. `status_ok` is false if the write failed; a failed write keeps the
-- connection open only by its sign: libuv's errors are negative, so it is closed.
unfoldable pub write_cb : Srv → WriteEvent → List Item → Client → Client × List Item × List Effect
unfolding reset_response_preload finish_write next_write
write_cb srv ev items c =
    let d = reset_response_preload (count_written c) in
    let written = pos d.response.body_total_written in
    let (failed, failed_effects) = finish_write srv ev true (reset_response_preload c) in
    let (over, over_effects) = finish_write srv ev true d in
    let (done, done_effects) = finish_write srv ev false (stamp ev.now d) in
    if not ev.status_ok
    then (failed, items, failed_effects)
    else if d.response.chunked == 2
    then (done, items, done_effects)
    else if d.response.chunked == 0 && int_lt d.response.body_total_size written
    then (over, items, over_effects)
    else if d.response.chunked == 0 && int_eq written d.response.body_total_size
    then (done, items, done_effects)
    else next_write srv ev items d

-- ===== src/Asgi/Send.antt =====
-- asgi_send of fastwsgi/asgi.c: the application's messages, in the order of the code's tests.
use fastpysgi.Base.{
  ℕ, ◌+◌, ◌⊎◌, inl, inr, Bool, true, false, not, ◌&&◌, none, some, List, [], ◌∷◌, ◌++◌, ltb, leb,
  ◌==◌, if◌then◌else◌, length, ℤ, neg, is_zero, int_lt, pos, Bytes, u32, codes,
}
use fastpysgi.Base.Print.{upper_hex}
use fastpysgi.Client.{is_destroy, Action, Client, resp_bild, destroy}
use fastpysgi.Response.Body.{max_preloaded_body_chunks, add_chunk}
use fastpysgi.Server.{Effect, start_timer}
use fastpysgi.Server.Status.{with_state}
use fastpysgi.Server.Write.{stream_write, is_ok}
use fastpysgi.Asgi.{AsgiHeaders, Asgi}
use fastpysgi.Asgi.Info.{asgi_get_info_from_response, Outside, asgi_build_response}

-- The object that is sent, by its `type`.
pub data Kind : Type 0 where
  not_dict no_type type_not_text response_start response_body other_type : Kind

-- The `status`, as the C `int` that it is read into.
pub data StatusField : Type 0 where
  no_status status_not_int : StatusField
  status_int : ℤ → StatusField

pub data BodyField : Type 0 where
  no_body body_not_bytes : BodyField
  body_bytes : Bytes → BodyField

pub record Message : Type 0 where
  pub kind : Kind
  pub status : StatusField
  pub headers : AsgiHeaders
  pub body : BodyField
  pub more_body : Bool

-- What `send` returns: an exception with its code, a new future, or the object itself.
pub data Sent : Type 0 where
  raises : ℤ → Sent
  awaits returns : Sent

abbrev pub Outcome : Type 0
Outcome = Sent × Asgi × Client × List Effect

-- behind `fin:` with an error: the connection is to be destroyed, by the timer
abbrev pub send_error : ℤ → Asgi → Client → Outcome
send_error hr a c = (raises hr, a, with_state destroy c, start_timer ∷ [])

-- the status behind its checks
abbrev pub check_status : StatusField → ℤ ⊎ ℤ
check_status no_status = inl (neg 4570031)
check_status status_not_int = inl (neg 4570032)
check_status (status_int s) =
    if int_lt s (pos 100)
    then inl (neg 4570037)
    else if int_lt (pos 999) s
    then inl (neg 4570038)
    else inr s

abbrev pub is_start : Kind → Bool
is_start response_start = true
is_start _ = false

abbrev pub with_send_status : ℤ → Asgi → Asgi
with_send_status s a = record a { send_status = s }

-- a message before the status is known
unfoldable pub send_start : Outside → Message → Asgi → Client → Outcome
unfolding asgi_get_info_from_response
send_start out m a c =
    let b = with_send_status (neg 1) a in
    if not (is_start m.kind) then send_error (neg 4570021) a c else elim (check_status m.status) [
      | inl e ↦ send_error e b c
      | inr s ↦
          let (err, d) = asgi_get_info_from_response out.strtoll m.headers c in
          if is_zero err
          then (returns, record (with_send_status s a) { start_response = some m.headers }, d, [])
          else send_error (neg 4570047) (with_send_status s a) d
    ]

-- `g_cv.footer_last_chunk`
abbrev pub footer_last_chunk : Bytes
footer_last_chunk = codes "\r\n0\r\n\r\n"

abbrev pub push_chunk : Bytes → Client → Client
push_chunk b c = record c { response = record (c.response) { body = c.response.body ++ b ∷ [] } }

-- The first body message: the whole body, or the begin of a chunked one.
unfoldable pub place_first : Bool → Bytes → Client → Client
place_first true [] c = record c {
  response = record (c.response) { body_total_size = pos 0; body_preloaded_size = 0 };
}
place_first true (b ∷ bs) c = record c {
  response = record (c.response) {
    body = (b ∷ bs) ∷ [];
    body_total_size = pos (length (b ∷ bs));
    body_preloaded_size = length (b ∷ bs);
  };
}
place_first false body c = record c { response = record (c.response) { chunked = 1; body = [] } }

-- The outcome of placing a chunk: an empty chunk is skipped.
pub data Placed : Type 0 where
  skipped : Placed
  refused : ℤ → Client → Placed
  placed : Client → Placed

-- the last chunk: it carries the footer, unless it is empty
unfoldable pub place_footer : Bool → Client → Placed
place_footer has_bytes c =
    let d = record c { response = record (c.response) { chunked = 2 } } in
    if not has_bytes
    then placed d
    else if leb max_preloaded_body_chunks (length c.response.body)
    then refused (neg 4570496) d
    else placed (push_chunk footer_last_chunk d)

-- the block under `if (chunked)`
unfoldable pub place_chunk : Bool → Bytes → Client → Placed
unfolding place_footer
place_chunk false [] c = skipped
place_chunk true [] c = place_footer false c
place_chunk latest (b ∷ bs) c =
    if leb max_preloaded_body_chunks (length c.response.body)
    then refused (neg 4570495) c
    else if latest
    then place_footer true (add_chunk (b ∷ bs) c)
    else placed (add_chunk (b ∷ bs) c)

-- the line of a size that is cast to `int`, or the end of a body if that is not above 0
unfoldable pub size_text : ℕ → Bytes
size_text size =
    let csize = u32 size in
    if ltb 0 csize && ltb csize 2147483648
    then upper_hex csize ++ codes "\r\n"
    else codes "0\r\n\r\n"

-- the line in front of the chunks of a message
abbrev pub size_line : Client → Bytes
size_line c = size_text c.response.body_preloaded_size

abbrev pub with_size_line : Client → Client
with_size_line c = record c {
  head = size_line c;
  response = record (c.response) { headers_size = length (size_line c) };
}

abbrev pub is_accepted : Action × Client × List Effect → Bool
is_accepted (act, d, effects) = is_ok act && not (is_destroy d.state)

-- the write and the future behind it
unfoldable pub send_write : Bool → Asgi → Client → Outcome
unfolding stream_write
send_write uv_ok a c =
    let (act, d, effects) = stream_write uv_ok c in
    if is_accepted (stream_write uv_ok c)
    then (awaits, record a { send_future = true }, d, effects)
    else (raises (neg 4570555), a, with_state destroy d, effects ++ start_timer ∷ [])

-- the write behind a head that was built; `a` has let go of its headers
unfoldable pub send_built : Bool → Asgi → ℤ × Client → Outcome
unfolding send_write
send_built uv_ok a (err, d) = if is_zero err then send_write uv_ok a d else send_error err a d

-- the head in front of the chunks, and the write
unfoldable pub send_placed : Outside → Bool → Asgi → Client → Outcome
unfolding asgi_build_response send_write send_built
send_placed out uv_ok a c = elim (a.start_response) [
  | some headers ↦
      send_built uv_ok (record a { start_response = none })
        (asgi_build_response out a.send_status headers c)
  | none ↦
      if c.response.chunked == 0
      then send_write uv_ok a c
      else send_write uv_ok a (with_size_line c)
]

-- what follows the placing
unfoldable pub send_chunk : Outside → Bool → Asgi → Placed → Client → Outcome
unfolding send_placed
send_chunk out uv_ok a skipped c = (returns, a, c, [])
send_chunk out uv_ok a (refused e d) c = send_error e a d
send_chunk out uv_ok a (placed d) c = send_placed out uv_ok a d

-- a body message of known bytes; `a` counts it already
unfoldable pub send_bytes : Outside → Bool → Bool → Bytes → Asgi → Client → Outcome
unfolding place_first place_chunk send_chunk send_placed
send_bytes out uv_ok latest body a c =
    let b = record a {
      body_size = a.body_size + length body;
      latest_chunk = if latest then true else a.latest_chunk;
    } in
    let d = if a.num_body == 1 then place_first latest body c else c in
    if d.response.chunked == 0
    then send_placed out uv_ok b d
    else send_chunk out uv_ok b (place_chunk latest body d) d

-- a body message
unfoldable pub send_body : Outside → Bool → Message → Asgi → Client → Outcome
unfolding send_bytes
send_body out uv_ok m a c =
    let b = record a { num_body = a.num_body + 1 } in
    let d = with_state resp_bild c in
    elim (m.body) [
      | no_body ↦ send_bytes out uv_ok (not m.more_body) [] b d
      | body_not_bytes ↦ send_error (neg 4570111) b d
      | body_bytes bytes ↦ send_bytes out uv_ok (not m.more_body) bytes b d
    ]

-- the events by their type, once the object has one
unfoldable pub send_event : Outside → Bool → Message → Asgi → Client → Outcome
unfolding send_start send_body
send_event out uv_ok m a c = if is_zero a.send_status then send_start out m a c else elim (m.kind) [
  | response_body ↦ if a.latest_chunk then (returns, a, c, []) else send_body out uv_ok m a c
  | not_dict ↦ send_error (neg 4570901) a c
  | no_type ↦ send_error (neg 4570901) a c
  | type_not_text ↦ send_error (neg 4570901) a c
  | response_start ↦ send_error (neg 4570901) a c
  | other_type ↦ send_error (neg 4570901) a c
]

-- `asgi_send`, with the answer of `uv_write`
unfoldable pub asgi_send : Outside → Bool → Message → Asgi → Client → Outcome
unfolding send_event
asgi_send out uv_ok m a c = elim (m.kind) [
  | not_dict ↦ send_error (neg 4570005) a c
  | no_type ↦ send_error (neg 4570011) a c
  | type_not_text ↦ send_error (neg 4570012) a c
  | response_start ↦ send_event out uv_ok m a c
  | response_body ↦ send_event out uv_ok m a c
  | other_type ↦ send_event out uv_ok m a c
]

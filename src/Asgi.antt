-- ===== src/Asgi.antt =====
-- fastwsgi/asgi.c: one request of an ASGI application, from its start to the end of its task. The
-- objects of asyncio are outside: a future is there or not, and what the event loop answers is an
-- argument. Allocations by Python do not fail.
pub mod Info
pub mod Send
pub mod Written
pub mod Stream
pub mod Empty
pub mod Neat
pub mod Outcomes
mod Tests
use fastpysgi.Base.{
  ℕ, Bool, true, false, not, ◌||◌, Option, none, List, [], ◌∷◌, ◌==◌, if◌then◌else◌, ℤ, pos, Bytes,
}
use fastpysgi.Client.{is_destroy, Client, destroy}
use fastpysgi.Request.Body.{stream_bytes}
use fastpysgi.Server.{Effect, start_timer, resolve_send, reject_send}
use fastpysgi.Server.Status.{with_state, is_freezed, stream_read_start}

-- One header of the application, a list or tuple: a name or value that is neither bytes nor text, or
-- that is not there, is `none`.
pub record HeaderItem : Type 0 where
  pub name : Option Bytes
  pub value : Option Bytes

-- The headers of `http.response.start`.
pub data AsgiHeaders : Type 0 where
  no_headers not_iterable : AsgiHeaders
  items : List HeaderItem → AsgiHeaders

-- `asgi_t`. A future is only there or not; `start_response` is kept for its headers.
pub record Asgi : Type 0 where
  pub recv_completed : Bool
  pub send_future : Bool
  pub send_status : ℤ
  pub start_response : Option AsgiHeaders
  pub num_body : ℕ
  pub body_size : ℕ
  pub latest_chunk : Bool

-- `create_asgi`: all zero
abbrev pub new_asgi : Asgi
new_asgi = record {
  recv_completed = false;
  send_future = false;
  send_status = pos 0;
  start_response = none;
  num_body = 0;
  body_size = 0;
  latest_chunk = false;
}

-- What `receive` gives to the application.
pub data Received : Type 0 where
  request_body : Bytes → Received
  pending failed : Received

-- `asgi_receive`, with the answer of asgi_future_set_result_soon (true: 0). The body is given once;
-- later calls get a future that nobody completes.
unfoldable pub asgi_receive : Bool → Asgi → Client → Received × Asgi
asgi_receive loop_ok a c =
    let body = if c.request.wsgi_input_size == 0 then [] else stream_bytes c.request.wsgi_input in
    if a.recv_completed
    then (pending, a)
    else if loop_ok
    then (request_body body, record a { recv_completed = true })
    else (failed, a)

-- `asgi_exec_send_future`, with the same answer of the loop: false closes the connection
unfoldable pub asgi_exec_send_future : Bool → Asgi → Bool × Asgi × List Effect
asgi_exec_send_future loop_ok a =
    if not a.send_future
    then (false, a, [])
    else if loop_ok
    then (true, record a { send_future = false }, resolve_send ∷ [])
    else (false, record a { send_future = false }, [])

-- `asgi_exec_send_future_as_exception`
unfoldable pub asgi_exec_send_future_as_exception : Asgi → Asgi × List Effect
asgi_exec_send_future_as_exception a =
    if a.send_future then (record a { send_future = false }, reject_send ∷ []) else (a, [])

-- `asgi_done`, for a connection that is still there; the flag says that the task has a result.
unfoldable pub asgi_done : Bool → Bool → Client → Client × List Effect
unfolding stream_read_start
asgi_done has_result uv_ok c =
    let d = record c { asgi = none } in
    let e = if has_result then d else with_state destroy d in
    let (_, f, effects) = stream_read_start uv_ok e in
    if is_freezed e.rx.status || is_destroy e.state then (e, start_timer ∷ []) else (f, effects)

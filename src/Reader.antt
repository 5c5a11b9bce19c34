-- ===== src/Reader.antt =====
-- read_cb of fastwsgi/server.c: bytes from the socket, or left in the buffer, go to the parser, and a
-- complete request goes to the application. The parser (llhttp with its callbacks) and the
-- application are outside. TLS is off.
pub mod Parse
pub mod Respond
pub mod Handler
pub mod Keep
pub mod Prepare
pub mod Progress
pub mod Bounds
pub mod Invariant
pub mod Drain
pub mod Calls
pub mod Plain
pub mod Refusal
mod Tests
use fastpysgi.Base.{
  ℕ, Bool, false, ◌&&◌, Option, none, List, [], ◌++◌, if◌then◌else◌, drop, ℤ, is_zero, pos, Bytes,
}
use fastpysgi.Client.{RxStatus, is_sending, Action, Client, Srv, ca_ok, ca_shutdown}
use fastpysgi.Server.{Effect}
use fastpysgi.Server.Status.{stream_read_start}
use fastpysgi.Server.Write.{stream_write}
use fastpysgi.Response.Body.{Item, WsgiBody}
use fastpysgi.Response.Head.{build_response, StartResponse}

-- the results of llhttp_execute that the code tells apart, with the parser's reason
pub data Errno : Type 0 where
  hpe_ok hpe_paused hpe_other : Errno
  hpe_invalid_version : Option Bytes → Errno

-- what llhttp_execute leaves, its callbacks included; the position counts from the first byte given
pub record Executed (P : Type 0) : Type 0 where
  pub errno : Errno
  pub error_pos : ℤ
  pub parser : P
  pub client : Client

pub record Llhttp (P : Type 0) : Type 0 where
  pub resume : P → P
  pub reset : P → P
  pub execute : P → Client → Bytes → Executed P

-- what the WSGI application does: it raises or gives no object, or it returns a body, file-like or
-- not, with what it gave to start_response
pub data WsgiReturn : Type 0 where
  failed : WsgiReturn
  returned : Bool → WsgiBody → StartResponse → WsgiReturn

-- how far the call of an ASGI application gets
pub data AsgiCall : Type 0 where
  no_methods not_called not_coroutine no_task no_callback created : AsgiCall

-- the rest of the program that read_cb talks to
pub record Host : Type 0 where
  pub srv : Srv
  pub status_name : ℤ → Option Bytes
  pub date : Bytes
  pub strtoll : Bytes → ℤ
  pub atoi : Bytes → ℤ
  pub wsgi_app : Client → WsgiReturn
  pub asgi_app : Client → AsgiCall

-- the answers of libuv and Python in one call
pub record Answers : Type 0 where
  pub now : ℕ
  pub notconn : Bool
  pub uv_shutdown_ok : Bool
  pub uv_read_ok : Bool
  pub uv_write_ok : Bool
  pub py_error : Bool

-- The state of one call: the parser, the connection, the items left of an iterated body, and what was
-- asked of libuv so far.
pub record Turn (P : Type 0) : Type 0 where
  pub parser : P
  pub client : Client
  pub items : List Item
  pub effects : List Effect

-- a step on the connection
abbrev pub step : {P : Type 0} → Turn P → Client × List Effect → Turn P
step t (c, es) = record t { client = c; effects = t.effects ++ es }

-- What `hr` and `err` are at `fin:`.
abbrev pub Verdict : Type 0 → Type 0
Verdict P = Action × ℤ × Turn P

abbrev pub with_rx_status : RxStatus → Client → Client
with_rx_status s c = record c { rx = record (c.rx) { status = s } }

abbrev pub with_parsed : ℕ → Client → Client
with_parsed n c = record c { rx = record (c.rx) { parsed_size = n } }

abbrev pub lock : Bool → Client → Client
lock b c = record c { request = record (c.request) { parser_locked = b } }

-- stream_read_start, whose result the callers ignore
unfoldable pub start_reading : Bool → Client → Client × List Effect
unfolding stream_read_start
start_reading uv_ok c = let (_, d, es) = stream_read_start uv_ok c in (d, es)

-- the bytes of the buffer that are still to be parsed
abbrev pub unparsed : Client → Bytes
unparsed c = drop c.rx.parsed_size c.rx.buf

-- build_response without headers and body, and stream_write, whose results the callers ignore
unfoldable pub send_plain : Host → Bool → Bool → ℤ → Client → Client × List Effect
unfolding build_response stream_write
send_plain host uv_ok keep status c =
    let (_, d) = build_response host.srv host.status_name host.date keep status [] none (pos 0) c in
    let (_, e, es) = stream_write uv_ok d in if is_sending c.state then (c, []) else (e, es)

abbrev or_status : ℕ → ℤ → ℤ
or_status status n = if is_zero n then pos status else n

-- `send_fatal`, without a text
unfoldable pub send_fatal : {P : Type 0} → Host → Answers → ℤ → Turn P → Action × Turn P
unfolding send_plain
send_fatal host ans status t =
    (ca_shutdown, step t (send_plain host ans.uv_write_ok false (or_status 400 status) t.client))

-- `send_error`, without a text
unfoldable pub send_error : {P : Type 0} → Host → Answers → ℤ → Turn P → Action × Turn P
unfolding send_plain
send_error host ans status t = (
  if t.client.request.keep_alive && host.srv.allow_keepalive then ca_ok else ca_shutdown,
  step t
      (send_plain host ans.uv_write_ok t.client.request.keep_alive (or_status 500 status) t.client),
)

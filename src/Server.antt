-- ===== src/Server.antt =====
-- fastwsgi/server.c: the connection handlers over libuv and the HTTP parser, whose answers enter as
-- arguments. TLS is off in these handlers.
pub mod Status
pub mod Write
pub mod Timeout
pub mod Options
pub mod Alloc
pub mod Accept
mod Tests
use fastpysgi.Base.{Bytes}

-- What a handler asks of libuv, in order. `writing` carries the bytes handed to `uv_write`.
pub data Effect : Type 0 where
  read_start read_stop close shutdown retry_read start_timer resolve_send reject_send : Effect
  writing : Bytes → Effect

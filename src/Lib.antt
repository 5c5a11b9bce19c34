-- ===== src/Lib.antt =====
-- A verification library for the C core of fastpysgi: an HTTP server for WSGI and ASGI
-- applications over libuv and llhttp.
--
-- How the program works. libuv hands bytes to the server (fastwsgi/server.c), llhttp splits them
-- and calls back (fastwsgi/request.c), the callbacks gather the head of a request in a buffer
-- (fastwsgi/xbuf.h), fill the environ or scope, and keep the body in a stream. The application is
-- called (with start_response, fastwsgi/start_response.c), its body is preloaded, the head of the
-- response is built, and write_cb sends the rest one write at a time. An ASGI application sends
-- messages (fastwsgi/asgi.c), each of which becomes a write. What waits in the read buffer is parsed
-- when a response is out. All of this works on one struct per connection (fastwsgi/server.h).
--
-- Files and code:
--   Base        Booleans, lists, machine words, blocks of memory and printed numbers
--   Common      fastwsgi/common.c and common.h: the percent decoder, the character helpers, the
--               readers of options and the date
--   StartResponse  fastwsgi/start_response.c: the callable of a WSGI application
--   XBuf        fastwsgi/xbuf.h: the growable buffer, with malloc as a parameter
--   Client      fastwsgi/server.h: `struct client` and the options of `struct srv`
--   Samples     a server and a connection for the tests
--   Request     fastwsgi/request.c: the callbacks of the parser, set_header and the reset helpers
--   Response    fastwsgi/request.c: wsgi_body_preload, build_response, process_wsgi_response,
--               create_response
--   Server      fastwsgi/server.c: connection_cb, close_cb, stream_write, write_cb, stream_read_start,
--               x_send_status, alloc_cb, client_aux_check and the options with bounds of init_server
--   Process     fastwsgi/server.c: init_server with its options, init_srv, run_server, run_nowait,
--               close_server, change_setting and the handlers of the signal and of the timer
--   Reader      fastwsgi/server.c: read_cb, read_timer_cb, send_fatal, send_error and the ends of a
--               connection, with llhttp and the application as parameters
--   Asgi        fastwsgi/asgi.c: asgi_send, asgi_receive, asgi_done and the end of their writes
--   Aio         fastwsgi/asgi.c: uni_loop, aio_loop_call, aio_loop_run and asyncio_load_cfg
--   Tls         fastwsgi/tls.c: the handshake, reading, writing, the contexts and their clients, with
--               OpenSSL as a parameter; fastwsgi/libssl.c: the loading of the library on POSIX; the
--               part of read_cb (fastwsgi/server.c) that hands bytes to TLS
--   Lifespan    fastwsgi/lifespan.c: the calls of an ASGI application while it starts and stops, and
--               the start and the stop themselves, which run the loop until a future is done
--
-- A function of the code keeps its name. It takes the connection as a record and returns the new
-- record with its result; what it asks of libuv is a list of effects in order. An error number is
-- the code's own. Python objects enter as data: bytes are lists of numbers, an iterator is the list
-- of what it will yield, a dictionary is a list of pairs. Parameters stand for what is not under the
-- repository's sources: Python's codecs, malloc, strtoll, atoi, the names of the status codes, the
-- date, and the answers of libuv.
--
-- Bounds and fuel. Numbers of a fixed width wrap with `u64` and `u32`. The decoder's loop has fuel
-- for one round more than its input has bytes, and every round reads at least one. The preloading
-- loop has fuel for 50 rounds, and it stops at 49 chunks. Printing a number has fuel above the
-- number itself, and every digit makes it smaller. The rounds over requests that wait in the read
-- buffer have one unit of fuel for each byte that waits, and the loops of TLS around SSL_read and
-- SSL_write one more than the bytes that are free or left. The loop that drains OpenSSL's output has
-- INT_MAX / 2 less the bytes held, and two more: each round adds a byte or ends the loop, which stops
-- at that size. A call of uni_loop makes at most 151 rounds of libuv.
--
-- Not modelled: asyncio_init, asyncio_free and lifespan_init, what asyncio does with a task, the
-- parsing of what TLS decrypts, the writes of write_cb and stream_write over TLS, tls_shutdown and
-- tls_find_app_pkt, the loading of OpenSSL on Windows, the workarounds of pyhacks.c, socket options and
-- the text of a remote address, logging, and the module's glue. Allocations by Python and writes
-- into its streams do not fail, the parser's method is that of the request, and reference counts are
-- tracked in StartResponse only.
pub mod Base
pub mod Common
pub mod XBuf
pub mod Client
pub mod Samples
pub mod Request
pub mod Response
pub mod Server
pub mod StartResponse
pub mod Tls
pub mod Reader
pub mod Asgi
pub mod Lifespan
pub mod Aio
pub mod Process

-- ===== src/Asgi/Written.antt =====
-- The branch of write_cb (fastwsgi/server.c) for an ASGI request: the write of one message has ended.
use fastpysgi.Base.{
  Bool, not, ◌&&◌, ◌||◌, List, [], ◌∷◌, ◌++◌, ◌==◌, if◌then◌else◌, int_eq, int_lt, pos,
}
use fastpysgi.Client.{Client, Srv, resp_bild, resp_send, resp_end, destroy}
use fastpysgi.Request.Reset.{reset_head_buffer, reset_response_preload, reset_response_body}
use fastpysgi.Server.{Effect, close}
use fastpysgi.Server.Status.{with_state}
use fastpysgi.Server.Write.{WriteEvent, stamp, count_written}
use fastpysgi.Asgi.{Asgi, asgi_exec_send_future, asgi_exec_send_future_as_exception}

abbrev pub Ended : Type 0
Ended = Asgi × Client × List Effect

-- behind `fin:`, a write that failed
finish_bad : Asgi → Client → Ended
unfolding asgi_exec_send_future_as_exception reset_head_buffer
finish_bad a c =
    let (b, effects) = asgi_exec_send_future_as_exception a in
    (b, with_state destroy (reset_head_buffer (with_state resp_bild c)), effects ++ close ∷ [])

-- behind `fin:`, a write that succeeded
finish_asgi : Srv → WriteEvent → Bool → Asgi → Client → Ended
unfolding asgi_exec_send_future reset_head_buffer reset_response_body
finish_asgi srv ev loop_ok a c =
    let d = reset_head_buffer (with_state resp_bild c) in
    let (found, b, effects) = asgi_exec_send_future loop_ok a in
    let closing = not c.request.keep_alive || not srv.allow_keepalive in
    if not found
    then (b, with_state destroy d, effects ++ close ∷ [])
    else if not a.latest_chunk
    then (b, with_state resp_send d, effects)
    else if closing
    then (b, with_state destroy (stamp ev.now d), effects ++ close ∷ [])
    else (b, with_state resp_end (reset_response_body (stamp ev.now d)), effects)

-- `write_cb` of an ASGI response; `loop_ok` is the answer of the event loop to the future
unfoldable pub write_cb_asgi : Srv → WriteEvent → Bool → Asgi → Client → Ended
unfolding reset_response_preload finish_bad finish_asgi
write_cb_asgi srv ev loop_ok a c =
    let d = reset_response_preload (count_written c) in
    let written = pos d.response.body_total_written in
    if not ev.status_ok
    then finish_bad a (reset_response_preload c)
    else if d.response.chunked == 2
    then finish_asgi srv ev loop_ok a (stamp ev.now d)
    else if d.response.chunked == 0 && int_lt d.response.body_total_size written
    then finish_bad a d
    else if d.response.chunked == 0 && int_eq written d.response.body_total_size
    then finish_asgi srv ev loop_ok a (stamp ev.now d)
    else finish_asgi srv ev loop_ok a d

-- ===== src/Reader/Respond.antt =====
-- A complete request in read_cb (fastwsgi/server.c): the application is called and answered.
use fastpysgi.Base.{ℕ, List, [], ◌∷◌, ◌==◌, if◌then◌else◌, ℤ, neg, is_zero, pos}
use fastpysgi.Client.{Client, is_asgi, app_call, resp_bild, ca_ok}
use fastpysgi.Server.{read_stop}
use fastpysgi.Server.Status.{with_state}
use fastpysgi.Server.Write.{stream_write}
use fastpysgi.Response.Body.{Item}
use fastpysgi.Response.Head.{StartResponse, process_wsgi_response, create_response}
use fastpysgi.Reader.{
  WsgiReturn, AsgiCall, Host, Answers, Turn, step, Verdict, failed, returned, no_methods,
  not_called, not_coroutine, no_task, no_callback, created,
}

-- `call_wsgi_app`
abbrev pub call_wsgi_app : WsgiReturn → ℤ
call_wsgi_app failed = pos 500
call_wsgi_app (returned _ _ _) = pos 0

-- `asgi_call_app`
abbrev pub asgi_call_app : AsgiCall → ℤ
asgi_call_app no_methods = neg 4502011
asgi_call_app not_called = neg 4502031
asgi_call_app not_coroutine = neg 4502033
asgi_call_app no_task = neg 4502041
asgi_call_app no_callback = neg 4502051
asgi_call_app created = pos 0

-- what create_response leaves, and the write
unfoldable pub write_created : {P : Type 0} → Answers → Turn P → ℕ × Client → Verdict P
unfolding stream_write
write_created ans t (err, c) =
    let (act, d, es) = stream_write ans.uv_write_ok c in
    if err == 0 then (act, pos 0, step t (d, es)) else (ca_ok, pos err, record t { client = c })

-- what process_wsgi_response leaves, and the response
unfoldable pub create :
    {P : Type 0} → Host → Answers → StartResponse → Turn P → ℕ × Client × List Item → Verdict P
unfolding write_created create_response
create host ans r t (err, c, items) =
    let u = record t { client = c; items = items } in
    if err == 0
    then write_created ans u (create_response host.srv host.status_name host.atoi host.date r c)
    else (ca_ok, pos err, u)

-- what a WSGI application returned
unfoldable pub answer_wsgi : {P : Type 0} → Host → Answers → Turn P → WsgiReturn → Verdict P
unfolding create process_wsgi_response
answer_wsgi host ans t failed = (ca_ok, call_wsgi_app failed, t)
answer_wsgi host ans t (returned filelike body r) =
    create host ans r t
      (process_wsgi_response host.srv host.strtoll filelike body r.headers t.client)

-- the task of an ASGI application, or its error
unfoldable pub answer_asgi : {P : Type 0} → Turn P → AsgiCall → Verdict P
answer_asgi t call =
    let err = asgi_call_app call in
    if is_zero err
    then (ca_ok, err, step t (with_state resp_bild t.client, read_stop ∷ []))
    else (ca_ok, err, t)

-- the application and its response
unfoldable pub respond : {P : Type 0} → Host → Answers → Turn P → Verdict P
unfolding answer_wsgi answer_asgi
respond host ans t =
    let c = with_state app_call t.client in
    if is_asgi t.client
    then answer_asgi (record t { client = c }) (host.asgi_app c)
    else answer_wsgi host ans (record t { client = with_state resp_bild c }) (host.wsgi_app c)

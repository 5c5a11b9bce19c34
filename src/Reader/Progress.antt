-- ===== src/Reader/Progress.antt =====
-- read_cb of fastwsgi/server.c moves forward in its buffer.
use mathlib.Core.Bool.{false≢true}
use fastpysgi.Base.{ℕ, ◌≡◌, refl, sym, ◌∙◌, Bool, true, false, List, arith, ℤ, Bytes}
use fastpysgi.Client.{
  is_destroy, Action, Rx, Client, reading, app_call, resp_bild, ca_ok, ca_close, ca_shutdown,
}
use fastpysgi.Server.Status.{with_state, stream_read_start}
use fastpysgi.Reader.{
  Llhttp, WsgiReturn, AsgiCall, Host, Answers, Turn, Verdict, with_rx_status, start_reading,
  or_status, send_error, failed, returned,
}
use fastpysgi.Response.Body.{Item}
use fastpysgi.Response.Head.{StartResponse, process_wsgi_response, create_response}
use fastpysgi.Reader.Parse.{Parsed, partial, judge, stopped, loaded}
use fastpysgi.Reader.Respond.{write_created, create, answer_wsgi, answer_asgi, respond}
use fastpysgi.Reader.Handler.{
  close_connection, shutdown_connection, conclude, settle, final_error, at_least_400, is_ca_ok,
  report, finish, proceed,
}
use fastpysgi.Reader.Keep.{start_reading-rx, stream_write-rx, send_plain-rx}
use fastpysgi.Reader.Prepare.{process_wsgi_response-rx, create_response-rx}

-- The parser's callbacks leave the read buffer alone.
abbrev pub Apart : {P : Type 0} → Llhttp P → Type 0
Apart {P} http = (p : P) (c : Client) (b : Bytes) → (http.execute p c b).client.rx ≡ c.rx

-- the turn of an outcome
unfoldable pub turn_of : {P : Type 0} → Parsed P → Turn P
turn_of (stopped (act, e, t)) = t
turn_of (loaded t) = t

-- an outcome by which the connection goes on
unfoldable pub goes_on : {P : Type 0} → Parsed P → Bool
goes_on (stopped (act, e, t)) = is_ca_ok act
goes_on (loaded t) = true

abbrev pub rx_of : {P : Type 0} → Parsed P → Rx
rx_of o = (turn_of o).client.rx

module _ {P : Type 0} (http : Llhttp P) (host : Host) (ans : Answers) where
  write_created-rx : (t : Turn P) (p : ℕ × Client) → (write_created ans t p).2.client.rx ≡ p.1.rx
  unfolding write_created
  write_created-rx t (err, c) = ground (arith, stream_write-rx ans.uv_write_ok c)

  create-rx :
      (r : StartResponse) (t : Turn P) (p : ℕ × Client × List Item)
      → (create host ans r t p).2.client.rx ≡ p.1.rx
  unfolding create
  create-rx r t (err, c, items) = ground (arith, written)
    where
      out : ℕ × Client
      out = create_response host.srv host.status_name host.atoi host.date r c

      finished : out.1.rx ≡ c.rx
      finished = create_response-rx host.srv host.status_name host.atoi host.date r c

      written :
          (write_created ans (record t { client = c; items = items }) out).2.client.rx ≡ out.1.rx
      written = write_created-rx (record t { client = c; items = items }) out

  answer_wsgi-rx :
      (t : Turn P) (w : WsgiReturn) → (answer_wsgi host ans t w).2.client.rx ≡ t.client.rx
  unfolding answer_wsgi
  answer_wsgi-rx t failed = refl
  answer_wsgi-rx t (returned filelike body r) =
      create-rx r t (process_wsgi_response host.srv host.strtoll filelike body r.headers t.client)
      ∙ process_wsgi_response-rx host.srv host.strtoll filelike body r.headers t.client

  answer_asgi-rx : (t : Turn P) (a : AsgiCall) → (answer_asgi t a).2.client.rx ≡ t.client.rx
  unfolding answer_asgi
  answer_asgi-rx t a = ground arith

  respond-rx : (t : Turn P) → (respond host ans t).2.client.rx ≡ t.client.rx
  unfolding respond
  respond-rx t = ground (arith, asgi, wsgi)
    where
      called : Client
      called = with_state app_call t.client

      asgi :
          (answer_asgi (record t { client = called }) (host.asgi_app called)).2.client.rx
          ≡ t.client.rx
      asgi = answer_asgi-rx (record t { client = called }) (host.asgi_app called)

      wsgi :
          (answer_wsgi host ans
            (record t { client = with_state resp_bild called })
            (host.wsgi_app called)).2.client.rx
          ≡ t.client.rx
      wsgi =
          answer_wsgi-rx (record t { client = with_state resp_bild called }) (host.wsgi_app called)

  report-rx : (v : Verdict P) → (report host ans v).1.client.rx ≡ v.2.client.rx
  unfolding report send_error
  report-rx (act, e, t) = ground (arith, sent)
    where
      status : ℤ
      status = at_least_400 (final_error ans.py_error e)

      sent : (send_error host ans status t).1.client.rx ≡ t.client.rx
      sent =
          send_plain-rx host ans.uv_write_ok t.client.request.keep_alive (or_status 500 status)
            t.client

  pub settle-rx : (v : Action × Turn P) → (settle http v).1.client.rx ≡ v.1.client.rx
  unfolding settle
  settle-rx (act, t) = ground arith

  conclude-rx : (v : Action × Turn P) → (conclude ans v).client.rx ≡ v.1.client.rx
  unfolding conclude shutdown_connection close_connection
  conclude-rx (ca_ok, t) = refl
  conclude-rx (ca_shutdown, t) = ground arith
  conclude-rx (ca_close, t) = refl

  pub judge-buf : (t : Turn P) → (rx_of (judge ans t)).buf ≡ t.client.rx.buf
  unfolding judge partial turn_of start_reading stream_read_start
  judge-buf t = ground (arith, start_reading-rx ans.uv_read_ok (with_rx_status reading t.client))

  pub judge-parsed : (t : Turn P) → (rx_of (judge ans t)).parsed_size ≡ t.client.rx.parsed_size
  unfolding judge partial turn_of start_reading stream_read_start
  judge-parsed t = ground (arith, start_reading-rx ans.uv_read_ok (with_rx_status reading t.client))

  pub finish-rx : (v : Verdict P) → (finish http host ans v).client.rx ≡ v.2.client.rx
  unfolding finish
  finish-rx v =
      conclude-rx (settle http (report host ans v)) ∙ settle-rx (report host ans v) ∙ report-rx v

  pub proceed-rx : (o : Parsed P) → (proceed http host ans o).client.rx ≡ rx_of o
  unfolding proceed turn_of
  proceed-rx (stopped (act, e, t)) = finish-rx (act, e, t)
  proceed-rx (loaded t) = finish-rx (respond host ans t) ∙ respond-rx t

  -- the connection that is not kept is marked for its end
  conclude_destroys :
      (act : Action) (t : Turn P)
      → is_ca_ok act ≡ false
      → is_destroy (conclude ans (act, t)).client.state ≡ true
  unfolding conclude shutdown_connection close_connection
  conclude_destroys ca_ok t h = absurd (false≢true (sym h))
  conclude_destroys ca_shutdown t h = ground arith
  conclude_destroys ca_close t h = refl

  pub finish_destroys :
      (act : Action) (e : ℤ) (t : Turn P)
      → is_ca_ok act ≡ false
      → is_destroy (finish http host ans (act, e, t)).client.state ≡ true
  unfolding finish report settle
  finish_destroys ca_ok e t h = absurd (false≢true (sym h))
  finish_destroys ca_shutdown e t h = ground arith
  finish_destroys ca_close e t h = ground arith

  pub proceed_destroys :
      (o : Parsed P) → goes_on o ≡ false → is_destroy (proceed http host ans o).client.state ≡ true
  unfolding proceed goes_on
  proceed_destroys (stopped (act, e, t)) h = finish_destroys act e t h
  proceed_destroys (loaded t) h = absurd (false≢true (sym h))

-- ===== src/Reader/Calls.antt =====
-- When read_cb of fastwsgi/server.c calls the application.
use mathlib.Core.Bool.{false≢true}
use fastpysgi.Base.{ℕ, ◌+◌, ◌≡◌, refl, ap, ◌∙◌, Bool, true, false, arith, length, ℤ, pos_part}
use fastpysgi.Client.{is_loaded, Client, reading}
use fastpysgi.Server.Status.{stream_read_start}
use fastpysgi.Reader.{
  Errno, Executed, Llhttp, WsgiReturn, AsgiCall, Host, Answers, Turn, with_rx_status, with_parsed,
  lock, start_reading, unparsed, send_plain, send_fatal, send_error, hpe_ok, hpe_paused, hpe_other,
  hpe_invalid_version,
}
use fastpysgi.Reader.Parse.{
  Parsed, judge, drained, frozen, paused, broken, executed, parsing, after, parse, stopped, loaded,
}
use fastpysgi.Reader.Handler.{report, finish, proceed}

-- the host with other applications
abbrev pub with_apps : (Client → WsgiReturn) → (Client → AsgiCall) → Host → Host
with_apps wsgi asgi host = record host { wsgi_app = wsgi; asgi_app = asgi }

-- the outcome holds no complete request
unfoldable is_stopped : {P : Type 0} → Parsed P → Bool
is_stopped (stopped v) = true
is_stopped (loaded t) = false

start_reading-request : (ok : Bool) (c : Client) → (start_reading ok c).0.request ≡ c.request
unfolding start_reading stream_read_start
start_reading-request ok c = ground arith

module _ {P : Type 0} (http : Llhttp P) (host : Host) (ans : Answers) where
  judge-stopped :
      (t : Turn P) → is_loaded t.client.request.load_state ≡ false → is_stopped (judge ans t) ≡ true
  unfolding judge is_stopped
  judge-stopped t h = ground arith

  drained-request :
      (t : Turn P) → (drained http ans t).client.request.load_state ≡ t.client.request.load_state
  unfolding drained
  drained-request t =
      ap (λ r. r.load_state)
        (start_reading-request ans.uv_read_ok (lock false (with_rx_status reading t.client)))

  paused-stopped :
      (prev given : ℕ) (add : ℤ) (t : Turn P)
      → is_loaded t.client.request.load_state ≡ false
      → is_stopped (paused http ans prev given add t) ≡ true
  unfolding paused is_stopped frozen
  paused-stopped prev given add t h = ground (
    arith,
    judge-stopped (drained http ans u) (ap is_loaded (drained-request u) ∙ h),
    judge-stopped (frozen u) h,
  )
    where
      u : Turn P
      u = record t { client = with_parsed (prev + pos_part add) t.client }

  executed-stopped :
      (prev given : ℕ) (e : Errno) (add : ℤ) (t : Turn P)
      → is_loaded t.client.request.load_state ≡ false
      → is_stopped (executed http host ans prev given e add t) ≡ true
  unfolding executed broken is_stopped
  executed-stopped prev given hpe_ok add t h =
      judge-stopped (record t { client = with_parsed (prev + given) t.client }) h
  executed-stopped prev given hpe_paused add t h = paused-stopped prev given add t h
  executed-stopped prev given hpe_other add t h = refl
  executed-stopped prev given (hpe_invalid_version r) add t h = refl

  -- nothing that is stopped reaches an application
  proceed-apps :
      (wsgi : Client → WsgiReturn) (asgi : Client → AsgiCall) (o : Parsed P)
      → is_stopped o ≡ true
      → proceed http (with_apps wsgi asgi host) ans o ≡ proceed http host ans o
  unfolding proceed is_stopped finish report send_error send_plain
  proceed-apps wsgi asgi (stopped v) h = refl
  proceed-apps wsgi asgi (loaded t) h = absurd (false≢true h)

  executed-apps :
      (wsgi : Client → WsgiReturn) (asgi : Client → AsgiCall) (prev given : ℕ) (e : Errno) (add : ℤ)
      (t : Turn P)
      → executed http (with_apps wsgi asgi host) ans prev given e add t
        ≡ executed http host ans prev given e add t
  unfolding executed broken send_fatal send_plain
  executed-apps wsgi asgi prev given hpe_ok add t = refl
  executed-apps wsgi asgi prev given hpe_paused add t = refl
  executed-apps wsgi asgi prev given hpe_other add t = refl
  executed-apps wsgi asgi prev given (hpe_invalid_version r) add t = refl

  -- The parsing of what the buffer holds, and all that follows: unless the parser's callbacks end with
  -- a request that is complete and accepted, what the applications do makes no difference.
  pub app_not_called :
      (wsgi : Client → WsgiReturn) (asgi : Client → AsgiCall) (t : Turn P)
      → is_loaded
          (http.execute
            (http.resume t.parser)
            (parsing t.client)
            (unparsed t.client)).client.request.load_state
        ≡ false
      → proceed http (with_apps wsgi asgi host) ans (parse http (with_apps wsgi asgi host) ans t)
        ≡ proceed http host ans (parse http host ans t)
  unfolding parse
  app_not_called wsgi asgi t h =
      ap (proceed http (with_apps wsgi asgi host) ans)
        (executed-apps wsgi asgi t.client.rx.parsed_size given x.errno x.error_pos (after x t))
      ∙ proceed-apps wsgi asgi (parse http host ans t)
          (executed-stopped t.client.rx.parsed_size given x.errno x.error_pos (after x t) h)
    where
      given : ℕ
      given = length (unparsed t.client)

      x : Executed P
      x = http.execute (http.resume t.parser) (parsing t.client) (unparsed t.client)

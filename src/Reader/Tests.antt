-- ===== src/Reader/Tests.antt =====
-- The theorems on read_cb (fastwsgi/server.c) at concrete inputs.
use fastpysgi.Base.{
  ℕ, ◌+◌, ◌≡◌, refl, true, false, not, ◌||◌, some, [], ◌∷◌, ◌++◌, arith, if◌then◌else◌, int_lt, pos,
  codes,
}
use fastpysgi.Samples.{srv, client}
use fastpysgi.Client.{is_sending, is_destroy, Client, freezed, ls_ok}
use fastpysgi.Server.{read_stop, writing}
use fastpysgi.Server.Write.{WriteEvent}
use fastpysgi.Reader.{
  Llhttp, Host, Answers, Turn, hpe_ok, hpe_paused, hpe_other, failed, no_task, created,
}
use fastpysgi.Reader.Parse.{broken, parse}
use fastpysgi.Reader.Handler.{shutdown_connection, proceed, read_cb, buffered, received}
use fastpysgi.Reader.Progress.{Apart}
use fastpysgi.Reader.Bounds.{Moved}
use fastpysgi.Reader.Invariant.{Sound, read_cb_advances, read_cb-Sound}
use fastpysgi.Reader.Drain.{drain, Ended, drain_ends}
use fastpysgi.Reader.Calls.{with_apps, app_not_called}
use fastpysgi.Reader.Plain.{plain_text}
use fastpysgi.Reader.Refusal.{broken_answered}

-- the callbacks have accepted a request
abbrev accepted : Client → Client
accepted c = record c { request = record (c.request) { load_state = ls_ok } }

-- a parser that takes two bytes for a request
abbrev two_bytes : Llhttp ℕ
two_bytes = record {
  resume = λ p. p;
  reset = λ p. 0;
  execute = λ p c b. record {
    errno = hpe_paused;
    error_pos = pos 2;
    parser = p + 1;
    client = accepted c;
  };
}

-- a parser that never has a whole request
abbrev hungry : Llhttp ℕ
hungry = record {
  resume = λ p. p;
  reset = λ p. 0;
  execute = λ p c b. record { errno = hpe_ok; error_pos = pos 0; parser = p + 1; client = c };
}

abbrev host : Host
host = record {
  srv = srv;
  status_name = λ n. some (codes "Name");
  date = codes "Thu, 01 Jan 1970 00:00:00 GMT";
  strtoll = λ b. pos 0;
  atoi = λ b. pos 200;
  wsgi_app = λ c. failed;
  asgi_app = λ c. created;
}

abbrev answers : Answers
answers = record {
  now = 5000;
  notconn = false;
  uv_shutdown_ok = true;
  uv_read_ok = true;
  uv_write_ok = true;
  py_error = false;
}

-- five bytes wait
abbrev turn : Turn ℕ
turn = record {
  parser = 0;
  client = record client { rx = record (client.rx) { status = freezed; buf = codes "abcde" } };
  items = [];
  effects = [];
}

two_bytes-Apart : Apart two_bytes
two_bytes-Apart p c b = refl

event : WriteEvent
event = record { status_ok = true; now = 6000; uv_write_ok = true; uv_read_ok = true }

drain_ends_example : Ended (drain two_bytes host (λ n. (answers, event ∷ [])) 5 turn)
drain_ends_example =
    drain_ends two_bytes host (λ n. (answers, event ∷ [])) 5 turn two_bytes-Apart (omega arith)
      (omega arith)

read_cb_advances_example :
    let r = read_cb two_bytes host answers buffered turn in
    Moved 0 (codes "abcde") (not (is_destroy r.client.state)) r.client.rx
read_cb_advances_example =
    read_cb_advances two_bytes host answers turn two_bytes-Apart (omega arith)

read_cb-Sound_example :
    Sound 65536 (read_cb two_bytes host answers (received (codes "fg")) turn).client.rx
read_cb-Sound_example =
    read_cb-Sound two_bytes host answers turn (received (codes "fg")) two_bytes-Apart
      (omega arith, omega arith)

app_not_called_example :
    proceed hungry
      (with_apps (λ c. failed) (λ c. no_task) host)
      answers
      (parse hungry (with_apps (λ c. failed) (λ c. no_task) host) answers turn)
    ≡ proceed hungry host answers (parse hungry host answers turn)
app_not_called_example = app_not_called hungry host answers (λ c. failed) (λ c. no_task) turn refl

broken_answered_example :
    let r = proceed hungry host answers (broken host answers hpe_other turn) in
    (int_lt (pos 400) (pos 400) || int_lt (pos 599) (pos 400) ≡ false)
    × (is_destroy r.client.state ≡ true)
    × (r.effects
        ≡ []
          ++ (if is_sending turn.client.state
              then []
              else read_stop
                ∷ writing (
                    plain_text host false
                      (pos 400)
                      (codes "Name")
                      turn.client.request.method
                      turn.client.response.wsgi_content_length)
                ∷ [])
          ++ read_stop ∷ []
          ++ (shutdown_connection answers turn.client).1)
broken_answered_example =
    broken_answered hungry host answers hpe_other turn (codes "Name") refl refl

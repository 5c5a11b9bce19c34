-- ===== src/Reader/Parse.antt =====
-- The parsing in read_cb (fastwsgi/server.c), from the label `parsing` to the call of the application.
use fastpysgi.Base.{
  ℕ, ◌+◌, true, false, not, ◌&&◌, some, [], ◌∷◌, ltb, leb, ◌==◌, if◌then◌else◌, length, ℤ, is_pos,
  pos_part, int_lt, pos, codes, bytes_eq,
}
use fastpysgi.Client.{at_end, is_loaded, Client, reading, freezed, req_parse, ca_ok, ca_shutdown}
use fastpysgi.Server.{read_stop}
use fastpysgi.Server.Status.{with_state, is_freezed}
use fastpysgi.Reader.{
  Errno, Executed, Llhttp, Host, Answers, Turn, step, Verdict, with_rx_status, with_parsed, lock,
  start_reading, unparsed, send_fatal, hpe_ok, hpe_paused, hpe_other, hpe_invalid_version,
}

-- The request is complete, or the handler goes to `fin:`.
pub data Parsed (P : Type 0) : Type 0 where
  stopped : Verdict P → Parsed P
  loaded : Turn P → Parsed P

-- an error number for the client if it is one
abbrev pub http_error : ℕ → ℤ
http_error n = if leb 400 n && ltb n 600 then pos n else pos 400

-- the status for an error of the parser
abbrev pub parse_error : Errno → Client → ℤ
parse_error (hpe_invalid_version (some reason)) c =
    if bytes_eq reason (codes "Expected CRLF after version")
    then pos 400
    else if bytes_eq reason (codes "Invalid major version")
    then pos 400
    else if bytes_eq reason (codes "Invalid HTTP version")
    then pos 505
    else http_error c.error
parse_error _ c = http_error c.error

-- The request is not complete: the rest comes from the socket.
unfoldable pub partial : {P : Type 0} → Answers → Turn P → Verdict P
unfolding start_reading
partial ans t =
    let c = t.client in
    let thawed = step t (start_reading ans.uv_read_ok (with_rx_status reading c)) in
    let u =
      if is_freezed c.rx.status then record thawed { client = lock true thawed.client } else t in
    if not (c.rx.parsed_size == length c.rx.buf)
    then (ca_shutdown, pos 0, t)
    else (ca_ok, if u.client.error == 0 then pos 0 else http_error u.client.error, u)

-- The bytes were parsed without an error; `parsed_size` is set.
unfoldable pub judge : {P : Type 0} → Answers → Turn P → Parsed P
unfolding partial
judge ans t =
    let c = t.client in
    if not (at_end c.request.load_state)
    then stopped (partial ans t)
    else if is_loaded c.request.load_state
    then loaded t
    else if c.request.expect_continue && c.error == 417
    then stopped (
      ca_ok,
      pos 417,
      record t { client = record c { request = record (c.request) { expect_continue = false } } },
    )
    else stopped (ca_ok, pos 400, t)

-- a pause at the end of the buffer: it was parsed to its end, and reading goes on
unfoldable pub drained : {P : Type 0} → Llhttp P → Answers → Turn P → Turn P
unfolding start_reading
drained http ans t =
    record (step t (start_reading ans.uv_read_ok (lock false (with_rx_status reading t.client)))) {
      parser = http.reset t.parser;
    }

-- a pause before the end: the rest waits for the end of the response
unfoldable pub frozen : {P : Type 0} → Turn P → Turn P
frozen t = step t (lock true (with_rx_status freezed t.client), read_stop ∷ [])

-- `HPE_PAUSED` at `add` bytes of `given`, with its four checks
unfoldable pub paused : {P : Type 0} → Llhttp P → Answers → ℕ → ℕ → ℤ → Turn P → Parsed P
unfolding drained frozen judge
paused http ans prev given add t =
    let now = prev + pos_part add in
    let u = record t { client = with_parsed now t.client } in
    if not (at_end t.client.request.load_state)
    then stopped (ca_shutdown, pos 0, t)
    else if int_lt (pos given) add
    then stopped (ca_shutdown, pos 0, t)
    else if not (is_pos add)
    then stopped (ca_shutdown, pos 0, t)
    else if ltb (length t.client.rx.buf) now
    then stopped (ca_shutdown, pos 0, t)
    else if now == length t.client.rx.buf
    then judge ans (drained http ans u)
    else judge ans (frozen u)

-- what follows an error of the parser
unfoldable pub broken : {P : Type 0} → Host → Answers → Errno → Turn P → Parsed P
unfolding send_fatal
broken host ans e t =
    let (act, u) = send_fatal host ans (parse_error e t.client) t in stopped (act, pos 0, u)

-- what follows llhttp_execute, by its result
unfoldable pub executed :
    {P : Type 0} → Llhttp P → Host → Answers → ℕ → ℕ → Errno → ℤ → Turn P → Parsed P
unfolding paused broken judge
executed http host ans prev given hpe_ok add t =
    judge ans (record t { client = with_parsed (prev + given) t.client })
executed http host ans prev given hpe_paused add t = paused http ans prev given add t
executed http host ans prev given hpe_other add t = broken host ans hpe_other t
executed http host ans prev given (hpe_invalid_version r) add t =
    broken host ans (hpe_invalid_version r) t

-- the connection that the parser is given
abbrev pub parsing : Client → Client
parsing c = lock true (with_state req_parse c)

abbrev pub after : {P : Type 0} → Executed P → Turn P → Turn P
after x t = record t { parser = x.parser; client = x.client }

-- the parsing of what the buffer holds
unfoldable pub parse : {P : Type 0} → Llhttp P → Host → Answers → Turn P → Parsed P
unfolding executed
parse http host ans t =
    let given = unparsed t.client in
    let x = http.execute (http.resume t.parser) (parsing t.client) given in
    executed http host ans t.client.rx.parsed_size (length given) x.errno x.error_pos (after x t)

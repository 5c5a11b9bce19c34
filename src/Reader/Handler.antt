-- ===== src/Reader/Handler.antt =====
-- read_cb of fastwsgi/server.c as a whole, and its calls from the timer and from write_cb.
use fastpysgi.Base.{
  ℕ, ◌+◌, ◌-◌, Bool, true, false, not, ◌&&◌, List, [], ◌∷◌, ◌++◌, ltb, ◌==◌, if◌then◌else◌, length,
  ℤ, is_zero, int_lt, pos, Bytes,
}
use fastpysgi.Client.{
  at_end, is_destroy, Action, Client, rx_fail, ls_wait, destroy, ca_ok, ca_close, ca_shutdown,
}
use fastpysgi.Server.{Effect, read_stop, close, shutdown}
use fastpysgi.Server.Status.{with_state, is_freezed}
use fastpysgi.Reader.{Llhttp, Host, Answers, Turn, step, Verdict, with_rx_status, send_error}
use fastpysgi.Reader.Parse.{Parsed, parse, stopped, loaded}
use fastpysgi.Reader.Respond.{respond}

-- `nread` and the buffer: nothing, the end of the stream, an error, bytes of the socket, or the bytes
-- left in the buffer (`_buf == NULL`)
pub data Read : Type 0 where
  nothing end_of_file read_failed buffered : Read
  received : Bytes → Read

-- `close_connection`
unfoldable pub close_connection : Client → Client × List Effect
close_connection c = (with_state destroy c, close ∷ [])

-- `shutdown_connection`: the end of the stream is announced first if it is connected
unfoldable pub shutdown_connection : Answers → Client → Client × List Effect
unfolding close_connection
shutdown_connection ans c =
    if ans.notconn
    then close_connection c
    else if ans.uv_shutdown_ok
    then (with_state destroy c, shutdown ∷ [])
    else (with_state destroy c, shutdown ∷ close ∷ [])

-- the action at the end
unfoldable pub conclude : {P : Type 0} → Answers → Action × Turn P → Turn P
unfolding shutdown_connection close_connection
conclude ans (ca_ok, t) = t
conclude ans (ca_shutdown, t) =
    let u = step t (t.client, read_stop ∷ []) in step u (shutdown_connection ans u.client)
conclude ans (ca_close, t) =
    let u = step t (t.client, read_stop ∷ []) in step u (close_connection u.client)

-- the parser is ready for the next request
unfoldable pub settle : {P : Type 0} → Llhttp P → Action × Turn P → Action × Turn P
settle http (act, t) =
    let c = t.client in
    (
      act,
      record t {
        parser = if c.request.parser_locked then t.parser else http.reset t.parser;
        client =
            if at_end c.request.load_state
            then record c { request = record (c.request) { load_state = ls_wait } }
            else c;
      },
    )

-- an exception that Python still holds is an error of the server
abbrev pub final_error : Bool → ℤ → ℤ
final_error py_error err = if py_error && is_zero err then pos 500 else err

abbrev pub at_least_400 : ℤ → ℤ
at_least_400 err = if int_lt err (pos 400) then pos 400 else err

abbrev pub is_ca_ok : Action → Bool
is_ca_ok ca_ok = true
is_ca_ok _ = false

-- the answer to an error, unless the connection ends anyway
unfoldable pub report : {P : Type 0} → Host → Answers → Verdict P → Action × Turn P
unfolding send_error
report host ans (act, err, t) =
    let e = final_error ans.py_error err in
    if not (is_zero e) && is_ca_ok act then send_error host ans (at_least_400 e) t else (act, t)

-- behind `fin:`
unfoldable pub finish : {P : Type 0} → Llhttp P → Host → Answers → Verdict P → Turn P
unfolding report settle conclude
finish http host ans v = conclude ans (settle http (report host ans v))

-- behind the label `parsing`
unfoldable pub proceed : {P : Type 0} → Llhttp P → Host → Answers → Parsed P → Turn P
unfolding finish respond
proceed http host ans (stopped v) = finish http host ans v
proceed http host ans (loaded t) = finish http host ans (respond host ans t)

abbrev saturated : ℕ → ℕ → ℕ
saturated a b = if ltb a (18446744073709551615 - b) then a + b else 18446744073709551615

-- the counters of a packet
abbrev pub counted : Bytes → Client → Client
counted b c = record c {
  rx = record (c.rx) {
    pkt = saturated c.rx.pkt 1;
    raw_total = saturated c.rx.raw_total (length b);
    total = saturated c.rx.raw_total (length b);
  };
}

abbrev pub append_rx : Bytes → Client → Client
append_rx b c = record c { rx = record (c.rx) { buf = c.rx.buf ++ b } }

abbrev pub touched : ℕ → Client → Client
touched now c =
    if c.request.start_time == 0
    then c
    else record c { request = record (c.request) { update_time = now } }

-- bytes of the socket: a packet that does not fit the buffer ends the connection
unfoldable pub take_in : {P : Type 0} → Llhttp P → Host → Answers → Bytes → Turn P → Turn P
unfolding parse proceed finish
take_in http host ans b t =
    let c = counted b t.client in
    if ltb host.srv.read_buffer_size (length c.rx.buf + length b)
    then finish http host ans (ca_shutdown, pos 0, record t { client = with_rx_status rx_fail c })
    else proceed http host ans (parse http host ans (record t { client = append_rx b c }))

-- `read_cb`. With the bytes left in the buffer, `nread` is their number.
unfoldable pub read_cb : {P : Type 0} → Llhttp P → Host → Answers → Read → Turn P → Turn P
unfolding take_in parse proceed finish
read_cb http host ans nothing t = t
read_cb http host ans end_of_file t = finish http host ans (ca_close, pos 0, t)
read_cb http host ans read_failed t = finish http host ans (ca_shutdown, pos 0, t)
read_cb http host ans (received b) t =
    if length b == 0
    then t
    else take_in http host ans b (record t { client = touched ans.now t.client })
read_cb http host ans buffered t =
    let c = t.client in
    if c.rx.parsed_size == length c.rx.buf
    then t
    else if ltb (length c.rx.buf) c.rx.parsed_size
    then finish http host ans (ca_shutdown, pos 0, t)
    else proceed http host ans (parse http host ans (record t { client = touched ans.now c }))

-- `read_timer_cb`, of a timer whose connection is still there
unfoldable pub read_timer_cb : {P : Type 0} → Llhttp P → Host → Answers → Turn P → Turn P
unfolding shutdown_connection read_cb
read_timer_cb http host ans t =
    let u = step t (t.client, read_stop ∷ []) in
    if is_destroy t.client.state
    then step u (shutdown_connection ans u.client)
    else if is_freezed t.client.rx.status
    then read_cb http host ans buffered t
    else t

-- ===== src/Server/Status.antt =====
-- Reading from the socket and the plain status responses (fastwsgi/server.c).
use fastpysgi.Base.{
  ℕ, Bool, true, false, not, ◌&&◌, Option, none, some, List, [], ◌∷◌, ◌++◌, leb, ◌==◌,
  if◌then◌else◌, ℤ, neg, pos, Bytes, codes,
}
use fastpysgi.Base.Print.{decimal}
use fastpysgi.Client.{RxStatus, ClientState, is_sending, Client, freezed, req_read, destroy}
use fastpysgi.Server.{Effect, read_start, close, writing}

abbrev pub with_state : ClientState → Client → Client
with_state s c = record c { state = s }

abbrev pub is_freezed : RxStatus → Bool
is_freezed freezed = true
is_freezed _ = false

-- `stream_read_start_ex`, with the answer of `uv_read_start` (true: 0 or UV_EALREADY). It does nothing
-- while the read buffer is frozen or a write is active.
unfoldable pub stream_read_start : Bool → Client → ℤ × Client × List Effect
stream_read_start uv_ok c =
    if is_freezed c.rx.status
    then (neg 2, c, [])
    else if is_sending c.state
    then (neg 3, c, [])
    else if uv_ok
    then (pos 0, with_state req_read c, read_start ∷ [])
    else (neg 7, with_state destroy c, read_start ∷ close ∷ [])

-- the text that `x_send_status` sends: a length only for a status that may have a body
unfoldable pub status_text : (ℕ → Option Bytes) → ℕ → Bytes
status_text status_name status =
    let name : Bytes = elim (status_name status) [ none ↦ codes "_unknown_" | some n ↦ n ] in
    codes "HTTP/1.1 "
    ++ decimal status
    ++ codes " "
    ++ name
    ++ codes "\r\n"
    ++ (if leb 200 status && not (status == 204) && not (status == 304)
        then codes "Content-Length: 0\r\n"
        else [])
    ++ codes "\r\n"

-- `x_send_status`, with the answer of `uv_write`
unfoldable pub x_send_status : (ℕ → Option Bytes) → Bool → ℕ → Client → ℤ × Client × List Effect
unfolding status_text
x_send_status status_name uv_ok status c =
    let sent = writing (status_text status_name status) ∷ [] in
    if uv_ok then (pos 0, c, sent) else (neg 6, with_state destroy c, sent)

-- ===== src/Process.antt =====
-- fastwsgi/server.c: the life of the server in its process: init_srv, run_server, run_nowait,
-- close_server, change_setting and the handlers of the signal and of the timer. What libuv and asyncio
-- answer is a parameter; what is asked of them is a list of operations in order.
pub mod Start
pub mod Unopened
pub mod Nowait
pub mod Settings
pub mod Accepted
mod Tests
use fastpysgi.Base.{
  ℕ, zero, suc, ◌+◌, Bool, true, false, not, ◌&&◌, ◌||◌, Option, none, some, List, [], ◌∷◌, ◌++◌,
  map, ltb, leb, ◌==◌, if◌then◌else◌, length, ℤ, neg, is_neg, is_zero, is_pos, int_eq, int_lt, pos,
  Bytes, codes, bytes_eq,
}
use fastpysgi.Client.{Client, Srv}
use fastpysgi.Server.Timeout.{client_aux_check}

-- what is asked of libuv and of the other parts; a server is known by its index
pub data Op : Type 0 where
  tcp_init tcp_bind tcp_listen server_close : ℕ → Op
  signal_start signal_stop timer_start timer_stop timer_close run_once loop_close : Op
  free_aio stop_aio free_tls : Op

-- `g_srv_inited` and the part of `g_srv` that these functions use; `signal` and `aio` say that the
-- handler of the signal and the object of asyncio are set
pub record Proc : Type 0 where
  pub inited : Bool
  pub asgi : Bool
  pub exit_code : ℤ
  pub servers_num : ℕ
  pub hook_sigint : ℤ
  pub signal : Bool
  pub aio : Bool
  pub nowait_mode : ℕ
  pub base_handles : ℕ
  pub allow_keepalive : Bool

-- after `memset`
abbrev pub zero_proc : Proc
zero_proc = record {
  inited = false;
  asgi = false;
  exit_code = pos 0;
  servers_num = 0;
  hook_sigint = pos 0;
  signal = false;
  aio = false;
  nowait_mode = 0;
  base_handles = 0;
  allow_keepalive = false;
}

-- the results for init_srv: of tls_server_init_all, of asyncio_init, and whether the server of an index
-- could be bound, and then listen
pub record InitAnswers : Type 0 where
  pub tls_num : ℤ
  pub asyncio : ℤ
  pub binds : ℕ → Bool
  pub listens : ℕ → Bool

-- the loop that binds the servers, from an index on, for so many servers
unfoldable pub bind_servers : (ℕ → Bool) → ℕ → ℕ → Bool × List Op
bind_servers binds idx zero = (true, [])
bind_servers binds idx (suc n) =
    let (ok, ops) = bind_servers binds (idx + 1) n in
    if binds idx
    then (ok, tcp_init idx ∷ tcp_bind idx ∷ ops)
    else (false, tcp_init idx ∷ tcp_bind idx ∷ [])

-- the loop that lets them listen
unfoldable pub listen_servers : (ℕ → Bool) → ℕ → ℕ → Bool × List Op
listen_servers listens idx zero = (true, [])
listen_servers listens idx (suc n) =
    let (ok, ops) = listen_servers listens (idx + 1) n in
    if listens idx then (ok, tcp_listen idx ∷ ops) else (false, tcp_listen idx ∷ [])

unfoldable pub close_servers : ℕ → ℕ → List Op
close_servers idx zero = []
close_servers idx (suc n) = server_close idx ∷ close_servers (idx + 1) n

abbrev pub op_if : Bool → Op → List Op
op_if true op = op ∷ []
op_if false op = []

abbrev pub InitResult : Type 0
InitResult = ℤ × List Op × Proc

-- the end of `init_srv` with an error
unfoldable pub init_failed : ℤ → List Op → Proc → InitResult
unfolding close_servers
init_failed hr ops p = (
  hr,
  ops
      ++ op_if p.signal signal_stop
      ++ (if not (int_lt (neg 9) hr) && not (int_lt hr (neg 90))
          then close_servers 0 p.servers_num
          else [])
      ++ loop_close ∷ op_if p.aio free_aio
      ++ free_tls ∷ [],
  record p { aio = false },
)

unfoldable pub init_done : List Op → Proc → InitResult
init_done ops p =
    let hooked = is_pos p.hook_sigint in
    (
      pos 0,
      ops ++ op_if hooked signal_start ++ timer_start ∷ [],
      record p { inited = true; signal = hooked },
    )

unfoldable pub init_listen : InitAnswers → List Op → Proc → InitResult
unfolding listen_servers init_failed init_done
init_listen a ops p =
    let (ok, more) = listen_servers a.listens 0 p.servers_num in
    if ok then init_done (ops ++ more) p else init_failed (neg 10) (ops ++ more) p

unfoldable pub init_bind : InitAnswers → Proc → InitResult
unfolding bind_servers init_listen
init_bind a p =
    let (ok, ops) = bind_servers a.binds 0 p.servers_num in
    if ok then init_listen a ops p else init_failed (neg 9) ops p

-- `init_srv`
unfoldable pub init_srv : InitAnswers → Proc → InitResult
unfolding init_bind
init_srv a p =
    if p.inited
    then (neg 1, [], p)
    else if is_neg a.tls_num
    then init_failed a.tls_num [] p
    else if not p.asgi
    then init_bind a p
    else if not (is_zero a.asyncio)
    then init_failed a.asyncio [] p
    else init_bind a (record p { aio = true })

unfoldable pub run_times : ℕ → List Op
run_times zero = []
run_times (suc n) = run_once ∷ run_times n

-- `close_server`
unfoldable pub close_server : Proc → List Op × Proc
unfolding run_times close_servers
close_server p =
    let closing =
      timer_stop
      ∷ (op_if p.signal signal_stop
          ++ op_if p.aio stop_aio
          ++ timer_close ∷ close_servers 0 p.servers_num
          ++ run_times 10
          ++ loop_close ∷ []) in
    ((if p.inited then closing else []) ++ op_if p.aio free_aio ++ free_tls ∷ [], zero_proc)

-- `run_server`, for the exit code with which the loop of libuv or of asyncio comes back; `none` while
-- the loop runs
unfoldable pub run_server : Option ℤ → Proc → Option InitResult
unfolding close_server
run_server loop p = if not p.inited then some (neg 1, [], p) else elim loop [
  | none ↦ none
  | some e ↦
      let (ops, closed) = close_server (record p { exit_code = e }) in
      some (closed.exit_code, ops, closed)
]

-- a round of uv_run: `exit_code` after it, and how many handles are active
abbrev pub Round : Type 0
Round = ℤ × ℕ

-- the loop of `run_nowait`, over the rounds to come
unfoldable pub nowait_loop : ℕ → ℕ → ℕ → List Round → Option ℤ
nowait_loop mode base idle_runs [] = none
nowait_loop mode base idle_runs ((e, handles) ∷ rounds) =
    let busy = nowait_loop mode base 0 rounds in
    let quiet = nowait_loop mode base (idle_runs + 1) rounds in
    if not (is_zero e)
    then some e
    else if mode == 1
    then some (pos 0)
    else if ltb base handles
    then busy
    else if leb 2 (idle_runs + 1)
    then some (pos 0)
    else quiet

-- `run_nowait`, with the number of handles that are active after the first round of a new server
unfoldable pub run_nowait : ℕ → List Round → Proc → Option (ℤ × Proc)
unfolding nowait_loop
run_nowait first_handles rounds p =
    let base = if p.base_handles == 0 then first_handles else p.base_handles in
    if not p.inited then some (neg 1, p) else elim (nowait_loop p.nowait_mode base 0 rounds) [
      | none ↦ none
      | some r ↦ some (r, record p { base_handles = base })
    ]

-- `change_setting`, for a name and what get_obj_attr_int gives for it
unfoldable pub change_setting : Option Bytes → ℤ → Proc → ℤ × Proc
change_setting none rv p = (neg 2, p)
change_setting (some name) rv p =
    if ltb (length name) 2
    then (neg 4, p)
    else if not (bytes_eq name (codes "allow_keepalive"))
    then (neg 1, p)
    else if int_eq rv (pos 0) || int_eq rv (pos 1)
    then (pos 0, record p { allow_keepalive = int_eq rv (pos 1) })
    else (neg 5, p)

-- `signal_handler` on SIGINT: `none` is the end of the process
unfoldable pub signal_handler : Proc → Option Proc
signal_handler p =
    if int_eq p.hook_sigint (pos 2) then none else some (record p { exit_code = pos 1 })

-- `svc_timer_cb`: which of the connections are shut down
unfoldable pub svc_timer_cb : Srv → ℕ → List Client → List Bool
svc_timer_cb srv now clients =
    if not (srv.read_req_timeout == 0)
      || not (srv.curr_req_timeout == 0)
      || not (srv.next_req_timeout == 0)
    then map (client_aux_check srv now) clients
    else map (λ c. false) clients

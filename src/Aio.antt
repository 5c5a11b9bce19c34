-- ===== src/Aio.antt =====
-- fastwsgi/asgi.c: how the loop of libuv runs inside the loop of asyncio. What asyncio and libuv do is a
-- parameter: the events of each round, the number of calls back, and the timeout of libuv. A long has 64
-- bits.
pub mod Rounds
pub mod Schedule
mod Tests
use fastpysgi.Base.{
  ℕ, zero, suc, ◌+◌, ◌*◌, Bool, true, false, not, ◌&&◌, ◌||◌, Option, none, some, List, leb, ◌==◌,
  if◌then◌else◌, ℤ, neg, is_neg, is_zero, is_pos, pos_part, int_eq, int_lt, llong_min, pos, negsuc,
}
use fastpysgi.Common.Attributes.{to_int}
use fastpysgi.Lifespan.{Mode, Lifespan, Event, mode_off, mode_on, mode_auto}
use fastpysgi.Lifespan.Drive.{
  StartAnswers, lifespan_startup, UniLoop, ul_disabled, ul_call_soon, ul_call_later, ul_running,
}

-- `asyncio_t`: its numbers, and whether `relax_timeout` is there
pub record Aio : Type 0 where
  pub uni_loop_state : UniLoop
  pub idle_num : ℤ
  pub allow_call_soon : Bool
  pub loop_timeout_us : ℤ
  pub is_stock : Bool
  pub relax_timeout : Bool

-- what the options say: the numbers of the loop, the mode of the lifespan, `fail_on_startup_error` and
-- `req_hdr_lower`
pub record Config : Type 0 where
  pub loop_timeout_us : ℤ
  pub allow_call_soon : Bool
  pub mode : Mode
  pub fail_on_startup_error : Bool
  pub req_hdr_lower : Bool

abbrev pub timeout_option : ℤ → ℤ
timeout_option rv =
    if is_neg rv
    then if int_eq rv llong_min then pos 3000 else neg 1
    else if int_lt (pos 1000000) rv
    then pos 1000000
    else rv

abbrev pub mode_option : ℤ → Mode
mode_option rv =
    if int_eq rv (pos 0) then mode_off else if int_eq rv (pos 1) then mode_on else mode_auto

-- `asyncio_load_cfg`, on what get_obj_attr_int gives for the five attributes
unfoldable pub asyncio_load_cfg : ℤ → ℤ → ℤ → ℤ → ℤ → Config
asyncio_load_cfg loop_timeout loop_call_soon lifespan lifespan_fose req_hdr_lower = record {
  loop_timeout_us = timeout_option loop_timeout;
  allow_call_soon = is_pos loop_call_soon;
  mode = mode_option lifespan;
  fail_on_startup_error = int_eq lifespan_fose (pos 1);
  req_hdr_lower = not (is_zero req_hdr_lower);
}

-- what aio_loop_call is asked for: uni_loop by one of its two methods, or another callable
pub data Func : Type 0 where
  uni_soon uni_later other_func : Func

pub data Method : Type 0 where
  by_soon by_later : Method

-- what asyncio is asked for: call_soon, call_at in nanoseconds from now, or call_later after no time,
-- `relax_timeout`, or microseconds
pub data Asked : Type 0 where
  call_soon : Asked
  call_at : ℕ → Asked
  call_later_none call_later_relax : Asked
  call_later_us : ℤ → Asked

-- the method and the time for a callable
unfoldable pub method_of : Aio → Func → ℤ → Method × ℤ
method_of aio uni_soon timeout_us = (by_soon, timeout_us)
method_of aio uni_later timeout_us =
    if is_neg timeout_us
    then (if is_neg aio.loop_timeout_us then by_soon else by_later, aio.loop_timeout_us)
    else (by_later, timeout_us)
method_of aio other_func timeout_us = (if is_neg timeout_us then by_soon else by_later, timeout_us)

-- call_soon has to be allowed
unfoldable pub allowed : Aio → Method × ℤ → Method × ℤ
allowed aio (by_soon, t) = if not aio.allow_call_soon then (by_later, pos 0) else (by_soon, t)
allowed aio (by_later, t) = (by_later, t)

unfoldable pub ask : Aio → Method × ℤ → Asked
ask aio (by_soon, t) = call_soon
ask aio (by_later, t) =
    if aio.is_stock
    then call_at (if is_pos t then pos_part t * 1000 else 0)
    else if not (is_pos t)
    then call_later_none
    else if int_eq t aio.loop_timeout_us && aio.relax_timeout
    then call_later_relax
    else call_later_us t

abbrev pub state_of : Method → UniLoop
state_of by_soon = ul_call_soon
state_of by_later = ul_call_later

abbrev pub is_uni : Func → Bool
is_uni uni_soon = true
is_uni uni_later = true
is_uni other_func = false

-- `aio_loop_call`
unfoldable pub aio_loop_call : Func → ℤ → Aio → Asked × Aio
unfolding method_of allowed ask
aio_loop_call func timeout_us aio =
    let m = allowed aio (method_of aio func timeout_us) in
    (ask aio m, if is_uni func then record aio { uni_loop_state = state_of m.0 } else aio)

-- the rounds of uv_run, of which the k-th has so many events; the count is that of `uv_run_count`
unfoldable pub uv_rounds : (ℕ → ℕ) → ℕ → ℕ → ℕ
uv_rounds events zero count = count
uv_rounds events (suc fuel) count =
    let rest = uv_rounds events fuel (count + 1) in
    if leb 150 count || events count == 0 then count + 1 else rest

abbrev pub long_max : ℤ
long_max = pos 9223372036854775807

-- `idle_num++`, before the result is an `int` again
abbrev pub add_one : ℤ → ℤ
add_one (pos n) = pos (n + 1)
add_one (negsuc zero) = pos 0
add_one (negsuc (suc n)) = negsuc n

-- the count of idle rounds, an `int`; an overflow wraps
unfoldable pub next_idle : ℕ → ℕ → ℤ → ℤ
next_idle num_loop_cb num_writes idle_num =
    if num_loop_cb == 0 && num_writes == 0
    then if int_lt idle_num long_max then to_int (add_one idle_num) else idle_num
    else pos 0

-- which method uni_loop asks for
unfoldable pub next_func : Bool → ℤ → ℤ → Func
next_func relax_timeout timeout_ms idle_num =
    if not (int_lt (pos 50) idle_num)
    then uni_soon
    else if is_zero timeout_ms || not relax_timeout
    then uni_soon
    else uni_later

-- what uni_loop did: it stopped the loop of asyncio, did nothing, or ran so many rounds and asked for
-- its next call
pub data UniDone : Type 0 where
  stopped resting : UniDone
  ran : ℕ → Asked → UniDone

-- what libuv does while uni_loop runs: the events of each round, the calls back, the writes in flight
-- afterwards, and uv_backend_timeout
pub record UvRun : Type 0 where
  pub events : ℕ → ℕ
  pub num_loop_cb : ℕ
  pub num_writes : ℕ
  pub backend_timeout : ℤ

unfoldable pub uni_round : UvRun → Aio → UniDone × Aio
unfolding aio_loop_call next_idle next_func
uni_round uv aio =
    let idle' = next_idle uv.num_loop_cb uv.num_writes aio.idle_num in
    let (asked, aio') =
      aio_loop_call (next_func aio.relax_timeout uv.backend_timeout idle') (neg 1)
        (record aio { uni_loop_state = ul_running; idle_num = idle' }) in
    (ran (uv_rounds uv.events 151 0) asked, aio')

abbrev pub is_disabled : UniLoop → Bool
is_disabled ul_disabled = true
is_disabled _ = false

-- `uni_loop`
unfoldable pub uni_loop : ℤ → UvRun → Aio → UniDone × Aio
unfolding uni_round
uni_loop exit_code uv aio =
    if not (is_zero exit_code)
    then (stopped, record aio { uni_loop_state = ul_disabled })
    else if is_disabled aio.uni_loop_state
    then (resting, aio)
    else uni_round uv aio

-- `aio_loop_run`: its result, `exit_code` as it is when run_forever is called, and whether that was
-- called; `none` while lifespan_startup waits. The first call back of uni_loop is left out.
pub record Running : Type 0 where
  pub result : ℤ
  pub exit_code : ℤ
  pub served : Bool
  pub lifespan : Lifespan

unfoldable pub run_started_loop : ℤ → ℤ × Lifespan → Running
run_started_loop exit_code (hr, ls) =
    if not (is_zero hr)
    then record { result = pos 17; exit_code = pos 17; served = false; lifespan = ls }
    else record { result = pos 0; exit_code = exit_code; served = true; lifespan = ls }

unfoldable pub aio_loop_run :
    StartAnswers → Bool → Bool → ℤ → List Event → Lifespan → Option Running
unfolding run_started_loop lifespan_startup
aio_loop_run a asgi_app fail_on signalled during ls =
    elim (lifespan_startup a asgi_app fail_on signalled during ls) [
      | none ↦ none
      | some r ↦ some (run_started_loop signalled r)
    ]

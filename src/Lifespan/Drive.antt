-- ===== src/Lifespan/Drive.antt =====
-- fastwsgi/lifespan.c: the start and the stop of the application, which run the event loop until a future
-- is done or uni_loop stops the loop for an exit code. What the application calls while the loop runs is
-- a list of events, and `signalled` is `exit_code` after it; `none` stands for a loop that still runs.
-- The calls of aio_loop_call, which let libuv run meanwhile, are left out.
use fastpysgi.Base.{
  Bool, true, false, not, ◌||◌, Option, none, some, List, [], if◌then◌else◌, ℤ, neg, is_zero, pos,
}
use fastpysgi.Lifespan.{
  Mode, State, Future, Answer, Lifespan, is_ready, is_auto, Event, run, mode_off, starting, ready,
  stopping, failed, unsupported, waiting, startup_event, shutdown_event,
}
use fastpysgi.Lifespan.Release.{released}

-- how the call of the application ends
pub data AppCall : Type 0 where
  coroutine not_coroutine type_error other_error : AppCall

-- the objects that Python gives for the start: the handler, the future, the three methods, what the call
-- of the application gives, and the task
pub record StartAnswers : Type 0 where
  pub handler : Bool
  pub future : Bool
  pub receive : Bool
  pub send : Bool
  pub done_method : Bool
  pub call : AppCall
  pub task : Bool

abbrev pub is_off : Mode → Bool
is_off mode_off = true
is_off _ = false

abbrev pub new_future : Option Future
new_future = some (record { is_done = false; handed = [] })

-- a result on its way is set before the loop ends
abbrev pub finish_future : Option Future → Option Future
finish_future none = none
finish_future (some f) = some (record f { is_done = released (some f) })

-- the loop has ended
abbrev pub loop_over : ℤ → Option Future → Bool
loop_over signalled future = released future || not (is_zero signalled)

-- `fail_on_startup_error ? code : 0`
abbrev pub code_if : Bool → ℤ → ℤ
code_if true e = e
code_if false e = pos 0

-- the code for the state after the loop
unfoldable pub startup_code : Bool → State → ℤ
startup_code fail_on ready = pos 0
startup_code fail_on unsupported = pos 0
startup_code fail_on failed = code_if fail_on (neg 105)
startup_code fail_on _ = code_if fail_on (neg 106)

-- run_until_complete on the future of the start
unfoldable pub await_startup : Bool → ℤ → List Event → Lifespan → Option (ℤ × Lifespan)
unfolding startup_code run
await_startup fail_on signalled during ls =
    let d = run during ls in
    if loop_over signalled d.startup_future
    then some
        (startup_code fail_on d.state, record d { startup_future = finish_future d.startup_future })
    else none

-- once the application is called
unfoldable pub after_call :
    Bool → ℤ → AppCall → Bool → List Event → Lifespan → Option (ℤ × Lifespan)
unfolding await_startup
after_call fail_on signalled type_error task during ls =
    if is_auto ls.mode
    then some (pos 0, record ls { state = unsupported })
    else some (code_if fail_on (neg 101), ls)
after_call fail_on signalled other_error task during ls = some (code_if fail_on (neg 101), ls)
after_call fail_on signalled not_coroutine task during ls = some (code_if fail_on (neg 102), ls)
after_call fail_on signalled coroutine task during ls =
    if task then await_startup fail_on signalled during ls else some (pos 21, ls)

-- `lifespan_startup`, with an ASGI application or without
unfoldable pub lifespan_startup :
    StartAnswers → Bool → Bool → ℤ → List Event → Lifespan → Option (ℤ × Lifespan)
unfolding after_call
lifespan_startup a asgi_app fail_on signalled during ls =
    let waiting_ls : Lifespan = record ls { startup_future = new_future } in
    if is_off ls.mode || not asgi_app
    then some (pos 0, ls)
    else if not a.handler
    then some (neg 2, ls)
    else if not a.future
    then some (neg 3, record ls { startup_future = none })
    else if not a.receive
    then some (neg 4, waiting_ls)
    else if not a.send
    then some (neg 5, waiting_ls)
    else if not a.done_method
    then some (neg 6, waiting_ls)
    else after_call fail_on signalled a.call a.task during (record waiting_ls { state = starting })

-- `uni_loop_state_t`
pub data UniLoop : Type 0 where
  ul_disabled ul_call_soon ul_call_later ul_running : UniLoop

-- the parts of `g_srv` that the stop works on, and whether the application got the event
pub record StopState : Type 0 where
  pub exit_code : ℤ
  pub uni_loop_state : UniLoop
  pub told : Bool

-- run_until_complete on the future of the stop
unfoldable pub await_shutdown :
    ℤ → List Event → Lifespan → StopState → Option (ℤ × Lifespan × StopState)
unfolding run
await_shutdown signalled during ls g =
    let d = run during ls in
    if loop_over signalled d.shutdown_future
    then some (
      pos 0,
      record d { shutdown_future = finish_future d.shutdown_future },
      record g {
        exit_code = if is_zero signalled then g.exit_code else signalled;
        uni_loop_state = ul_disabled;
      },
    )
    else none

-- the event for an application that waits in `receive`; a call of `receive` that was answered is done,
-- and ls_future_set_result leaves a future alone that is done
abbrev pub is_told : Option Answer → Bool
is_told none = false
is_told (some waiting) = true
is_told (some startup_event) = false
is_told (some shutdown_event) = false

-- `lifespan_shutdown`; `future` says that Python gives the future
unfoldable pub lifespan_shutdown :
    Bool → Bool → ℤ → List Event → Lifespan → StopState → Option (ℤ × Lifespan × StopState)
unfolding await_shutdown
lifespan_shutdown future asgi_app signalled during ls g =
    if is_off ls.mode || not asgi_app
    then some (pos 0, ls, g)
    else if not (is_ready ls.state)
    then some (pos 0, ls, g)
    else if not future
    then some (neg 2, record ls { state = stopping; shutdown_future = none }, g)
    else await_shutdown signalled during
        (record ls { state = stopping; shutdown_future = new_future; recv_future = none })
        (record g { told = is_told ls.recv_future })

-- `lifespan_free`
unfoldable pub lifespan_free : Lifespan → Lifespan
lifespan_free ls = record ls { startup_future = none; shutdown_future = none; recv_future = none }

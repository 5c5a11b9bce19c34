-- ===== src/Lifespan.antt =====
-- The lifespan handler of fastwsgi/lifespan.c: the application's calls of receive and send, and the
-- end of its task. Python objects and the event loop are outside; a result for a future is handed to
-- the loop, which sets it later.
pub mod Ready
pub mod Release
pub mod Drive
pub mod Startup
pub mod Shutdown
mod Tests
use fastpysgi.Base.{
  Bool, true, false, ◌||◌, Option, none, some, List, [], ◌∷◌, ◌++◌, if◌then◌else◌, take, Bytes,
  codes,
}

pub data Mode : Type 0 where
  mode_off mode_on mode_auto : Mode

pub data State : Type 0 where
  idle starting ready stopping done failed unsupported : State

-- A future: whether it is done, and the results handed to the loop for it, the first one first.
pub record Future : Type 0 where
  pub is_done : Bool
  pub handed : List Bool

-- What `receive` answers: the future waits, or gets one of the two events.
pub data Answer : Type 0 where
  waiting startup_event shutdown_event : Answer

pub record Lifespan : Type 0 where
  pub mode : Mode
  pub state : State
  pub startup_future : Option Future
  pub shutdown_future : Option Future
  pub recv_future : Option Answer
  pub fail_message : Bytes

-- What the application sends: a message by its type, with the text that it holds.
pub data Message : Type 0 where
  startup_complete shutdown_complete unknown malformed : Message
  startup_failed shutdown_failed : Option Bytes → Message

-- How the task ended: normally, with TypeError or NotImplementedError, or with another exception.
pub data Outcome : Type 0 where
  returned not_supported raised : Outcome

-- `ls_future_set_result`
unfoldable pub set_result : Bool → Future → Future
set_result b f = if f.is_done then f else record f { handed = f.handed ++ b ∷ [] }

-- the call under `if (future)`
unfoldable pub set_result_of : Bool → Option Future → Option Future
unfolding set_result
set_result_of b none = none
set_result_of b (some f) = some (set_result b f)

-- `lifespan_recv`
unfoldable pub lifespan_recv : Lifespan → Lifespan
lifespan_recv ls = record ls {
  recv_future = some (elim (ls.state) [
    | starting ↦ startup_event
    | stopping ↦ shutdown_event
    | idle ↦ waiting
    | ready ↦ waiting
    | done ↦ waiting
    | failed ↦ waiting
    | unsupported ↦ waiting
  ]);
}

-- `snprintf` into the 512 bytes of `fail_message`
abbrev put_message : Bytes → Lifespan → Lifespan
put_message t ls = record ls { fail_message = take 511 t }

abbrev put_text : Option Bytes → Lifespan → Lifespan
put_text none ls = ls
put_text (some t) ls = put_message t ls

-- `lifespan_send`; the flag says that it returns a future and raises nothing
unfoldable pub lifespan_send : Message → Lifespan → Bool × Lifespan
unfolding set_result_of
lifespan_send startup_complete ls =
    (true, record ls { state = ready; startup_future = set_result_of true ls.startup_future })
lifespan_send (startup_failed text) ls =
    let d = put_text text (put_message (codes "lifespan.startup.failed (no message)") ls) in
    (true, record d { state = failed; startup_future = set_result_of false ls.startup_future })
lifespan_send shutdown_complete ls =
    (true, record ls { state = done; shutdown_future = set_result_of true ls.shutdown_future })
lifespan_send (shutdown_failed text) ls = (
  true,
  record (put_text text ls) {
    state = done;
    shutdown_future = set_result_of true ls.shutdown_future;
  },
)
lifespan_send unknown ls = (true, ls)
lifespan_send malformed ls = (false, ls)

abbrev pub is_starting : State → Bool
is_starting starting = true
is_starting _ = false

abbrev pub is_idle : State → Bool
is_idle idle = true
is_idle _ = false

abbrev pub is_ready : State → Bool
is_ready ready = true
is_ready _ = false

abbrev pub is_auto : Mode → Bool
is_auto mode_auto = true
is_auto _ = false

abbrev fail : Bytes → Lifespan → Lifespan
fail text ls = put_message text (record ls { state = failed })

-- the state that the end of the task leaves
unfoldable pub done_state : Outcome → Lifespan → Lifespan
done_state not_supported ls =
    if is_auto ls.mode
    then record ls { state = unsupported }
    else fail (codes "App does not support lifespan scope") ls
done_state raised ls =
    if is_starting ls.state || is_idle ls.state
    then fail (codes "Lifespan coroutine raised an exception") ls
    else record ls { state = done }
done_state returned ls =
    if is_starting ls.state
    then if is_auto ls.mode
      then record ls { state = unsupported }
      else fail (codes "Lifespan coroutine exited before sending startup.complete") ls
    else ls

-- `lifespan_done`: what is still pending gets a result
unfoldable pub lifespan_done : Outcome → Lifespan → Lifespan
unfolding done_state set_result_of
lifespan_done outcome ls =
    let d = done_state outcome ls in
    record d {
      startup_future = set_result_of (is_ready d.state) d.startup_future;
      shutdown_future = set_result_of true d.shutdown_future;
    }

-- the calls of the application
pub data Event : Type 0 where
  received : Event
  sent : Message → Event
  ended : Outcome → Event

unfoldable pub handle : Event → Lifespan → Lifespan
unfolding lifespan_recv lifespan_send lifespan_done
handle received ls = lifespan_recv ls
handle (sent m) ls = (lifespan_send m ls).1
handle (ended o) ls = lifespan_done o ls

unfoldable pub run : List Event → Lifespan → Lifespan
unfolding handle
run [] ls = ls
run (e ∷ es) ls = run es (handle e ls)

-- ===== src/Lifespan/Tests.antt =====
-- Runs of the lifespan handler (fastwsgi/lifespan.c), and its theorems at concrete inputs.
use fastpysgi.Base.{◌≡◌, refl, true, false, none, some, List, [], ◌∷◌, pos}
use fastpysgi.Lifespan.{
  Lifespan, lifespan_recv, lifespan_send, lifespan_done, Event, run, mode_auto, idle, starting,
  ready, waiting, startup_complete, returned, received, sent,
}
use fastpysgi.Lifespan.Ready.{taken_for_started}
use fastpysgi.Lifespan.Drive.{StartAnswers, StopState, lifespan_shutdown, coroutine, ul_disabled}
use fastpysgi.Lifespan.Startup.{is_none}
use fastpysgi.Lifespan.Shutdown.{returned_never_stops}

abbrev started_up : Lifespan
started_up = record {
  mode = mode_auto;
  state = starting;
  startup_future = some (record { is_done = false; handed = [] });
  shutdown_future = none;
  recv_future = none;
  fail_message = [];
}

abbrev good_start : List Event
good_start = received ∷ sent startup_complete ∷ []

runs_good : taken_for_started (run good_start started_up) ≡ true
unfolding run lifespan_send lifespan_recv
runs_good = refl

-- Python gives every object
abbrev answers : StartAnswers
answers = record {
  handler = true;
  future = true;
  receive = true;
  send = true;
  done_method = true;
  call = coroutine;
  task = true;
}

abbrev at_rest : Lifespan
at_rest = record {
  mode = mode_auto;
  state = idle;
  startup_future = none;
  shutdown_future = none;
  recv_future = none;
  fail_message = [];
}

-- a run until the application waits for the stop
abbrev up : Lifespan
up = record at_rest { state = ready; recv_future = some waiting }

abbrev stop_state : StopState
stop_state = record { exit_code = pos 1; uni_loop_state = ul_disabled; told = false }

returned_never_stops_example :
    is_none (lifespan_shutdown true true (pos 0) [] (lifespan_done returned up) stop_state) ≡ true
returned_never_stops_example = returned_never_stops up stop_state refl refl

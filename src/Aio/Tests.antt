-- ===== src/Aio/Tests.antt =====
-- The theorems on the united loop of fastwsgi/asgi.c at concrete inputs.
use fastpysgi.Base.{◌≡◌, refl, true, false, none, [], arith, ltb, if◌then◌else◌, pos}
use fastpysgi.Lifespan.{Lifespan, mode_on, idle}
use fastpysgi.Lifespan.Drive.{StartAnswers, coroutine, ul_call_later}
use fastpysgi.Aio.{Aio, uv_rounds, UvRun, uni_loop}
use fastpysgi.Aio.Schedule.{Scheduled, uni_loop-Scheduled}

-- three rounds with events
abbrev uv : UvRun
uv = record {
  events = λ k. if ltb k 3 then 1 else 0;
  num_loop_cb = 3;
  num_writes = 0;
  backend_timeout = pos 5;
}

abbrev aio : Aio
aio = record {
  uni_loop_state = ul_call_later;
  idle_num = pos 2147483647;
  allow_call_soon = false;
  loop_timeout_us = pos 3000;
  is_stock = true;
  relax_timeout = true;
}

four_rounds : uv_rounds uv.events 151 0 ≡ 4
unfolding uv_rounds
four_rounds = refl

uni_loop-Scheduled_example : Scheduled (pos 0) uv aio (uni_loop (pos 0) uv aio)
uni_loop-Scheduled_example = uni_loop-Scheduled (pos 0) uv aio (omega arith)

abbrev start : StartAnswers
start = record {
  handler = true;
  future = true;
  receive = true;
  send = true;
  done_method = true;
  call = coroutine;
  task = true;
}

abbrev at_rest : Lifespan
at_rest = record {
  mode = mode_on;
  state = idle;
  startup_future = none;
  shutdown_future = none;
  recv_future = none;
  fail_message = [];
}

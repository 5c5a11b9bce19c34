-- ===== src/Process/Tests.antt =====
-- The theorems on the life of the server (fastwsgi/server.c) at concrete inputs.
use fastpysgi.Base.{
  ◌≡◌, refl, true, false, not, none, some, List, [], ◌∷◌, arith, ◌==◌, llong_min, pos, codes,
}
use fastpysgi.Common.Attributes.{py_int, py_text, item_tuple, list_of}
use fastpysgi.Process.{Proc, zero_proc, InitAnswers, init_srv, Round, run_nowait}
use fastpysgi.Process.Settings.{Options, init_server}
use fastpysgi.Process.Accepted.{Accepted, init_server-Accepted}
use fastpysgi.Process.Unopened.{BindRefused, unopened_closed}
use fastpysgi.Process.Nowait.{is_some, run_nowait_returns}

-- three servers of a WSGI application
abbrev three : Proc
three = record zero_proc { servers_num = 3; hook_sigint = pos 1; nowait_mode = 2 }

-- the second server cannot be bound
abbrev second_taken : InitAnswers
second_taken = record {
  tls_num = pos 0;
  asyncio = pos 0;
  binds = λ i. not (i == 1);
  listens = λ i. true;
}

unopened_closed_example : BindRefused 3 1 (init_srv second_taken three)
unopened_closed_example = unopened_closed second_taken three 1 refl refl refl refl (omega arith)

-- a client comes and goes
abbrev rounds : List Round
rounds = (pos 0, 2) ∷ (pos 0, 3) ∷ (pos 0, 2) ∷ (pos 0, 2) ∷ []

run_nowait_returns_example : is_some (run_nowait 2 rounds (record three { inited = true })) ≡ true
run_nowait_returns_example = run_nowait_returns 2 rounds (record three { inited = true }) refl refl

-- the options that have to be there, and one server
abbrev small : Options
small = record {
  attr_int = λ name. pos 2;
  env_int = λ name. llong_min;
  app = true;
  is_asgi = false;
  bindlist = some (list_of (item_tuple (py_text (codes "::1") ∷ py_int (pos 80) ∷ []) ∷ []));
  root_path = none;
}

abbrev free_port : InitAnswers
free_port = record { tls_num = pos 0; asyncio = pos 0; binds = λ i. true; listens = λ i. true }

init_server-Accepted_example : Accepted free_port small (init_server 64 free_port small false)
init_server-Accepted_example = init_server-Accepted 64 free_port small false

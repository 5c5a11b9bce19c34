-- ===== src/Lifespan/Release.antt =====
-- The end of the task in fastwsgi/lifespan.c releases whoever waits.
use fastpysgi.Base.{
  ◌≡◌, refl, inl, inr, Bool, true, false, not, ◌&&◌, ◌||◌, Option, none, some, List, [], ◌∷◌, ◌++◌,
  arith, Bool-cases,
}
use fastpysgi.Lifespan.{
  Future, Lifespan, Message, Outcome, set_result, set_result_of, lifespan_recv, lifespan_send,
  is_starting, is_ready, done_state, lifespan_done, Event, handle, run, startup_complete,
  shutdown_complete, unknown, malformed, startup_failed, shutdown_failed, returned, not_supported,
  raised, received, sent, ended,
}

abbrev is_nil : List Bool → Bool
is_nil [] = true
is_nil (b ∷ bs) = false

-- the future, if there is one, has a result or gets one from the loop
abbrev pub released : Option Future → Bool
released none = true
released (some f) = f.is_done || not (is_nil f.handed)

is_nil-concat : (b : Bool) (bs : List Bool) → is_nil (bs ++ b ∷ []) ≡ false
is_nil-concat b [] = refl
is_nil-concat b (x ∷ xs) = refl

pub released-set_result : (b : Bool) (o : Option Future) → released (set_result_of b o) ≡ true
unfolding set_result_of set_result
released-set_result b none = refl
released-set_result b (some f) = elim (Bool-cases f.is_done) [
  | inl d ↦ simp d
  | inr d ↦ simp (d, is_nil-concat)
]

-- nobody waits any more
abbrev pub settled : Lifespan → Bool
settled ls = released ls.startup_future && released ls.shutdown_future

settled-send :
    (m : Message) (ls : Lifespan) → settled ls ≡ true → settled (lifespan_send m ls).1 ≡ true
unfolding lifespan_send
settled-send startup_complete ls h = ground (arith, released-set_result true ls.startup_future)
settled-send shutdown_complete ls h = ground (arith, released-set_result true ls.shutdown_future)
settled-send unknown ls h = h
settled-send malformed ls h = h
settled-send (startup_failed none) ls h =
    ground (arith, released-set_result false ls.startup_future)
settled-send (startup_failed (some t)) ls h =
    ground (arith, released-set_result false ls.startup_future)
settled-send (shutdown_failed none) ls h =
    ground (arith, released-set_result true ls.shutdown_future)
settled-send (shutdown_failed (some t)) ls h =
    ground (arith, released-set_result true ls.shutdown_future)

settled-done : (o : Outcome) (ls : Lifespan) → settled (lifespan_done o ls) ≡ true
unfolding lifespan_done
settled-done o ls = ground (
  arith,
  released-set_result (is_ready (done_state o ls).state) (done_state o ls).startup_future,
  released-set_result true (done_state o ls).shutdown_future,
)

settled-handle : (e : Event) (ls : Lifespan) → settled ls ≡ true → settled (handle e ls) ≡ true
unfolding handle lifespan_recv
settled-handle received ls h = h
settled-handle (sent m) ls h = settled-send m ls h
settled-handle (ended o) ls h = settled-done o ls

settled-run : (es : List Event) (ls : Lifespan) → settled ls ≡ true → settled (run es ls) ≡ true
unfolding run
settled-run [] ls h = h
settled-run (e ∷ es) ls h = settled-run es (handle e ls) (settled-handle e ls h)

not_starting : (o : Outcome) (ls : Lifespan) → is_starting (lifespan_done o ls).state ≡ false
unfolding lifespan_done done_state
not_starting returned ls = ground arith
not_starting not_supported ls = ground arith
not_starting raised ls = ground arith

-- The end of the task, however it came, leaves the state STARTING behind, and from then on nobody
-- waits for ever: each of the two futures that exists is done or has a result on its way, whatever
-- calls follow.
pub ended_released :
    (o : Outcome) (ls : Lifespan) (later : List Event)
    → (is_starting (lifespan_done o ls).state ≡ false)
      × (settled (run later (lifespan_done o ls)) ≡ true)
ended_released o ls later =
    (not_starting o ls, settled-run later (lifespan_done o ls) (settled-done o ls))

-- a list of calls with the end of the task among them
pub settled_after :
    (o : Outcome) (before later : List Event) (ls : Lifespan)
    → settled (run (before ++ ended o ∷ later) ls) ≡ true
unfolding run handle
settled_after o [] later ls = settled-run later (lifespan_done o ls) (settled-done o ls)
settled_after o (e ∷ before) later ls = settled_after o before later (handle e ls)

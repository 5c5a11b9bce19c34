-- ===== src/Lifespan/Ready.antt =====
-- When fastwsgi/lifespan.c takes the application for started.
use mathlib.Core.Bool.{false≢true}
use fastpysgi.Base.{
  ◌≡◌, refl, inl, inr, Bool, true, false, ◌||◌, Option, none, some, List, [], ◌∷◌, ◌++◌, arith,
  Bool-cases,
}
use fastpysgi.Lifespan.{
  Future, Lifespan, Message, Outcome, set_result, set_result_of, lifespan_recv, lifespan_send,
  is_ready, done_state, lifespan_done, Event, handle, run, startup_complete, shutdown_complete,
  unknown, malformed, startup_failed, shutdown_failed, returned, not_supported, raised, received,
  sent, ended,
}

abbrev pub is_complete : Event → Bool
is_complete received = false
is_complete (sent startup_complete) = true
is_complete (sent shutdown_complete) = false
is_complete (sent unknown) = false
is_complete (sent malformed) = false
is_complete (sent (startup_failed t)) = false
is_complete (sent (shutdown_failed t)) = false
is_complete (ended o) = false

-- the application has sent `startup.complete`
abbrev pub completed : List Event → Bool
completed [] = false
completed (e ∷ es) = is_complete e || completed es

abbrev first : List Bool → Bool
first [] = false
first (b ∷ bs) = b

-- the result that the loop will set first is True
abbrev pub first_true : Option Future → Bool
first_true none = false
first_true (some f) = first f.handed

-- The state is READY, or the one who waits for the start will read True.
abbrev pub taken_for_started : Lifespan → Bool
taken_for_started ls = is_ready ls.state || first_true ls.startup_future

first-concat : (b : Bool) (bs : List Bool) → first (bs ++ b ∷ []) ≡ true → (first bs || b) ≡ true
first-concat b [] h = h
first-concat b (x ∷ xs) h = ground arith

first_true-set_result :
    (b : Bool) (o : Option Future)
    → first_true (set_result_of b o) ≡ true
    → (first_true o || b) ≡ true
unfolding set_result_of set_result
first_true-set_result b none h = absurd (false≢true h)
first_true-set_result b (some f) h = elim (Bool-cases f.is_done) [
  | inl d ↦ ground arith
  | inr d ↦ first-concat b f.handed (rw d at h)
]

step-send :
    (m : Message) (ls : Lifespan)
    → taken_for_started (lifespan_send m ls).1 ≡ true
    → (taken_for_started ls || is_complete (sent m)) ≡ true
unfolding lifespan_send
step-send startup_complete ls h = ground arith
step-send shutdown_complete ls h = ground arith
step-send unknown ls h = ground arith
step-send malformed ls h = ground arith
step-send (startup_failed none) ls h =
    ground (arith, first_true-set_result false ls.startup_future h)
step-send (startup_failed (some t)) ls h =
    ground (arith, first_true-set_result false ls.startup_future h)
step-send (shutdown_failed none) ls h = ground arith
step-send (shutdown_failed (some t)) ls h = ground arith

-- the end of the task makes nothing ready and leaves the futures to its caller
done_state_lem :
    (o : Outcome) (ls : Lifespan)
    → (is_ready (done_state o ls).state ≡ true → is_ready ls.state ≡ true)
      × ((done_state o ls).startup_future ≡ ls.startup_future)
unfolding done_state
done_state_lem returned ls = ground arith
done_state_lem not_supported ls = ground arith
done_state_lem raised ls = ground arith

step-done :
    (o : Outcome) (ls : Lifespan)
    → taken_for_started (lifespan_done o ls) ≡ true
    → (taken_for_started ls || false) ≡ true
unfolding lifespan_done
step-done o ls h =
    let (back, same) = done_state_lem o ls in by_ready (is_ready (done_state o ls).state) refl
  where
    by_ready :
        (b : Bool) → is_ready (done_state o ls).state ≡ b → (taken_for_started ls || false) ≡ true
    by_ready true e = ground (arith, (done_state_lem o ls).0 e)
    by_ready false e =
        let late : first_true (set_result_of false ls.startup_future) ≡ true =
          rw ((done_state_lem o ls).1, e) at h in
        ground (arith, first_true-set_result false ls.startup_future late)

step :
    (e : Event) (ls : Lifespan)
    → taken_for_started (handle e ls) ≡ true
    → (taken_for_started ls || is_complete e) ≡ true
unfolding handle lifespan_recv
step received ls h = ground arith
step (sent m) ls h = step-send m ls h
step (ended o) ls h = step-done o ls h

-- Whatever the application does, its start is taken for complete (the state is READY, or the future
-- of the start will first get True) only if that was so before or it sent `startup.complete`.
pub run_started :
    (es : List Event) (ls : Lifespan)
    → taken_for_started (run es ls) ≡ true
    → (taken_for_started ls || completed es) ≡ true
unfolding run
run_started [] ls h = ground arith
run_started (e ∷ es) ls h =
    let later = run_started es (handle e ls) h in
    by_step (taken_for_started (handle e ls)) refl later
  where
    by_step :
        (b : Bool)
        → taken_for_started (handle e ls) ≡ b
        → (taken_for_started (handle e ls) || completed es) ≡ true
        → (taken_for_started ls || (is_complete e || completed es)) ≡ true
    by_step true q l = ground (arith, step e ls q)
    by_step false q l = ground arith

-- ===== src/Lifespan/Shutdown.antt =====
-- When lifespan_shutdown (fastwsgi/lifespan.c) returns, and when it waits for ever.
use mathlib.Core.Bool.{false≢true}
use fastpysgi.Base.{
  ◌≡◌, refl, sym, ap, ◌∙◌, Bool, true, false, not, ◌||◌, Option, none, some, List, [], ◌∷◌, arith,
  if◌then◌else◌, branch, ℤ, is_zero, pos,
}
use fastpysgi.Lifespan.Startup.{is_none}
use fastpysgi.Lifespan.Release.{released, released-set_result}
use fastpysgi.Lifespan.{
  State, Lifespan, lifespan_recv, lifespan_send, is_starting, is_ready, done_state, lifespan_done,
  Event, handle, run, idle, starting, ready, stopping, done, failed, unsupported, startup_complete,
  shutdown_complete, unknown, malformed, startup_failed, shutdown_failed, returned, received, sent,
  ended,
}
use fastpysgi.Lifespan.Drive.{
  is_off, new_future, loop_over, StopState, await_shutdown, is_told, lifespan_shutdown, ul_disabled,
}

-- the calls that end the wait for the stop
abbrev pub answers_stop : Event → Bool
answers_stop received = false
answers_stop (sent startup_complete) = false
answers_stop (sent (startup_failed t)) = false
answers_stop (sent shutdown_complete) = true
answers_stop (sent (shutdown_failed t)) = true
answers_stop (sent unknown) = false
answers_stop (sent malformed) = false
answers_stop (ended o) = true

abbrev pub some_answer : List Event → Bool
some_answer [] = false
some_answer (e ∷ es) = answers_stop e || some_answer es

abbrev stop_released : Lifespan → Bool
stop_released ls = released ls.shutdown_future

answer_releases :
    (e : Event) (ls : Lifespan) → answers_stop e ≡ true → stop_released (handle e ls) ≡ true
unfolding handle lifespan_send lifespan_done
answer_releases received ls h = absurd (false≢true h)
answer_releases (sent startup_complete) ls h = absurd (false≢true h)
answer_releases (sent (startup_failed t)) ls h = absurd (false≢true h)
answer_releases (sent shutdown_complete) ls h = released-set_result true ls.shutdown_future
answer_releases (sent (shutdown_failed none)) ls h = released-set_result true ls.shutdown_future
answer_releases (sent (shutdown_failed (some t))) ls h = released-set_result true ls.shutdown_future
answer_releases (sent unknown) ls h = absurd (false≢true h)
answer_releases (sent malformed) ls h = absurd (false≢true h)
answer_releases (ended o) ls h = released-set_result true (done_state o ls).shutdown_future

other_keeps :
    (e : Event) (ls : Lifespan)
    → answers_stop e ≡ false
    → (handle e ls).shutdown_future ≡ ls.shutdown_future
unfolding handle lifespan_send lifespan_recv
other_keeps received ls h = refl
other_keeps (sent startup_complete) ls h = refl
other_keeps (sent (startup_failed none)) ls h = refl
other_keeps (sent (startup_failed (some t))) ls h = refl
other_keeps (sent shutdown_complete) ls h = absurd (false≢true (sym h))
other_keeps (sent (shutdown_failed t)) ls h = absurd (false≢true (sym h))
other_keeps (sent unknown) ls h = refl
other_keeps (sent malformed) ls h = refl
other_keeps (ended o) ls h = absurd (false≢true (sym h))

-- a future that has its result keeps it
kept_released :
    (es : List Event) (ls : Lifespan) → stop_released ls ≡ true → stop_released (run es ls) ≡ true
unfolding run
kept_released [] ls h = h
kept_released (e ∷ es) ls h = kept_released es (handle e ls) (by_answer (answers_stop e) refl)
  where
    by_answer : (b : Bool) → answers_stop e ≡ b → stop_released (handle e ls) ≡ true
    by_answer true k = answer_releases e ls k
    by_answer false k = ap released (other_keeps e ls k) ∙ h

-- the future of the stop has a result exactly if one of the calls gave it
run_releases :
    (es : List Event) (ls : Lifespan)
    → stop_released ls ≡ false
    → stop_released (run es ls) ≡ some_answer es
unfolding run
run_releases [] ls h = h
run_releases (e ∷ es) ls h = by_answer (answers_stop e) refl (λ ls k. run_releases es ls k)
  where
    by_answer :
        (b : Bool)
        → answers_stop e ≡ b
        → ((ls : Lifespan) → stop_released ls ≡ false → stop_released (run es ls) ≡ some_answer es)
        → stop_released (run es (handle e ls)) ≡ (answers_stop e || some_answer es)
    by_answer true k later =
        kept_released es (handle e ls) (answer_releases e ls k)
        ∙ ap (λ b. b || some_answer es) (sym k)
    by_answer false k later =
        later (handle e ls) (ap released (other_keeps e ls k) ∙ h)
        ∙ ap (λ b. b || some_answer es) (sym k)

-- What lifespan_shutdown left, if it returned: the code 0, the exit code of before or that of a signal
-- during the wait, the other loop off, and the application told of the stop if it waited.
abbrev pub Stopped : ℤ → Lifespan → StopState → Option (ℤ × Lifespan × StopState) → Type 0
Stopped signalled ls g none = Unit {0}
Stopped signalled ls g (some (hr, d, h)) =
    (hr ≡ pos 0)
    × (h.exit_code ≡ (if is_zero signalled then g.exit_code else signalled))
    × (h.uni_loop_state ≡ ul_disabled)
    × (h.told ≡ is_told ls.recv_future)

pub lifespan_shutdown_returns :
    (signalled : ℤ) (during : List Event) (ls : Lifespan) (g : StopState)
    → is_off ls.mode ≡ false
    → is_ready ls.state ≡ true
    → let r = lifespan_shutdown true true signalled during ls g in
      (is_none r ≡ not (some_answer during || not (is_zero signalled))) × Stopped signalled ls g r
unfolding lifespan_shutdown await_shutdown
lifespan_shutdown_returns signalled during ls g m s =
    let P = λ (r : Option (ℤ × Lifespan × StopState)).
      (is_none r ≡ not (some_answer during || not (is_zero signalled)))
      × Stopped signalled ls g r in
    let waiting_ls : Lifespan = record ls {
      state = stopping;
      shutdown_future = new_future;
      recv_future = none;
    } in
    let e : loop_over signalled (run during waiting_ls).shutdown_future
        ≡ (some_answer during || not (is_zero signalled)) =
      ap (λ b. b || not (is_zero signalled)) (run_releases during waiting_ls refl) in
    branch P (is_off ls.mode || false) (λ k. absurd (false≢true (sym m ∙ ground arith)))
      λ k.
        branch P (not (is_ready ls.state)) (λ k. absurd (false≢true (sym (ap not s) ∙ k)))
          λ k.
            branch P (loop_over signalled (run during waiting_ls).shutdown_future)
              (λ h. (ap not (sym h ∙ e), (refl, refl, refl, refl))) (λ h. (ap not (sym h ∙ e), tt))

ready_not_starting : (s : State) → is_ready s ≡ true → is_starting s ≡ false
ready_not_starting idle h = absurd (false≢true h)
ready_not_starting starting h = absurd (false≢true h)
ready_not_starting ready h = refl
ready_not_starting stopping h = refl
ready_not_starting done h = refl
ready_not_starting failed h = refl
ready_not_starting unsupported h = refl

-- a task that returns leaves the state READY as it is
returned_keeps :
    (ls : Lifespan)
    → is_ready ls.state ≡ true
    → ((lifespan_done returned ls).mode ≡ ls.mode) × ((lifespan_done returned ls).state ≡ ls.state)
unfolding lifespan_done done_state
returned_keeps ls s =
    branch (λ (d : Lifespan). (d.mode ≡ ls.mode) × (d.state ≡ ls.state)) (is_starting ls.state)
      (λ k. absurd (false≢true (sym (ready_not_starting ls.state s) ∙ k))) (λ k. (refl, refl))

-- An application whose task returns after it is started: with no further call of it and no exit code
-- set, lifespan_shutdown waits for ever.
pub returned_never_stops :
    (ls : Lifespan) (g : StopState)
    → is_off ls.mode ≡ false
    → is_ready ls.state ≡ true
    → is_none (lifespan_shutdown true true (pos 0) [] (lifespan_done returned ls) g) ≡ true
returned_never_stops ls g m s =
    let kept = returned_keeps ls s in
    (lifespan_shutdown_returns (pos 0) [] (lifespan_done returned ls) g (ap is_off kept.0 ∙ m)
      (ap is_ready kept.1 ∙ s)).0

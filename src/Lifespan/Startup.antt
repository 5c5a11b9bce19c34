-- ===== src/Lifespan/Startup.antt =====
-- What lifespan_startup (fastwsgi/lifespan.c) lets through, and that it does not hang.
use mathlib.Core.Bool.{false≢true}
use fastpysgi.Base.{
  zero, suc, ◌≡◌, refl, sym, ap, ◌∙◌, ◌⊎◌, inl, inr, Bool, true, false, not, ◌||◌, Option, none,
  some, List, [], ◌∷◌, ◌++◌, arith, branch, ℤ, pos, negsuc,
}
use fastpysgi.Lifespan.{
  Mode, State, Lifespan, Outcome, lifespan_recv, lifespan_send, is_ready, is_auto, done_state,
  lifespan_done, Event, handle, run, idle, starting, ready, stopping, done, failed, unsupported,
  startup_complete, shutdown_complete, unknown, malformed, startup_failed, shutdown_failed,
  returned, not_supported, raised, received, sent, ended,
}
use fastpysgi.Lifespan.Ready.{completed, run_started}
use fastpysgi.Lifespan.Release.{settled, settled_after}
use fastpysgi.Lifespan.Drive.{
  AppCall, StartAnswers, is_off, new_future, finish_future, loop_over, startup_code, await_startup,
  after_call, lifespan_startup, coroutine, not_coroutine, type_error, other_error,
}

abbrev pub is_unsupported : State → Bool
is_unsupported unsupported = true
is_unsupported _ = false

-- UNSUPPORTED is a state of the mode `auto` only.
abbrev fits_mode : Lifespan → Bool
fits_mode ls = not (is_unsupported ls.state) || is_auto ls.mode

fits_mode-handle :
    (e : Event) (ls : Lifespan) → fits_mode ls ≡ true → fits_mode (handle e ls) ≡ true
unfolding handle lifespan_recv lifespan_send lifespan_done done_state
fits_mode-handle received ls h = h
fits_mode-handle (sent startup_complete) ls h = refl
fits_mode-handle (sent (startup_failed none)) ls h = refl
fits_mode-handle (sent (startup_failed (some t))) ls h = refl
fits_mode-handle (sent shutdown_complete) ls h = refl
fits_mode-handle (sent (shutdown_failed none)) ls h = refl
fits_mode-handle (sent (shutdown_failed (some t))) ls h = refl
fits_mode-handle (sent unknown) ls h = h
fits_mode-handle (sent malformed) ls h = h
fits_mode-handle (ended returned) ls h = ground arith
fits_mode-handle (ended not_supported) ls h = ground arith
fits_mode-handle (ended raised) ls h = ground arith

mode-handle : (e : Event) (ls : Lifespan) → (handle e ls).mode ≡ ls.mode
unfolding handle lifespan_recv lifespan_send lifespan_done done_state
mode-handle received ls = refl
mode-handle (sent startup_complete) ls = refl
mode-handle (sent (startup_failed none)) ls = refl
mode-handle (sent (startup_failed (some t))) ls = refl
mode-handle (sent shutdown_complete) ls = refl
mode-handle (sent (shutdown_failed none)) ls = refl
mode-handle (sent (shutdown_failed (some t))) ls = refl
mode-handle (sent unknown) ls = refl
mode-handle (sent malformed) ls = refl
mode-handle (ended returned) ls = ground arith
mode-handle (ended not_supported) ls = ground arith
mode-handle (ended raised) ls = ground arith

run_fits :
    (es : List Event) (ls : Lifespan)
    → fits_mode ls ≡ true
    → (fits_mode (run es ls) ≡ true) × ((run es ls).mode ≡ ls.mode)
unfolding run
run_fits [] ls h = (h, refl)
run_fits (e ∷ es) ls h =
    let rest = run_fits es (handle e ls) (fits_mode-handle e ls h) in
    (rest.0, rest.1 ∙ mode-handle e ls)

-- What a start that counts as good has behind it: the application sent `startup.complete`, or the mode
-- is `auto` and it does not support the protocol.
abbrev pub Good : Mode → List Event → Option (ℤ × Lifespan) → Type 0
Good m during none = Unit {0}
Good m during (some (negsuc e, ls)) = Unit {0}
Good m during (some (pos (suc n), ls)) = Unit {0}
Good m during (some (pos zero, ls)) =
    ((is_ready ls.state ≡ true) × (completed during ≡ true))
    ⊎ ((is_unsupported ls.state ≡ true) × (is_auto m ≡ true))

-- the code that is zero only for READY and UNSUPPORTED
startup_code-Good :
    (during : List Event) (m : Mode) (s : State) (ls : Lifespan)
    → ls.state ≡ s
    → (is_ready s ≡ true → completed during ≡ true)
    → (is_unsupported s ≡ true → is_auto m ≡ true)
    → Good m during (some (startup_code true s, ls))
unfolding startup_code
startup_code-Good during m ready ls e r u = inl (ap is_ready e, r refl)
startup_code-Good during m unsupported ls e r u = inr (ap is_unsupported e, u refl)
startup_code-Good during m failed ls e r u = tt
startup_code-Good during m idle ls e r u = tt
startup_code-Good during m starting ls e r u = tt
startup_code-Good during m stopping ls e r u = tt
startup_code-Good during m done ls e r u = tt

-- a start that waits for the application
abbrev fresh : Lifespan → Lifespan
fresh ls = record ls { startup_future = new_future; state = starting }

await_startup-Good :
    (signalled : ℤ) (during : List Event) (ls : Lifespan)
    → Good ls.mode during (await_startup true signalled during (fresh ls))
unfolding await_startup
await_startup-Good signalled during ls =
    let d = run during (fresh ls) in
    branch (Good ls.mode during) (loop_over signalled d.startup_future)
      (λ h.
        startup_code-Good during ls.mode d.state
          (record d { startup_future = finish_future d.startup_future }) refl
          (λ r. run_started during (fresh ls) (ground arith))
          (λ u. auto d u (run_fits during (fresh ls) refl)))
      (λ h. tt)
  where
    auto :
        (d : Lifespan)
        → is_unsupported d.state ≡ true
        → (fits_mode d ≡ true) × (d.mode ≡ ls.mode)
        → is_auto ls.mode ≡ true
    auto d u f = sym (ap is_auto f.1) ∙ ground (arith, f.0)

after_call-Good :
    (signalled : ℤ) (call : AppCall) (task : Bool) (during : List Event) (ls : Lifespan)
    → Good ls.mode during (after_call true signalled call task during (fresh ls))
unfolding after_call
after_call-Good signalled type_error task during ls =
    branch (Good ls.mode during) (is_auto ls.mode) (λ h. inr (refl, h)) (λ h. tt)
after_call-Good signalled other_error task during ls = tt
after_call-Good signalled not_coroutine task during ls = tt
after_call-Good signalled coroutine task during ls =
    branch (Good ls.mode during) task (λ h. await_startup-Good signalled during ls) (λ h. tt)

-- An ASGI application, the lifespan protocol not off, and `fail_on_startup_error` set: whatever Python
-- and the application do, lifespan_startup returns 0 only in the state READY, after the application
-- sent `startup.complete`, or in the state UNSUPPORTED in the mode `auto`.
pub lifespan_startup-Good :
    (a : StartAnswers) (signalled : ℤ) (during : List Event) (ls : Lifespan)
    → is_off ls.mode ≡ false
    → Good ls.mode during (lifespan_startup a true true signalled during ls)
unfolding lifespan_startup
lifespan_startup-Good a signalled during ls h =
    let P = Good ls.mode during in
    branch P (is_off ls.mode || false) (λ k. absurd (false≢true (sym h ∙ ground arith)))
      λ k.
        branch P (not a.handler) (λ k. tt)
          λ k.
            branch P (not a.future) (λ k. tt)
              λ k.
                branch P (not a.receive) (λ k. tt)
                  λ k.
                    branch P (not a.send) (λ k. tt)
                      λ k.
                        branch P (not a.done_method) (λ k. tt)
                          (λ k. after_call-Good signalled a.call a.task during ls)

abbrev pub is_none {ℓ} : {A : Type ℓ} → Option A → Bool
is_none none = true
is_none (some a) = false

-- the wait for a future that is released
wait_ends :
    (fail_on : Bool) (signalled : ℤ) (during : List Event) (ls : Lifespan)
    → settled (run during ls) ≡ true
    → is_none (await_startup fail_on signalled during ls) ≡ false
unfolding await_startup
wait_ends fail_on signalled during ls h =
    branch (λ (r : Option (ℤ × Lifespan)). is_none r ≡ false)
      (loop_over signalled (run during ls).startup_future) (λ k. refl)
      (λ k. absurd (false≢true (sym k ∙ ground (arith, h))))

call_ends :
    (call : AppCall) (fail_on task : Bool) (signalled : ℤ) (during : List Event) (ls : Lifespan)
    → settled (run during ls) ≡ true
    → is_none (after_call fail_on signalled call task during ls) ≡ false
unfolding after_call
call_ends type_error fail_on task signalled during ls h =
    branch (λ (r : Option (ℤ × Lifespan)). is_none r ≡ false) (is_auto ls.mode) (λ k. refl)
      (λ k. refl)
call_ends other_error fail_on task signalled during ls h = refl
call_ends not_coroutine fail_on task signalled during ls h = refl
call_ends coroutine fail_on task signalled during ls h =
    branch (λ (r : Option (ℤ × Lifespan)). is_none r ≡ false) task
      (λ k. wait_ends fail_on signalled during ls h) (λ k. refl)

-- Once the task of the application ends while lifespan_startup waits, the wait is over: the start
-- returns a code, whatever was called before and after.
pub lifespan_startup_ends :
    (a : StartAnswers) (asgi_app fail_on : Bool) (signalled : ℤ) (o : Outcome)
    (before later : List Event) (ls : Lifespan)
    → is_none (lifespan_startup a asgi_app fail_on signalled (before ++ ended o ∷ later) ls) ≡ false
unfolding lifespan_startup
lifespan_startup_ends a asgi_app fail_on signalled o before later ls =
    let P = λ (r : Option (ℤ × Lifespan)). is_none r ≡ false in
    let during = before ++ ended o ∷ later in
    branch P (is_off ls.mode || not asgi_app) (λ k. refl)
      λ k.
        branch P (not a.handler) (λ k. refl)
          λ k.
            branch P (not a.future) (λ k. refl)
              λ k.
                branch P (not a.receive) (λ k. refl)
                  λ k.
                    branch P (not a.send) (λ k. refl)
                      λ k.
                        branch P (not a.done_method) (λ k. refl)
                          λ k.
                            call_ends a.call fail_on a.task signalled during (fresh ls)
                              (settled_after o before later (fresh ls))

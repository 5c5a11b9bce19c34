-- ===== src/Aio/Schedule.antt =====
-- What uni_loop and aio_loop_run (fastwsgi/asgi.c) leave scheduled.
use mathlib.Core.Bool.{false≢true}
use fastpysgi.Base.{
  ℕ, ◌*◌, ◌≤◌, ◌≡◌, refl, ◌⊎◌, Bool, true, false, not, ◌&&◌, ◌||◌, Option, none, some, List, arith,
  if◌then◌else◌, branch, ℤ, neg, is_neg, is_zero, is_pos, pos_part, int_eq, int_lt, pos, negsuc,
}
use fastpysgi.Lifespan.Startup.{is_unsupported}
use fastpysgi.Lifespan.Ready.{completed}
use fastpysgi.Lifespan.{Mode, Lifespan, is_ready, is_auto, Event}
use fastpysgi.Lifespan.Drive.{UniLoop, ul_call_soon, ul_call_later, ul_running}
use fastpysgi.Aio.{
  Aio, Func, Method, Asked, method_of, allowed, ask, state_of, is_uni, aio_loop_call, next_idle,
  next_func, UniDone, UvRun, uni_round, is_disabled, uni_loop, Running, uni_soon, uni_later,
  other_func, by_soon, by_later, call_soon, call_at, call_later_none, call_later_relax,
  call_later_us, stopped, resting, ran,
}
use fastpysgi.Aio.Rounds.{RoundsEnd, uv_rounds-RoundsEnd}

-- The options of the loop, as asyncio_load_cfg bounds them.
abbrev pub InRange : ℤ → Type 0
InRange (pos n) = n ≤ 1000000
InRange (negsuc n) = n ≡ 0

-- a call of asyncio: call_soon only if it is allowed, and a time in nanoseconds that is an `int`
abbrev pub AskedOk : Aio → Asked → Type 0
AskedOk aio call_soon = aio.allow_call_soon ≡ true
AskedOk aio (call_at ns) = ns ≤ 2147483647
AskedOk aio call_later_none = Unit {0}
AskedOk aio call_later_relax = Unit {0}
AskedOk aio (call_later_us t) = is_pos t ≡ true

-- the state says by which method uni_loop will be called again
abbrev pub state_fits : Asked → UniLoop → Bool
state_fits call_soon ul_call_soon = true
state_fits call_soon _ = false
state_fits (call_at ns) ul_call_later = true
state_fits (call_at ns) _ = false
state_fits call_later_none ul_call_later = true
state_fits call_later_none _ = false
state_fits call_later_relax ul_call_later = true
state_fits call_later_relax _ = false
state_fits (call_later_us t) ul_call_later = true
state_fits (call_later_us t) _ = false

-- What uni_loop did. Exactly for an exit code it stopped asyncio's loop and is off; off, it did nothing;
-- else it ran at most 151 rounds of libuv and asked for its next call, as its state says.
abbrev pub Scheduled : ℤ → UvRun → Aio → UniDone × Aio → Type 0
Scheduled exit_code uv aio (stopped, aio') =
    (is_zero exit_code ≡ false) × (is_disabled aio'.uni_loop_state ≡ true)
Scheduled exit_code uv aio (resting, aio') =
    (is_zero exit_code ≡ true) × (is_disabled aio.uni_loop_state ≡ true) × (aio' ≡ aio)
Scheduled exit_code uv aio (ran n asked, aio') =
    (is_zero exit_code ≡ true)
    × (is_disabled aio.uni_loop_state ≡ false)
    × RoundsEnd uv.events 0 n
    × AskedOk aio asked
    × (state_fits asked aio'.uni_loop_state ≡ true)

small_time : (t : ℤ) → InRange t → (if is_pos t then pos_part t * 1000 else 0) ≤ 2147483647
small_time (pos n) r = ground arith
small_time (negsuc n) r = omega arith

later_ok :
    (aio : Aio) (t : ℤ)
    → InRange t
    → AskedOk aio (ask aio (by_later, t))
      × (state_fits (ask aio (by_later, t)) ul_call_later ≡ true)
unfolding ask
later_ok aio t r =
    let P = λ (q : Asked). AskedOk aio q × (state_fits q ul_call_later ≡ true) in
    branch P (aio.is_stock) (λ h. (small_time t r, refl))
      λ h.
        branch P (not (is_pos t)) (λ k. (tt, refl))
          λ k.
            branch P (int_eq t aio.loop_timeout_us && aio.relax_timeout) (λ l. (tt, refl))
              (λ l. (ground arith, refl))

allowed_ok :
    (aio : Aio) (m : Method × ℤ)
    → InRange m.1
    → let a = allowed aio m in
      AskedOk aio (ask aio a) × (state_fits (ask aio a) (state_of a.0) ≡ true)
unfolding ask allowed
allowed_ok aio (by_soon, t) r =
    branch
      (λ (a : Method × ℤ). AskedOk aio (ask aio a) × (state_fits (ask aio a) (state_of a.0) ≡ true))
      (not aio.allow_call_soon) (λ h. later_ok aio (pos 0) (omega arith))
      (λ h. (ground arith, refl))
allowed_ok aio (by_later, t) r = later_ok aio t r

method_InRange :
    (aio : Aio) (f : Func)
    → is_uni f ≡ true
    → InRange aio.loop_timeout_us
    → InRange (method_of aio f (neg 1)).1
unfolding method_of
method_InRange aio uni_soon u r = refl
method_InRange aio uni_later u r = r
method_InRange aio other_func u r = absurd (false≢true u)

uni_call_ok :
    (aio : Aio) (f : Func)
    → is_uni f ≡ true
    → InRange aio.loop_timeout_us
    → let r = aio_loop_call f (neg 1) aio in
      AskedOk aio r.0 × (state_fits r.0 r.1.uni_loop_state ≡ true)
unfolding aio_loop_call
uni_call_ok aio uni_soon u r =
    allowed_ok aio (method_of aio uni_soon (neg 1)) (method_InRange aio uni_soon u r)
uni_call_ok aio uni_later u r =
    allowed_ok aio (method_of aio uni_later (neg 1)) (method_InRange aio uni_later u r)
uni_call_ok aio other_func u r = absurd (false≢true u)

next_is_uni :
    (relax : Bool) (timeout idle_num : ℤ) → is_uni (next_func relax timeout idle_num) ≡ true
unfolding next_func
next_is_uni relax timeout idle_num =
    let P = λ (f : Func). is_uni f ≡ true in
    branch P (not (int_lt (pos 50) idle_num)) (λ h. refl)
      λ h. branch P (is_zero timeout || not relax) (λ k. refl) (λ k. refl)

-- With the timeout that the options allow: for an exit code uni_loop stops the loop of asyncio and is
-- off, and while it is off it does nothing. Else it runs libuv for at least one and at most 151 rounds,
-- all but the last with events, and asks asyncio for its own next call, by call_soon only if the options
-- allow it; the state says by which method, and a time in nanoseconds fits an `int`.
pub uni_loop-Scheduled :
    (exit_code : ℤ) (uv : UvRun) (aio : Aio)
    → InRange aio.loop_timeout_us
    → Scheduled exit_code uv aio (uni_loop exit_code uv aio)
unfolding uni_loop uni_round
uni_loop-Scheduled exit_code uv aio r =
    let P = Scheduled exit_code uv aio in
    let idle' = next_idle uv.num_loop_cb uv.num_writes aio.idle_num in
    let f = next_func aio.relax_timeout uv.backend_timeout idle' in
    let c =
      uni_call_ok (record aio { uni_loop_state = ul_running; idle_num = idle' }) f
        (next_is_uni aio.relax_timeout uv.backend_timeout idle') r in
    branch P (not (is_zero exit_code)) (λ h. (zero_of h, refl))
      λ h.
        branch P (is_disabled aio.uni_loop_state) (λ k. (no_code h, k, refl))
          (λ k. (no_code h, k, uv_rounds-RoundsEnd uv.events, c.0, c.1))
  where
    zero_of : not (is_zero exit_code) ≡ true → is_zero exit_code ≡ false
    zero_of h = ground (arith, h)

    no_code : not (is_zero exit_code) ≡ false → is_zero exit_code ≡ true
    no_code h = ground (arith, h)

-- After 2147483647 idle rounds the count of idle rounds is an `int` at its end, the test against
-- LONG_MAX does not stop it, and the next idle round makes it negative.
pub next_idle_overflow :
    (num_loop_cb num_writes : ℕ) (idle_num : ℤ)
    → num_loop_cb ≡ 0
    → num_writes ≡ 0
    → idle_num ≡ pos 2147483647
    → is_neg (next_idle num_loop_cb num_writes idle_num) ≡ true
unfolding next_idle
next_idle_overflow num_loop_cb num_writes idle_num c w i = rw (c, w, i) refl

-- what aio_loop_run returned: it served an application that is started or knows no lifespan, or not
abbrev pub Served : Mode → List Event → Option Running → Type 0
Served m during none = Unit {0}
Served m during (some r) =
    ((r.served ≡ true) × (is_ready r.lifespan.state ≡ true) × (completed during ≡ true))
    ⊎ ((r.served ≡ true) × (is_unsupported r.lifespan.state ≡ true) × (is_auto m ≡ true))
    ⊎ ((r.served ≡ false) × (r.exit_code ≡ pos 17) × (r.result ≡ pos 17))

-- ===== src/Loop/Timing.antt =====
-- What a timer of hbm/sys/linux/timer.cpp is set to and when its callback is told.
use devscan.Base.{
  ℕ, ◌+◌, ◌*◌, ◌%◌, ◌^◌, ◌<◌, ◌≡◌, refl, ap, ◌∙◌, Bool, true, false, Option, none, some,
  if◌then◌else◌, ◌==◌, Bool-cases, inl, inr, arith,
}
use devscan.Base.Int.{ℤ, pos, minus_one}
use devscan.Loop.Timer.{
  TimerSpec, TimerCalls, Timer, no_time, is_running, spec_of, to_unsigned, settime, set,
  set_milliseconds, tell, cancel,
}

-- The descriptor for every `unsigned int`: no product wraps, the nanoseconds stay below a second, the
-- expiry is the period exactly, and it is not zero unless the period is; the interval is the same
-- where the timer repeats, and zero where it does not.
pub spec_of-period :
    (period_ms : ℕ) (repeated : Bool)
    → ((spec_of period_ms repeated).value_sec * 1000000000 + (spec_of period_ms repeated).value_nsec
        ≡ period_ms * 1000000)
      × ((spec_of period_ms repeated).value_nsec < 1000000000)
      × (is_running (spec_of period_ms repeated) ≡ (if period_ms == 0 then false else true))
      × ((spec_of period_ms repeated).interval_sec * 1000000000
            + (spec_of period_ms repeated).interval_nsec
          ≡ (if repeated then period_ms * 1000000 else 0))
unfolding spec_of is_running
spec_of-period period_ms true = (ground arith, ground arith, ground arith, ground arith)
spec_of-period period_ms false = (ground arith, ground arith, ground arith, ground arith)

-- `timerfd_settime` succeeds with a valid time and starts the timer, and stops it with a time of zero.
pub record IsTimerFd (calls : TimerCalls) : Type 0 where
  pub starts :
      (fd : ℕ) (spec : TimerSpec) (s : calls.State)
      → is_running spec ≡ true
      → spec.value_nsec < 1000000000
      → spec.interval_nsec < 1000000000
      → ((calls.settime fd spec s).0 ≡ pos 0)
        × (is_running (calls.gettime fd (calls.settime fd spec s).1) ≡ true)
  pub ends :
      (fd : ℕ) (s : calls.State)
      → is_running (calls.gettime fd (calls.settime fd no_time s).1) ≡ false

module _ (calls : TimerCalls) (call : calls.Handler → Bool → Timer calls → Timer calls)
    (laws : IsTimerFd calls) where
  cancel-running :
      (timer : Timer calls)
      → is_running (calls.gettime timer.fd timer.state) ≡ true
      → cancel calls call timer ≡ (
        pos 1,
        (settime calls call no_time
            (tell calls call timer.handler false (record timer { handler = none }))).1,
      )
  unfolding cancel
  cancel-running timer e = rw (cancel, e)

  cancel-idle :
      (timer : Timer calls)
      → is_running (calls.gettime timer.fd timer.state) ≡ false
      → cancel calls call timer
        ≡ (pos 0, (settime calls call no_time (record timer { handler = none })).1)
  unfolding cancel
  cancel-idle timer e = rw (cancel, e)

  settime-ends :
      (timer : Timer calls)
      → is_running (
          calls.gettime
            (settime calls call no_time timer).1.fd
            (settime calls call no_time timer).1.state)
        ≡ false
  unfolding settime
  settime-ends timer = laws.ends timer.fd timer.state

  abbrev pub runs_now : Timer calls → Bool
  runs_now timer = is_running (calls.gettime timer.fd timer.state)

  cancel-ends : (timer : Timer calls) → runs_now (cancel calls call timer).1 ≡ false
  cancel-ends timer = elim (Bool-cases (runs_now timer)) [
    | inl e ↦
        ap (λ (r : ℤ × Timer calls). runs_now r.1) (cancel-running timer e)
        ∙ settime-ends (tell calls call timer.handler false (record timer { handler = none }))
    | inr e ↦
        ap (λ (r : ℤ × Timer calls). runs_now r.1) (cancel-idle timer e)
        ∙ settime-ends (record timer { handler = none })
  ]

  spec_of-interval :
      (period_ms : ℕ) (repeated : Bool) → (spec_of period_ms repeated).interval_nsec < 1000000000
  unfolding spec_of
  spec_of-interval period_ms true = ground arith
  spec_of-interval period_ms false = ground arith

  set-some :
      (period_ms : ℕ) (repeated : Bool) (h : calls.Handler) (timer : Timer calls)
      → (period_ms == 0) ≡ false
      → set calls call period_ms repeated (some h) timer
        ≡ settime calls call (spec_of period_ms repeated) (record timer { handler = some h })
  unfolding set
  set-some period_ms repeated h timer e = rw (set, e)

  settime-starts :
      (period_ms : ℕ) (repeated : Bool) (timer : Timer calls)
      → (period_ms == 0) ≡ false
      → ((settime calls call (spec_of period_ms repeated) timer).0 ≡ pos 0)
        × (runs_now (settime calls call (spec_of period_ms repeated) timer).1 ≡ true)
  unfolding settime
  settime-starts period_ms repeated timer e =
      laws.starts timer.fd (spec_of period_ms repeated) timer.state
        ((spec_of-period period_ms repeated).2 ∙ rw e) (spec_of-period period_ms repeated).1
        (spec_of-interval period_ms repeated)

  handler-settime :
      (spec : TimerSpec) (timer : Timer calls)
      → (settime calls call spec timer).1.handler ≡ timer.handler
  unfolding settime
  handler-settime spec timer = refl

  tell-some :
      (h : calls.Handler) (fired : Bool) (timer : Timer calls)
      → tell calls call (some h) fired timer ≡ call h fired timer
  unfolding tell
  tell-some h fired timer = refl

  -- A timer that is set for a period that is not zero is running. Cancelling it returns 1 and tells the
  -- callback once, with `false`, as that of a timer without a callback; whatever the callback does with
  -- the timer, also if it sets it again, the timer is stopped afterwards, and cancelling it once more
  -- returns 0.
  pub set-cancel :
      (period_ms : ℕ) (repeated : Bool) (h : calls.Handler) (timer : Timer calls)
      → (period_ms == 0) ≡ false
      → ((set calls call period_ms repeated (some h) timer).0 ≡ pos 0)
        × (cancel calls call (set calls call period_ms repeated (some h) timer).1 ≡ (
          pos 1,
          (settime calls call no_time (
              call h false (record (set calls call period_ms repeated (some h) timer).1 {
                handler = none;
              }))).1,
        ))
        × (runs_now (cancel calls call (set calls call period_ms repeated (some h) timer).1).1
            ≡ false)
        × ((cancel calls call
              (cancel calls call (set calls call period_ms repeated (some h) timer).1).1).0
            ≡ pos 0)
  set-cancel period_ms repeated h timer e =
      let armed = (set calls call period_ms repeated (some h) timer).1 in
      let same = set-some period_ms repeated h timer e in
      let started = settime-starts period_ms repeated (record timer { handler = some h }) e in
      let runs : runs_now armed ≡ true =
        ap (λ (r : ℤ × Timer calls). runs_now r.1) same ∙ started.1 in
      let told : armed.handler ≡ some h =
        ap (λ (r : ℤ × Timer calls). r.1.handler) same
        ∙ handler-settime (spec_of period_ms repeated) (record timer { handler = some h }) in
      (
        ap (λ (r : ℤ × Timer calls). r.0) same ∙ started.0,
        cancel-running armed runs
            ∙ ap
                (λ (o : Option calls.Handler). (
                  pos 1,
                  (settime calls call no_time
                      (tell calls call o false (record armed { handler = none }))).1,
                ))
                told
            ∙ ap (λ (t : Timer calls). (pos 1, (settime calls call no_time t).1))
                (tell-some h false (record armed { handler = none })),
        cancel-ends armed,
        ap (λ (r : ℤ × Timer calls). r.0)
            (cancel-idle (cancel calls call armed).1 (cancel-ends armed)),
      )

  set-zero :
      (repeated : Bool) (o : Option calls.Handler) (timer : Timer calls)
      → set calls call 0 repeated o timer ≡ (minus_one, timer)
  unfolding set
  set-zero repeated o timer = refl

  -- A count of milliseconds that an `unsigned int` holds is the period. A larger one loses its multiple
  -- of 2^32: what remains is the period, and where nothing remains the call is refused with -1 and
  -- changes nothing.
  pub set_milliseconds-wraps :
      (period k : ℕ) (repeated : Bool) (o : Option calls.Handler) (timer : Timer calls)
      → period < 2 ^ 32
      → (set_milliseconds calls call (pos (period + k * 2 ^ 32)) repeated o timer
          ≡ set calls call period repeated o timer)
        × (set_milliseconds calls call (pos (k * 2 ^ 32)) repeated o timer ≡ (minus_one, timer))
  unfolding set_milliseconds to_unsigned
  set_milliseconds-wraps period k repeated o timer h =
      let e : (period + k * 2 ^ 32) % 2 ^ 32 ≡ period = omega arith in
      let z : k * 2 ^ 32 % 2 ^ 32 ≡ 0 = omega arith in
      (
        ap (λ (p : ℕ). set calls call p repeated o timer) e,
        ap (λ (p : ℕ). set calls call p repeated o timer) z ∙ set-zero repeated o timer,
      )

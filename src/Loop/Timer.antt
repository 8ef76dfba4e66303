-- ===== src/Loop/Timer.antt =====
-- hbm/sys/linux/timer.cpp. The calls on the timer descriptor and the callback are parameters; a callback
-- acts on the whole timer, since it may set or cancel it.
use devscan.Base.{
  ℕ, ◌-◌, ◌*◌, ◌/◌, ◌%◌, ◌^◌, Bool, true, false, Option, none, some, if◌then◌else◌, ◌==◌, ◌&&◌, not,
}
use devscan.Base.Int.{ℤ, pos, negsuc, minus_one, is_pos}

-- `itimerspec`: the first expiry and the interval, in seconds and nanoseconds.
pub record TimerSpec : Type 0 where
  pub value_sec : ℕ
  pub value_nsec : ℕ
  pub interval_sec : ℕ
  pub interval_nsec : ℕ

abbrev pub no_time : TimerSpec
no_time = record { value_sec = 0; value_nsec = 0; interval_sec = 0; interval_nsec = 0 }

pub record TimerCalls : Type 1 where
  pub State : Type 0
  pub Handler : Type 0
  pub timerfd_create : State → Option ℕ × State
  pub settime : ℕ → TimerSpec → State → ℤ × State
  pub gettime : ℕ → State → TimerSpec
  pub read : ℕ → State → ℤ × State
  pub close : ℕ → State → State
  -- the event loop
  pub add_event : ℕ → State → State
  pub erase_event : ℕ → State → State

pub record Timer (calls : TimerCalls) : Type 0 where
  pub fd : ℕ
  pub handler : Option calls.Handler
  pub state : calls.State

-- A timer that is running has a first expiry.
unfoldable pub is_running : TimerSpec → Bool
is_running spec = not (spec.value_sec == 0 && spec.value_nsec == 0)

-- What is written to the descriptor for a period in milliseconds, in `unsigned int`.
unfoldable pub spec_of : ℕ → Bool → TimerSpec
spec_of period_ms repeated =
    let period_s = period_ms / 1000 in
    let nanoseconds = (period_ms % 1000) * 1000 % 2 ^ 32 * 1000 % 2 ^ 32 in
    record {
      value_sec = period_s;
      value_nsec = nanoseconds;
      interval_sec = if repeated then period_s else 0;
      interval_nsec = if repeated then nanoseconds else 0;
    }

-- The conversion of `std::chrono::milliseconds::count` to `unsigned int`.
unfoldable pub to_unsigned : ℤ → ℕ
to_unsigned (pos n) = n % 2 ^ 32
to_unsigned (negsuc n) = 2 ^ 32 - 1 - n % 2 ^ 32

module _ (calls : TimerCalls) (call : calls.Handler → Bool → Timer calls → Timer calls) where
  -- The constructor; `none` where it throws.
  unfoldable pub create : calls.State → Option (Timer calls)
  create s = elim ((calls.timerfd_create s).0) [
    | none ↦ none
    | some fd ↦
        some (record {
          fd = fd;
          handler = none;
          state = calls.add_event fd (calls.timerfd_create s).1;
        })
  ]

  unfoldable pub settime : TimerSpec → Timer calls → ℤ × Timer calls
  settime spec timer = (
    (calls.settime timer.fd spec timer.state).0,
    record timer { state = (calls.settime timer.fd spec timer.state).1 },
  )

  unfoldable pub set : ℕ → Bool → Option calls.Handler → Timer calls → ℤ × Timer calls
  unfolding spec_of settime
  set period_ms repeated handler timer =
      if period_ms == 0
      then (minus_one, timer)
      else settime (spec_of period_ms repeated) (record timer { handler = handler })

  unfoldable pub set_milliseconds : ℤ → Bool → Option calls.Handler → Timer calls → ℤ × Timer calls
  unfolding set to_unsigned
  set_milliseconds period repeated handler timer = set (to_unsigned period) repeated handler timer

  -- `if (handler) handler(fired)`
  unfoldable pub tell : Option calls.Handler → Bool → Timer calls → Timer calls
  tell none fired timer = timer
  tell (some h) fired timer = call h fired timer

  unfoldable pub cancel : Timer calls → ℤ × Timer calls
  unfolding is_running settime tell
  cancel timer =
      let cleared = record timer { handler = none } in
      if is_running (calls.gettime timer.fd timer.state)
      then (pos 1, (settime no_time (tell timer.handler false cleared)).1)
      else (pos 0, (settime no_time cleared).1)

  unfoldable pub process : Timer calls → ℤ × Timer calls
  unfolding tell
  process timer =
      let read = calls.read timer.fd timer.state in
      let after = record timer { state = read.1 } in
      if is_pos read.0 then (read.0, tell after.handler true after) else (read.0, after)

  -- The destructor.
  unfoldable pub destroy : Timer calls → calls.State
  unfolding cancel
  destroy timer =
      let erased = record timer { state = calls.erase_event timer.fd timer.state } in
      let cancelled = (cancel erased).1 in calls.close cancelled.fd cancelled.state

  -- The move constructor: the descriptor and the handler are copied, and the source keeps both.
  unfoldable pub move : Timer calls → Timer calls × Timer calls
  move source =
      let state = calls.add_event source.fd source.state in
      (
        record { fd = source.fd; handler = source.handler; state = state },
        record source { state = state },
      )

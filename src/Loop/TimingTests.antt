-- ===== src/Loop/TimingTests.antt =====
-- A timer and a notifier over small descriptors, and the theorems at concrete ones.
use devscan.Base.{
  ℕ, zero, suc, ◌+◌, ◌*◌, ◌^◌, ◌≡◌, ◌<◌, refl, Bool, true, false, none, some, if◌then◌else◌, ◌==◌,
  arith,
}
use devscan.Base.Int.{ℤ, pos, minus_one, is_pos}
use devscan.Loop.Timer.{
  TimerSpec, TimerCalls, Timer, no_time, is_running, spec_of, settime, set, set_milliseconds,
  cancel,
}
use devscan.Loop.Timing.{IsTimerFd, runs_now, spec_of-period, set-cancel, set_milliseconds-wraps}
use devscan.Loop.Notifier.{NotifierCalls, Notifier, process}
use devscan.Loop.Counting.{IsEventFd, iterate, notify_times, woken, notify-process}

-- The state of the descriptor is what it was set to last, and callbacks are counted.
data Clock : Type 0 where
  clock : TimerSpec → ℕ → Clock

abbrev spec_now : Clock → TimerSpec
spec_now (clock spec told) = spec

abbrev set_clock : TimerSpec → Clock → Clock
set_clock spec (clock old told) = clock spec told

abbrev count_call : Clock → Clock
count_call (clock spec told) = clock spec (suc told)

abbrev clocks : TimerCalls
clocks = record {
  State = Clock;
  Handler = ℕ;
  timerfd_create = λ s. (some 5, s);
  settime = λ fd spec s. (pos 0, set_clock spec s);
  gettime = λ fd s. spec_now s;
  read = λ fd s. (minus_one, s);
  close = λ fd s. s;
  add_event = λ fd s. s;
  erase_event = λ fd s. s;
}

spec_now-set_clock : (spec : TimerSpec) (s : Clock) → spec_now (set_clock spec s) ≡ spec
spec_now-set_clock spec (clock old told) = refl

starts_lem :
    (spec : TimerSpec) (s : Clock)
    → is_running spec ≡ true
    → is_running (spec_now (set_clock spec s)) ≡ true
starts_lem spec (clock old told) e = e

ends_lem : (s : Clock) → is_running (spec_now (set_clock no_time s)) ≡ false
unfolding is_running
ends_lem (clock old told) = refl

abbrev clocks_laws : IsTimerFd clocks
clocks_laws = record {
  starts = λ fd spec s run within interval. (refl, starts_lem spec s run);
  ends = λ fd s. ends_lem s;
}

-- A callback that sets the timer again.
abbrev call_back : ℕ → Bool → Timer clocks → Timer clocks
call_back h fired timer = record timer {
  handler = some h;
  state = set_clock (spec_of 7 false) (count_call timer.state);
}

abbrev fresh : Timer clocks
fresh = record { fd = 5; handler = none; state = clock no_time 0 }

spec_of-period_example :
    ((spec_of 1500 true).value_sec * 1000000000 + (spec_of 1500 true).value_nsec ≡ 1500 * 1000000)
    × ((spec_of 1500 true).value_nsec < 1000000000)
    × (is_running (spec_of 1500 true) ≡ (if 1500 == 0 then false else true))
    × ((spec_of 1500 true).interval_sec * 1000000000 + (spec_of 1500 true).interval_nsec
        ≡ (if true then 1500 * 1000000 else 0))
spec_of-period_example = spec_of-period 1500 true

abbrev armed : Timer clocks
armed = (set clocks call_back 1500 false (some 3) fresh).1

set-cancel_example :
    ((set clocks call_back 1500 false (some 3) fresh).0 ≡ pos 0)
    × (cancel clocks call_back armed ≡ (
      pos 1,
      (settime clocks call_back no_time (call_back 3 false (record armed { handler = none }))).1,
    ))
    × (runs_now clocks call_back clocks_laws (cancel clocks call_back armed).1 ≡ false)
    × ((cancel clocks call_back (cancel clocks call_back armed).1).0 ≡ pos 0)
set-cancel_example = set-cancel clocks call_back clocks_laws 1500 false 3 fresh refl

set_milliseconds-wraps_example :
    (set_milliseconds clocks call_back (pos (7 + 2 * 2 ^ 32)) true (some 3) fresh
      ≡ set clocks call_back 7 true (some 3) fresh)
    × (set_milliseconds clocks call_back (pos (2 * 2 ^ 32)) true (some 3) fresh
        ≡ (minus_one, fresh))
set_milliseconds-wraps_example =
    set_milliseconds-wraps clocks call_back clocks_laws 7 2 true (some 3) fresh (omega arith)

-- The counter of the event descriptor, and the calls of the callback.
data Count : Type 0 where
  count : ℕ → ℕ → Count

abbrev pending : Count → ℕ
pending (count c told) = c

write_count : Count → ℤ × Count
write_count (count c told) = (pos 8, count (suc c) told)

read_count : Count → ℤ × ℕ × Count
read_count (count zero told) = (minus_one, 0, count 0 told)
read_count (count (suc c) told) = (pos 8, suc c, count 0 told)

abbrev counts_calls : NotifierCalls
counts_calls = record {
  State = Count;
  Handler = ℕ;
  eventfd = λ s. (some 6, s);
  write = λ fd s. write_count s;
  read = λ fd s. read_count s;
  close = λ fd s. s;
  add_event = λ fd s. s;
  erase_event = λ fd s. s;
}

write_count-pending : (s : Count) → pending (write_count s).1 ≡ pending s + 1
unfolding write_count
write_count-pending (count c told) = omega arith

read_count-gives :
    (s : Count) → 0 < pending s → (is_pos (read_count s).0 ≡ true) × ((read_count s).1 ≡ pending s)
unfolding read_count
read_count-gives (count zero told) h = elim h [ ]
read_count-gives (count (suc c) told) h = (refl, refl)

read_count-zero : (s : Count) → pending s ≡ 0 → is_pos (read_count s).0 ≡ false
unfolding read_count
read_count-zero (count zero told) e = refl
read_count-zero (count (suc c) told) e = absurd (omega arith)

abbrev counts_laws : IsEventFd counts_calls
counts_laws = record {
  counter = λ fd s. pending s;
  counts = λ fd s h. write_count-pending s;
  gives = λ fd s h. read_count-gives s h;
  is_empty = λ fd s e. read_count-zero s e;
}

abbrev one_more : Count → Count
one_more (count c told) = count c (suc told)

abbrev call_counted : ℕ → Notifier counts_calls → Notifier counts_calls
call_counted h n = record n { state = one_more n.state }

abbrev quiet : Notifier counts_calls
quiet = record { fd = 6; handler = some 1; state = count 0 0 }

notify-process_example :
    (process counts_calls call_counted
      (notify_times counts_calls call_counted counts_laws 3 quiet)).1
    ≡ iterate 3 (call_counted 1) (
        woken counts_calls call_counted counts_laws
          (notify_times counts_calls call_counted counts_laws 3 quiet))
notify-process_example =
    notify-process counts_calls call_counted counts_laws 1 3 quiet (λ t. refl) refl refl
      (omega arith)

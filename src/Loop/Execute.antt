-- ===== src/Loop/Execute.antt =====
-- How hbm/sys/linux/eventloop.cpp runs: the events of `epoll_wait`, `execute` and `execute_for`, on
-- fuel, which `no_fuel` and `out_of_fuel` say has ended.
use devscan.Base.{
  ℕ, zero, suc, ◌+◌, ◌-◌, ◌*◌, ◌/◌, ◌%◌, ◌^◌, Option, none, some, true, false, List, [], ◌∷◌,
  if◌then◌else◌, ◌==◌, leb, ltb,
}
use devscan.Base.Int.{ℤ, pos, negsuc, minus_one}
use devscan.Loop.System.{
  System, EventLoop, Pointer, stop_pointer, change_pointer, info_pointer, Signal, Waited,
  interrupted, failed, signals,
}
use devscan.Loop.EventLoop.{behind, erase_event, drain, drain_changes}

-- What becomes of an event of `epoll_wait`.
pub data Dispatched (system : System) : Type 0 where
  goes_on stops : EventLoop system → Dispatched system
  dangling no_fuel : Dispatched system

pub data Executed (system : System) : Type 0 where
  returns : ℤ → EventLoop system → Executed system
  faults out_of_fuel : Executed system

module _ (system : System) (call : system.Handler → EventLoop system → ℤ × EventLoop system) where
  abbrev pub as_dispatched : Option (EventLoop system) → Dispatched system
  as_dispatched none = no_fuel
  as_dispatched (some loop) = goes_on loop

  unfoldable pub on_hangup : Pointer → EventLoop system → Dispatched system
  unfolding erase_event behind
  on_hangup stop_pointer loop = goes_on loop
  on_hangup change_pointer loop = goes_on (erase_event system call system.change_fd loop)
  on_hangup (info_pointer fd node) loop = elim (behind fd node loop.event_infos) [
    | none ↦ dangling
    | some h ↦ goes_on (erase_event system call fd loop)
  ]

  unfoldable pub on_readable : ℕ → Pointer → EventLoop system → Dispatched system
  unfolding drain drain_changes behind
  on_readable fuel stop_pointer loop = stops loop
  on_readable fuel change_pointer loop = as_dispatched (drain_changes system call fuel fuel loop)
  on_readable fuel (info_pointer fd node) loop = elim (behind fd node loop.event_infos) [
    | none ↦ dangling
    | some h ↦ as_dispatched (drain system call fuel h loop)
  ]

  unfoldable pub handle_signal : ℕ → Signal → EventLoop system → Dispatched system
  unfolding on_hangup on_readable
  handle_signal fuel signal loop =
      if signal.hangup
      then on_hangup signal.pointer loop
      else if signal.readable
      then on_readable fuel signal.pointer loop
      else goes_on loop

  -- The loop over the events of one `epoll_wait`.
  unfoldable pub dispatch : ℕ → List Signal → EventLoop system → Dispatched system
  unfolding handle_signal
  dispatch fuel [] loop = goes_on loop
  dispatch fuel (signal ∷ rest) loop = elim (handle_signal fuel signal loop) [
    | goes_on after ↦ dispatch fuel rest after
    | stops after ↦ stops after
    | dangling ↦ dangling
    | no_fuel ↦ no_fuel
  ]

  -- `epoll_wait`, again while it is interrupted.
  unfoldable pub wait : ℕ → ℤ → EventLoop system → Option (Waited × EventLoop system)
  wait zero timeout loop = none
  wait (suc fuel) timeout loop =
      let after = record loop { state = (system.epoll_wait timeout loop.state).1 } in
      elim ((system.epoll_wait timeout loop.state).0) [
        | interrupted ↦ wait fuel timeout after
        | failed ↦ some (failed, after)
        | signals events ↦ some (signals events, after)
      ]

  -- What a round makes of the events: the end, or the next round.
  unfoldable pub round :
      ℕ
      → (EventLoop system → Executed system)
      → Option (Waited × EventLoop system)
      → Executed system
  unfolding dispatch
  round fuel next none = out_of_fuel
  round fuel next (some (interrupted, loop)) = returns minus_one loop
  round fuel next (some (failed, loop)) = returns minus_one loop
  round fuel next (some (signals [], loop)) = returns (pos 0) loop
  round fuel next (some (signals (signal ∷ rest), loop)) =
      elim (dispatch fuel (signal ∷ rest) loop) [
        | goes_on after ↦ next after
        | stops after ↦ returns (pos 0) after
        | dangling ↦ faults
        | no_fuel ↦ out_of_fuel
      ]

  unfoldable pub execute : ℕ → ℕ → EventLoop system → Executed system
  unfolding wait round
  execute fuel zero loop = out_of_fuel
  execute fuel (suc rounds) loop = round fuel (execute fuel rounds) (wait fuel minus_one loop)

  -- `static_cast<int>` of a count of milliseconds.
  unfoldable pub to_int : ℕ → ℤ
  to_int n =
      if ltb (n % 2 ^ 32) (2 ^ 31) then pos (n % 2 ^ 32) else negsuc (2 ^ 32 - 1 - n % 2 ^ 32)

  -- The loop of `execute_for`, up to the end in nanoseconds.
  unfoldable pub execute_until : ℕ → ℕ → ℕ → EventLoop system → Executed system
  unfolding wait round to_int
  execute_until fuel zero end_time loop = out_of_fuel
  execute_until fuel (suc rounds) end_time loop =
      let read = system.now loop.state in
      let after = record loop { state = read.1 } in
      elim (leb end_time read.0) [
        | true ↦ returns (pos 0) after
        | false ↦
            round fuel (execute_until fuel rounds end_time)
              (wait fuel (to_int ((end_time - read.0) / 1000000)) after)
      ]

  -- The time to wait in milliseconds. Without one the end is the epoch of the clock.
  unfoldable pub execute_for : ℕ → ℕ → ℕ → EventLoop system → Executed system
  unfolding execute_until
  execute_for fuel rounds time_to_wait loop =
      if time_to_wait == 0
      then execute_until fuel rounds 0 loop
      else let read = system.now loop.state in
        execute_until fuel rounds (read.0 + time_to_wait * 1000000) (record loop { state = read.1 })

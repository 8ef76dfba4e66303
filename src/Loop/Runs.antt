-- ===== src/Loop/Runs.antt =====
-- How `execute` of hbm/sys/linux/eventloop.cpp ends: its rounds as a relation.
use devscan.Base.{◌↔◌, ◌≢◌, ℕ, zero, suc, ◌≡◌, refl, Option, none, some, List, [], ◌∷◌}
use mathlib.Core.Path.{subst}
use devscan.Base.Int.{ℤ, pos, minus_one}
use devscan.Loop.System.{System, EventLoop, Signal, Waited, interrupted, failed, signals}
use devscan.Loop.Execute.{
  Dispatched, goes_on, stops, dangling, no_fuel, dispatch, wait, Executed, returns, faults,
  out_of_fuel, round, execute,
}

module _ (system : System) (call : system.Handler → EventLoop system → ℤ × EventLoop system) where
  -- The rounds of `execute` by which it returns a result: a failed `epoll_wait`, one without events, a
  -- stop event, or a batch that is handled and the rounds after it.
  pub data Runs (fuel : ℕ) : EventLoop system → ℤ → EventLoop system → Type 0 where
    fails :
        {loop after : EventLoop system}
        → wait system call fuel minus_one loop ≡ some (failed, after)
        → Runs fuel loop minus_one after
    times_out :
        {loop after : EventLoop system}
        → wait system call fuel minus_one loop ≡ some (signals [], after)
        → Runs fuel loop (pos 0) after
    is_stopped :
        {loop woken after : EventLoop system} (signal : Signal) (rest : List Signal)
        → wait system call fuel minus_one loop ≡ some (signals (signal ∷ rest), woken)
        → dispatch system call fuel (signal ∷ rest) woken ≡ stops after
        → Runs fuel loop (pos 0) after
    turns :
        {loop woken next after : EventLoop system} {result : ℤ} (signal : Signal)
        (rest : List Signal)
        → wait system call fuel minus_one loop ≡ some (signals (signal ∷ rest), woken)
        → dispatch system call fuel (signal ∷ rest) woken ≡ goes_on next
        → Runs fuel next result after
        → Runs fuel loop result after

  -- The rounds are those of the code.
  Runs-execute :
      {fuel : ℕ} {loop after : EventLoop system} {result : ℤ}
      → Runs fuel loop result after
      → (rounds : ℕ) × (execute system call fuel rounds loop ≡ returns result after)
  unfolding execute round
  Runs-execute (fails e) = (1, rw (execute, e))
  Runs-execute (times_out e) = (1, rw (execute, e))
  Runs-execute (is_stopped signal rest e d) = (1, rw (execute, e, round, d))
  Runs-execute (turns signal rest e d run) =
      let (rounds, done) = Runs-execute run in (suc rounds, rw (execute, e, round, d) done)

  again-ne-interrupted :
      (timeout : ℤ) (fuel : ℕ) (w : Waited) (loop woken : EventLoop system)
      → wait system call fuel timeout loop ≢ some (interrupted, woken)
      → (elim w [
        | interrupted ↦ wait system call fuel timeout loop
        | failed ↦ some (failed, loop)
        | signals events ↦ some (signals events, loop)
      ])
        ≢ some (interrupted, woken)
  again-ne-interrupted timeout fuel interrupted loop woken ih = ih
  again-ne-interrupted timeout fuel failed loop woken ih = λ e. cc
  again-ne-interrupted timeout fuel (signals events) loop woken ih = λ e. cc

  wait-ne-interrupted :
      (timeout : ℤ) (fuel : ℕ) (loop woken : EventLoop system)
      → wait system call fuel timeout loop ≢ some (interrupted, woken)
  unfolding wait
  wait-ne-interrupted timeout zero loop woken e = cc
  wait-ne-interrupted timeout (suc fuel) loop woken e =
      let after = record loop { state = (system.epoll_wait timeout loop.state).1 } in
      again-ne-interrupted timeout fuel (system.epoll_wait timeout loop.state).0 after woken
        (wait-ne-interrupted timeout fuel after woken) e

  abbrev Returned : ℕ → EventLoop system → Executed system → Type 0
  Returned fuel loop (returns result after) = Runs fuel loop result after
  Returned fuel loop faults = Unit {0}
  Returned fuel loop out_of_fuel = Unit {0}

  turned :
      (fuel : ℕ) (loop woken after : EventLoop system) (signal : Signal) (rest : List Signal)
      (e : Executed system)
      → wait system call fuel minus_one loop ≡ some (signals (signal ∷ rest), woken)
      → dispatch system call fuel (signal ∷ rest) woken ≡ goes_on after
      → Returned fuel after e
      → Returned fuel loop e
  turned fuel loop woken after signal rest (returns result end) w d run = turns signal rest w d run
  turned fuel loop woken after signal rest faults w d run = tt
  turned fuel loop woken after signal rest out_of_fuel w d run = tt

  -- What a round makes of a batch, given the rounds that follow.
  dispatched-Returned :
      (fuel : ℕ) (loop woken : EventLoop system) (signal : Signal) (rest : List Signal)
      (next : EventLoop system → Executed system) (d : Dispatched system)
      → wait system call fuel minus_one loop ≡ some (signals (signal ∷ rest), woken)
      → dispatch system call fuel (signal ∷ rest) woken ≡ d
      → ((after : EventLoop system) → Returned fuel after (next after))
      → Returned fuel loop (elim d [
        | goes_on after ↦ next after
        | stops after ↦ returns (pos 0) after
        | dangling ↦ faults
        | no_fuel ↦ out_of_fuel
      ])
  dispatched-Returned fuel loop woken signal rest next (goes_on after) e d later =
      turned fuel loop woken after signal rest (next after) e d (later after)
  dispatched-Returned fuel loop woken signal rest next (stops after) e d later =
      is_stopped signal rest e d
  dispatched-Returned fuel loop woken signal rest next dangling e d later = tt
  dispatched-Returned fuel loop woken signal rest next no_fuel e d later = tt

  round-Returned :
      (fuel : ℕ) (loop : EventLoop system) (next : EventLoop system → Executed system)
      (w : Option (Waited × EventLoop system))
      → wait system call fuel minus_one loop ≡ w
      → ((after : EventLoop system) → Returned fuel after (next after))
      → Returned fuel loop (round system call fuel next w)
  unfolding round
  round-Returned fuel loop next none e later = tt
  round-Returned fuel loop next (some (interrupted, woken)) e later =
      absurd (wait-ne-interrupted minus_one fuel loop woken e)
  round-Returned fuel loop next (some (failed, woken)) e later = fails e
  round-Returned fuel loop next (some (signals [], woken)) e later = times_out e
  round-Returned fuel loop next (some (signals (signal ∷ rest), woken)) e later =
      dispatched-Returned fuel loop woken signal rest next
        (dispatch system call fuel (signal ∷ rest) woken) e refl later

  execute-Returned :
      (fuel rounds : ℕ) (loop : EventLoop system)
      → Returned fuel loop (execute system call fuel rounds loop)
  unfolding execute
  execute-Returned fuel zero loop = tt
  execute-Returned fuel (suc rounds) loop =
      round-Returned fuel loop (execute system call fuel rounds)
        (wait system call fuel minus_one loop) refl (execute-Returned fuel rounds)

  -- `execute` returns a result in a state exactly if its rounds lead there: the loop ends by a failed
  -- `epoll_wait` with -1, by one without events with 0, or by a stop event with 0, and by nothing else.
  pub execute-Runs :
      (fuel : ℕ) (loop after : EventLoop system) (result : ℤ)
      → ((rounds : ℕ) × (execute system call fuel rounds loop ≡ returns result after))
        ↔ Runs fuel loop result after
  execute-Runs fuel loop after result = (
    λ (rounds, e). subst (Returned fuel loop) e (execute-Returned fuel rounds loop),
    Runs-execute,
  )

-- ===== src/Loop/Drain.antt =====
-- What the callbacks of an event loop can do, and the loops that drain them.
use devscan.Base.{
  ℕ, zero, suc, ◌+◌, ◌≤◌, ◌<◌, ◌≡◌, ap, ◌∙◌, true, false, some, List, ◌++◌, length, append_assoc,
  length-append, if◌then◌else◌, Bool-cases, inl, inr, arith,
}
use devscan.Base.Int.{ℤ, is_pos}
use devscan.Loop.System.{System, EventLoop, Change, Infos}
use devscan.Loop.EventLoop.{drain}

-- A callback reaches the loop's members through `addEvent` and `eraseEvent` only, so that it appends
-- entries to the list of changes. What it can do without new events is finite: there is a bound for the
-- calls that find work and the changes that callbacks ask for, and the system calls of the loop itself
-- do not raise it.
pub record AreCallbacks (system : System)
    (call : system.Handler → EventLoop system → ℤ × EventLoop system) : Type 0 where
  pub requests : system.Handler → EventLoop system → List (Change system.Handler)
  pub appends :
      (h : system.Handler) (loop : EventLoop system)
      → (call h loop).1.change_list ≡ loop.change_list ++ requests h loop
  pub keeps :
      (h : system.Handler) (loop : EventLoop system)
      → (call h loop).1.event_infos ≡ loop.event_infos
  pub work : system.State → ℕ
  pub spends :
      (h : system.Handler) (loop : EventLoop system)
      → work (call h loop).1.state
          + length (requests h loop)
          + (if is_pos (call h loop).0 then 1 else 0)
        ≤ work loop.state
  pub work-epoll_del : (fd : ℕ) (s : system.State) → work (system.epoll_del fd s) ≤ work s
  pub work-epoll_add :
      (fd node : ℕ) (s : system.State) → work (system.epoll_add fd node s).1 ≤ work s
  pub work-read_change : (s : system.State) → work (system.read_change s).1 ≤ work s

-- What draining and applying leave: entries appended, paid for by the work, and the map as given.
pub record Leaves (system : System) (work : system.State → ℕ) (loop after : EventLoop system)
    (infos : Infos system.Handler) : Type 0 where
  pub more : List (Change system.Handler)
  pub appended : after.change_list ≡ loop.change_list ++ more
  pub paid : work after.state + length more ≤ work loop.state
  pub infos-eq : after.event_infos ≡ infos

module _ (system : System) (call : system.Handler → EventLoop system → ℤ × EventLoop system)
    (laws : AreCallbacks system call) where
  open laws use {requests, appends, keeps, work, spends}

  pub drain-again :
      (fuel : ℕ) (h : system.Handler) (loop : EventLoop system)
      → is_pos (call h loop).0 ≡ true
      → drain system call (suc fuel) h loop ≡ drain system call fuel h (call h loop).1
  unfolding drain
  drain-again fuel h loop e = rw (drain, e)

  pub drain-done :
      (fuel : ℕ) (h : system.Handler) (loop : EventLoop system)
      → is_pos (call h loop).0 ≡ false
      → drain system call (suc fuel) h loop ≡ some (call h loop).1
  unfolding drain
  drain-done fuel h loop e = rw (drain, e)

  abbrev pub Drained : system.Handler → EventLoop system → ℕ → Type 0
  Drained h loop fuel =
      (after : EventLoop system) × (drain system call fuel h loop ≡ some after)
      × Leaves system work loop after loop.event_infos

  -- With more fuel than work the loop of a callback ends.
  pub drain-Leaves :
      (fuel : ℕ) (h : system.Handler) (loop : EventLoop system)
      → work loop.state < fuel
      → Drained h loop fuel
  drain-Leaves zero h loop enough = elim enough [ ]
  drain-Leaves (suc fuel) h loop enough = elim (Bool-cases (is_pos (call h loop).0)) [
    | inl more ↦
        let cost = spends h loop in
        let cost' : work (call h loop).1.state + length (requests h loop) + 1 ≤ work loop.state =
          rw more at cost in
        let (after, e, l) = drain-Leaves fuel h (call h loop).1 (omega arith) in
        (
          after,
          drain-again fuel h loop more ∙ e,
          record {
            more = requests h loop ++ l.more;
            appended =
                l.appended
                ∙ ap (λ t. t ++ l.more) (appends h loop)
                ∙ append_assoc loop.change_list (requests h loop) l.more;
            paid = omega (arith, l.paid, length-append {0} (requests h loop) l.more);
            infos-eq = l.infos-eq ∙ keeps h loop;
          },
        )
    | inr done ↦ (
      (call h loop).1,
      drain-done fuel h loop done,
      record {
        more = requests h loop;
        appended = appends h loop;
        paid = omega (arith, spends h loop);
        infos-eq = keeps h loop;
      },
    )
  ]

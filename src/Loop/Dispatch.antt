-- ===== src/Loop/Dispatch.antt =====
-- The events of one `epoll_wait`: when they are all handled, and when a pointer leads nowhere.
use devscan.Base.{
  ℕ, zero, suc, ◌≡◌, refl, ap, sym, ◌∙◌, Bool, true, false, some, List, [], ◌∷◌, All, if◌then◌else◌,
  Bool-cases, Option-cases, inl, inr,
}
use mathlib.Core.Path.{subst}
use mathlib.Core.Option.{some-injective}
use devscan.Base.Int.{ℤ, is_pos}
use devscan.Loop.System.{
  System, EventLoop, Infos, Signal, Pointer, stop_pointer, change_pointer, info_pointer,
}
use devscan.Loop.EventLoop.{behind, drain, erase_event, drain_changes}
use devscan.Loop.Execute.{
  Dispatched, goes_on, stops, dangling, no_fuel, handle_signal, on_hangup, on_readable, dispatch,
}
use devscan.Loop.Drain.{AreCallbacks, drain-again, drain-done}
use devscan.Loop.Tracked.{IsKernel, IsTracked, drain-IsTracked, drain_changes-IsTracked}

abbrev pub is_change : Pointer → Bool
is_change stop_pointer = false
is_change change_pointer = true
is_change (info_pointer fd node) = false

-- No event of the change descriptor, but for the last event.
abbrev pub ChangesLast : List Signal → Type 0
ChangesLast [] = Unit {0}
ChangesLast (signal ∷ []) = Unit {0}
ChangesLast (signal ∷ next ∷ rest) = (is_change signal.pointer ≡ false) × ChangesLast (next ∷ rest)

either_branch {ℓ κ} :
    {A : Type ℓ} (P : A → Type κ) {x y : A} (b : Bool) → P x → P y → P (if b then x else y)
either_branch P true p q = p
either_branch P false p q = q

module _ (system : System) (call : system.Handler → EventLoop system → ℤ × EventLoop system)
    (laws : AreCallbacks system call) (kernel : IsKernel system call) where
  -- A pointer that does not lead to a dead element.
  abbrev pub Leads : Infos system.Handler → Pointer → Type 0
  Leads infos stop_pointer = Unit {0}
  Leads infos change_pointer = Unit {0}
  Leads infos (info_pointer fd node) = (h : system.Handler) × (behind fd node infos ≡ some h)

  drain-keeps :
      (fuel : ℕ) (h : system.Handler) (loop after : EventLoop system)
      → drain system call fuel h loop ≡ some after
      → after.event_infos ≡ loop.event_infos
  unfolding drain
  drain-keeps zero h loop after e = cc
  drain-keeps (suc fuel) h loop after e = elim (Bool-cases (is_pos (call h loop).0)) [
    | inl more ↦
        drain-keeps fuel h (call h loop).1 after
          (sym (drain-again system call laws fuel h loop more) ∙ e)
        ∙ laws.keeps h loop
    | inr done ↦
        let same : (call h loop).1 ≡ after =
          some-injective _ _ (sym (drain-done system call laws fuel h loop done) ∙ e) in
        ap (λ (l : EventLoop system). l.event_infos) (sym same) ∙ laws.keeps h loop
  ]

  -- An event that leads to no dead element: the loop goes on with all pointers alive.
  abbrev pub IsFine : Dispatched system → Type 0
  IsFine (goes_on after) = IsTracked system call laws kernel after
  IsFine (stops after) = IsTracked system call laws kernel after
  IsFine dangling = ⊥
  IsFine no_fuel = Unit {0}

  -- The same, and the map is as it was.
  abbrev Keeps : Infos system.Handler → Dispatched system → Type 0
  Keeps infos (goes_on after) =
      IsTracked system call laws kernel after × (after.event_infos ≡ infos)
  Keeps infos (stops after) = IsTracked system call laws kernel after
  Keeps infos dangling = ⊥
  Keeps infos no_fuel = Unit {0}

  erase_event-Keeps :
      (fd : ℕ) (loop : EventLoop system)
      → IsTracked system call laws kernel loop
      → Keeps loop.event_infos (goes_on (erase_event system call fd loop))
  unfolding erase_event
  erase_event-Keeps fd loop t =
      (λ k node r. t k node (sym (kernel.after-write_change loop.state k) ∙ r), refl)

  on_hangup-Keeps :
      (p : Pointer) (loop : EventLoop system)
      → IsTracked system call laws kernel loop
      → Leads loop.event_infos p
      → Keeps loop.event_infos (on_hangup system call p loop)
  unfolding on_hangup
  on_hangup-Keeps stop_pointer loop t l = (t, refl)
  on_hangup-Keeps change_pointer loop t l = erase_event-Keeps system.change_fd loop t
  on_hangup-Keeps (info_pointer fd node) loop t (h, e) =
      rw (on_hangup, e) (erase_event-Keeps fd loop t)

  on_readable-Keeps :
      (fuel : ℕ) (p : Pointer) (loop : EventLoop system)
      → IsTracked system call laws kernel loop
      → Leads loop.event_infos p
      → is_change p ≡ false
      → Keeps loop.event_infos (on_readable system call fuel p loop)
  unfolding on_readable
  on_readable-Keeps fuel stop_pointer loop t l c = t
  on_readable-Keeps fuel change_pointer loop t l c = cc
  on_readable-Keeps fuel (info_pointer fd node) loop t (h, e) c =
      elim (Option-cases (drain system call fuel h loop)) [
        | inl out ↦ rw (on_readable, e, out) tt
        | inr (after, run) ↦
            rw (on_readable, e, run)
              (
                drain-IsTracked system call laws kernel fuel h loop after run t,
                drain-keeps fuel h loop after run,
              )
      ]

  handle_signal-Keeps :
      (fuel : ℕ) (signal : Signal) (loop : EventLoop system)
      → IsTracked system call laws kernel loop
      → Leads loop.event_infos signal.pointer
      → is_change signal.pointer ≡ false
      → Keeps loop.event_infos (handle_signal system call fuel signal loop)
  unfolding handle_signal
  handle_signal-Keeps fuel signal loop t l c =
      either_branch (Keeps loop.event_infos) signal.hangup (on_hangup-Keeps signal.pointer loop t l)
        (either_branch (Keeps loop.event_infos) signal.readable
          (on_readable-Keeps fuel signal.pointer loop t l c) (t, refl))

  Keeps-IsFine : (infos : Infos system.Handler) (d : Dispatched system) → Keeps infos d → IsFine d
  Keeps-IsFine infos (goes_on after) k = k.0
  Keeps-IsFine infos (stops after) k = k
  Keeps-IsFine infos dangling k = k
  Keeps-IsFine infos no_fuel k = tt

  on_readable-IsFine :
      (fuel : ℕ) (p : Pointer) (loop : EventLoop system)
      → IsTracked system call laws kernel loop
      → Leads loop.event_infos p
      → IsFine (on_readable system call fuel p loop)
  unfolding on_readable
  on_readable-IsFine fuel stop_pointer loop t l = t
  on_readable-IsFine fuel change_pointer loop t l =
      elim (Option-cases (drain_changes system call fuel fuel loop)) [
        | inl out ↦ rw (on_readable, out) tt
        | inr (after, run) ↦
            rw (on_readable, run)
              (drain_changes-IsTracked system call laws kernel fuel fuel loop after run t)
      ]
  on_readable-IsFine fuel (info_pointer fd node) loop t l =
      Keeps-IsFine loop.event_infos (on_readable system call fuel (info_pointer fd node) loop)
        (on_readable-Keeps fuel (info_pointer fd node) loop t l refl)

  handle_signal-IsFine :
      (fuel : ℕ) (signal : Signal) (loop : EventLoop system)
      → IsTracked system call laws kernel loop
      → Leads loop.event_infos signal.pointer
      → IsFine (handle_signal system call fuel signal loop)
  unfolding handle_signal
  handle_signal-IsFine fuel signal loop t l =
      either_branch IsFine signal.hangup
        (Keeps-IsFine loop.event_infos (on_hangup system call signal.pointer loop)
          (on_hangup-Keeps signal.pointer loop t l))
        (either_branch IsFine signal.readable (on_readable-IsFine fuel signal.pointer loop t l) t)

  dispatch-rest :
      (fuel : ℕ) (rest : List Signal) (infos : Infos system.Handler) (d : Dispatched system)
      → Keeps infos d
      → ((after : EventLoop system)
          → IsTracked system call laws kernel after
          → after.event_infos ≡ infos
          → IsFine (dispatch system call fuel rest after))
      → IsFine (elim d [
        | goes_on after ↦ dispatch system call fuel rest after
        | stops after ↦ stops after
        | dangling ↦ dangling
        | no_fuel ↦ no_fuel
      ])
  dispatch-rest fuel rest infos (goes_on after) k next = next after k.0 k.1
  dispatch-rest fuel rest infos (stops after) k next = k
  dispatch-rest fuel rest infos dangling k next = k
  dispatch-rest fuel rest infos no_fuel k next = tt

  dispatch-last :
      (fuel : ℕ) (d : Dispatched system)
      → IsFine d
      → IsFine (elim d [
        | goes_on after ↦ dispatch system call fuel [] after
        | stops after ↦ stops after
        | dangling ↦ dangling
        | no_fuel ↦ no_fuel
      ])
  unfolding dispatch
  dispatch-last fuel (goes_on after) k = k
  dispatch-last fuel (stops after) k = k
  dispatch-last fuel dangling k = k
  dispatch-last fuel no_fuel k = tt

  -- The events of one `epoll_wait`, each of an element that is there, are handled with no access to a
  -- dead element, if an event of the change descriptor stands at the end only; and if every pointer
  -- that the kernel holds leads to a handler before, every one does so afterwards.
  pub dispatch-IsFine :
      (fuel : ℕ) (events : List Signal) (loop : EventLoop system)
      → ChangesLast events
      → All (λ (signal : Signal). Leads loop.event_infos signal.pointer) events
      → IsTracked system call laws kernel loop
      → IsFine (dispatch system call fuel events loop)
  unfolding dispatch
  dispatch-IsFine fuel [] loop c l t = t
  dispatch-IsFine fuel (signal ∷ []) loop c l t =
      dispatch-last fuel (handle_signal system call fuel signal loop)
        (handle_signal-IsFine fuel signal loop t l.0)
  dispatch-IsFine fuel (signal ∷ next ∷ rest) loop c l t =
      dispatch-rest fuel (next ∷ rest) loop.event_infos (handle_signal system call fuel signal loop)
        (handle_signal-Keeps fuel signal loop t l.0 c.0)
        λ after t' same.
          dispatch-IsFine fuel (next ∷ rest) after c.1
            (subst
              (λ (infos : Infos system.Handler).
                All (λ (s : Signal). Leads infos s.pointer) (next ∷ rest))
              (sym same) l.1)
            t'

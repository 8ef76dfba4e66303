-- ===== src/Loop/Tracked.antt =====
-- The pointers that the kernel holds for an event loop: they lead to elements of `m_eventInfos` before
-- and after `changeHandler`, and what an event for an element that is gone does.
use devscan.Base.{
  length, ◌+◌, ◌<◌, ◌⊎◌, ℕ, zero, suc, ◌≡◌, ap, sym, ◌∙◌, Option, none, some, [], if◌then◌else◌,
  ◌==◌, Bool-cases, Option-cases, inl, inr, arith,
}
use mathlib.Core.Path.{subst}
use mathlib.Core.Option.{some-injective}
use devscan.Base.Int.{ℤ, is_pos}
use devscan.Loop.System.{System, EventLoop, Change}
use devscan.Loop.EventLoop.{
  behind, drain, apply_change, process_changes, read_change, change_handler, remove_info,
  insert_info, get_elem?, drain_changes,
}
use devscan.Loop.Drain.{AreCallbacks, drain-again, drain-done}
use devscan.Loop.Changes.{process-end, process-next, process-stuck, change_handler-IsApplied}
use devscan.Loop.Infos.{behind-cons, behind-erase_info}

-- The interest list of `epoll`: a descriptor and the pointer registered with it. `epoll_ctl` changes the
-- entry of its descriptor alone, and EPOLL_CTL_ADD may fail. What else happens may end entries, as
-- closing a descriptor does, and makes none.
pub record IsKernel (system : System)
    (call : system.Handler → EventLoop system → ℤ × EventLoop system) : Type 0 where
  pub registered : ℕ → system.State → Option ℕ
  pub after-epoll_del :
      (fd k : ℕ) (s : system.State)
      → registered k (system.epoll_del fd s) ≡ (if fd == k then none else registered k s)
  pub after-epoll_add :
      (fd node k : ℕ) (s : system.State)
      → (registered k (system.epoll_add fd node s).1 ≡ registered k s)
        ⊎ ((fd ≡ k) × (registered k (system.epoll_add fd node s).1 ≡ some node))
  pub after-call :
      (h : system.Handler) (loop : EventLoop system) (k node : ℕ)
      → registered k (call h loop).1.state ≡ some node
      → registered k loop.state ≡ some node
  pub after-read_change :
      (s : system.State) (k : ℕ) → registered k (system.read_change s).1 ≡ registered k s
  pub after-write_change :
      (s : system.State) (k : ℕ) → registered k (system.write_change s).1 ≡ registered k s

module _ (system : System) (call : system.Handler → EventLoop system → ℤ × EventLoop system)
    (laws : AreCallbacks system call) (kernel : IsKernel system call) where
  open kernel use {registered, after-epoll_del, after-epoll_add, after-call, after-read_change}

  -- Every pointer that is registered leads to a handler.
  abbrev pub IsTracked : EventLoop system → Type 0
  IsTracked loop =
      (fd node : ℕ)
      → registered fd loop.state ≡ some node
      → (h : system.Handler) × (behind fd node loop.event_infos ≡ some h)

  call-IsTracked :
      (h : system.Handler) (loop : EventLoop system) → IsTracked loop → IsTracked (call h loop).1
  call-IsTracked h loop t fd node r =
      let (h', e) = t fd node (after-call h loop fd node r) in
      (h', ap (behind fd node) (laws.keeps h loop) ∙ e)

  pub drain-IsTracked :
      (fuel : ℕ) (h : system.Handler) (loop after : EventLoop system)
      → drain system call fuel h loop ≡ some after
      → IsTracked loop
      → IsTracked after
  unfolding drain
  drain-IsTracked zero h loop after e t = cc
  drain-IsTracked (suc fuel) h loop after e t = elim (Bool-cases (is_pos (call h loop).0)) [
    | inl more ↦
        drain-IsTracked fuel h (call h loop).1 after
          (sym (drain-again system call laws fuel h loop more) ∙ e) (call-IsTracked h loop t)
    | inr done ↦
        let same : (call h loop).1 ≡ after =
          some-injective _ _ (sym (drain-done system call laws fuel h loop done) ∙ e) in
        subst IsTracked same (call-IsTracked h loop t)
  ]

  remove_info-IsTracked :
      (fd : ℕ) (loop : EventLoop system)
      → IsTracked loop
      → IsTracked (remove_info system call fd loop)
  unfolding remove_info
  remove_info-IsTracked fd loop t k node r = ground (
    arith,
    after-epoll_del fd k loop.state,
    t k node,
    behind-erase_info k fd node loop.event_infos,
  )

  insert_info-IsTracked :
      (fd : ℕ) (h : system.Handler) (loop : EventLoop system)
      → registered fd loop.state ≡ none
      → IsTracked loop
      → IsTracked (insert_info system call fd h loop)
  unfolding insert_info
  insert_info-IsTracked fd h loop gone t k node r = elim (Bool-cases (fd == k)) [
    | inl same ↦ (
      h,
      ground (
        arith,
        after-epoll_add fd loop.next_node k loop.state,
        behind-cons fd k node loop.next_node h loop.event_infos,
      ),
    )
    | inr other ↦
        let (h', e) = t k node (ground (arith, after-epoll_add fd loop.next_node k loop.state)) in
        (h', behind-cons fd k node loop.next_node h loop.event_infos ∙ rw other e)
  ]

  apply_change-IsTracked :
      (fuel : ℕ) (c : Change system.Handler) (loop after : EventLoop system)
      → apply_change system call fuel c loop ≡ some after
      → IsTracked loop
      → IsTracked after
  unfolding apply_change
  apply_change-IsTracked fuel (fd, none) loop after e t =
      subst IsTracked (some-injective _ _ e) (remove_info-IsTracked fd loop t)
  apply_change-IsTracked fuel (fd, some h) loop after e t =
      let gone : registered fd (system.epoll_del fd loop.state) ≡ none =
        ground (arith, after-epoll_del fd fd loop.state) in
      drain-IsTracked fuel h (insert_info system call fd h (remove_info system call fd loop)) after
        e
        (insert_info-IsTracked fd h (remove_info system call fd loop) gone
          (remove_info-IsTracked fd loop t))

  process_changes-IsTracked :
      (fuel rounds i : ℕ) (loop after : EventLoop system)
      → process_changes system call fuel rounds i loop ≡ some after
      → IsTracked loop
      → IsTracked after
  unfolding process_changes
  process_changes-IsTracked fuel zero i loop after e t = cc
  process_changes-IsTracked fuel (suc rounds) i loop after e t =
      elim (Option-cases (get_elem? loop.change_list i)) [
        | inl end ↦
            let done : some loop ≡ some after =
              sym (process-end system call laws fuel rounds i loop end) ∙ e in
            subst IsTracked (some-injective _ _ done) t
        | inr (c, found) ↦ elim (Option-cases (apply_change system call fuel c loop)) [
          | inl out ↦
              let stuck : none ≡ some after =
                sym (process-stuck system call laws fuel rounds i c loop found out) ∙ e in
              cc
          | inr (next, step) ↦
              process_changes-IsTracked fuel rounds (suc i) next after
                (sym (process-next system call laws fuel rounds i c loop next found step) ∙ e)
                (apply_change-IsTracked fuel c loop next step t)
        ]
      ]

  read_change-IsTracked :
      (loop : EventLoop system) → IsTracked loop → IsTracked (read_change system call loop)
  unfolding read_change
  read_change-IsTracked loop t fd node r = t fd node (sym (after-read_change loop.state fd) ∙ r)

  change_handler-tracks :
      (fuel : ℕ) (loop : EventLoop system) (called : ℤ × EventLoop system)
      → change_handler system call fuel loop ≡ some called
      → IsTracked loop
      → IsTracked called.1
  unfolding change_handler
  change_handler-tracks fuel loop called e t =
      elim (Bool-cases (is_pos (system.read_change loop.state).0)) [
        | inl ready ↦
            elim (Option-cases
              (process_changes system call fuel fuel 0 (read_change system call loop))) [
                | inl out ↦
                    let stuck : none ≡ some called = sym (rw (change_handler, ready, out)) ∙ e in cc
                | inr (after, run) ↦
                    let same : some
                          ((system.read_change loop.state).0, record after { change_list = [] })
                        ≡ some called =
                      sym (rw (change_handler, ready, run)) ∙ e in
                    subst (λ (c : ℤ × EventLoop system). IsTracked c.1) (some-injective _ _ same)
                      (process_changes-IsTracked fuel fuel 0 (read_change system call loop) after
                        run (read_change-IsTracked loop t))
              ]
        | inr idle ↦
            let same : some ((system.read_change loop.state).0, read_change system call loop)
                ≡ some called =
              sym (rw (change_handler, idle)) ∙ e in
            subst (λ (c : ℤ × EventLoop system). IsTracked c.1) (some-injective _ _ same)
              (read_change-IsTracked loop t)
      ]

  pub drain_changes-IsTracked :
      (fuel rounds : ℕ) (loop after : EventLoop system)
      → drain_changes system call fuel rounds loop ≡ some after
      → IsTracked loop
      → IsTracked after
  unfolding drain_changes
  drain_changes-IsTracked fuel zero loop after e t = cc
  drain_changes-IsTracked fuel (suc rounds) loop after e t =
      elim (Option-cases (change_handler system call fuel loop)) [
        | inl out ↦ let stuck : none ≡ some after = sym (rw (drain_changes, out)) ∙ e in cc
        | inr (called, run) ↦
            let t' = change_handler-tracks fuel loop called run t in
            elim (Bool-cases (is_pos called.0)) [
              | inl more ↦
                  drain_changes-IsTracked fuel rounds called.1 after
                    (sym (rw (drain_changes, run, more)) ∙ e) t'
              | inr done ↦
                  let same : some called.1 ≡ some after = sym (rw (drain_changes, run, done)) ∙ e in
                  subst IsTracked (some-injective _ _ same) t'
            ]
      ]

  -- With more fuel than work and entries, `changeHandler` returns, and where every pointer that the
  -- kernel holds leads to a handler before, every one does so afterwards.
  change_handler-IsTracked :
      (fuel : ℕ) (loop : EventLoop system)
      → laws.work loop.state + length loop.change_list < fuel
      → IsTracked loop
      → (result : ℤ) × (after : EventLoop system) × (change_handler system call fuel loop
          ≡ some (result, after))
        × IsTracked after
  unfolding read_change
  change_handler-IsTracked fuel loop enough t =
      let kept : IsTracked (read_change system call loop) =
        λ fd node r. t fd node (sym (after-read_change loop.state fd) ∙ r) in
      elim (change_handler-IsApplied system call laws fuel loop enough) [
        | inl (ready, after, run, e, more, all, map_eq) ↦ (
          (system.read_change loop.state).0,
          record after { change_list = [] },
          e,
          process_changes-IsTracked fuel fuel 0 (read_change system call loop) after run kept,
        )
        | inr (idle, e) ↦ ((system.read_change loop.state).0, read_change system call loop, e, kept)
      ]

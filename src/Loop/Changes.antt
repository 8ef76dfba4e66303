-- ===== src/Loop/Changes.antt =====
-- What `changeHandler` makes of the list of changes.
use devscan.Base.{
  ◌⊎◌, ℕ, zero, suc, ◌+◌, ◌≤◌, ◌<◌, ◌≡◌, refl, ap, sym, ◌∙◌, true, false, Option, none, some, List,
  [], ◌∷◌, ◌++◌, length, append_assoc, append-nil, length-append, Bool-cases, inl, inr, arith,
}
use devscan.Base.Int.{ℤ, is_pos}
use devscan.Loop.System.{System, EventLoop, Change}
use devscan.Loop.EventLoop.{
  apply_change, process_changes, read_change, change_handler, remove_info, insert_info, get_elem?,
}
use devscan.Loop.Drain.{AreCallbacks, Leaves, drain-Leaves}
use devscan.Loop.Infos.{
  handler_of, after_changes, changed, handler_of-changed, get_elem?-append, get_elem?-length,
}

regroup :
    {A : Type 0} (xs : List A) (a : A) (ys zs : List A)
    → (xs ++ a ∷ ys) ++ zs ≡ (xs ++ a ∷ []) ++ (ys ++ zs)
regroup xs a ys zs = simp append_assoc

regroup_all :
    {A : Type 0} (xs : List A) (a : A) (ys zs us : List A)
    → (xs ++ a ∷ []) ++ ((ys ++ zs) ++ us) ≡ xs ++ (a ∷ ys ++ (zs ++ us))
regroup_all xs a ys zs us = simp append_assoc

module _ (system : System) (call : system.Handler → EventLoop system → ℤ × EventLoop system)
    (laws : AreCallbacks system call) where
  open laws use {work, work-epoll_del, work-epoll_add, work-read_change}

  apply_change-Leaves :
      (fuel : ℕ) (c : Change system.Handler) (loop : EventLoop system)
      → work loop.state < fuel
      → (after : EventLoop system) × (apply_change system call fuel c loop ≡ some after)
        × Leaves system work loop after (changed c loop.next_node loop.event_infos)
  unfolding apply_change changed
  apply_change-Leaves fuel (fd, none) loop enough = (
    remove_info system call fd loop,
    refl,
    record {
      more = [];
      appended = sym (append-nil loop.change_list);
      paid = omega (arith, work-epoll_del fd loop.state);
      infos-eq = refl;
    },
  )
  apply_change-Leaves fuel (fd, some h) loop enough =
      let ready = insert_info system call fd h (remove_info system call fd loop) in
      let cost = work-epoll_add fd loop.next_node (system.epoll_del fd loop.state) in
      let cost' = work-epoll_del fd loop.state in
      let (after, e, l) = drain-Leaves system call laws fuel h ready (omega arith) in
      (
        after,
        e,
        record {
          more = l.more;
          appended = l.appended;
          paid = omega (arith, l.paid);
          infos-eq = l.infos-eq;
        },
      )

  -- What the loop has made of the entries `rest`, and of those that were appended on the way.
  abbrev pub IsApplied :
      List (Change system.Handler)
      → List (Change system.Handler)
      → EventLoop system
      → Option (EventLoop system)
      → Type 0
  IsApplied before rest loop o =
      (after : EventLoop system) × (o ≡ some after)
      × (more : List (Change system.Handler)) × (after.change_list ≡ before ++ (rest ++ more))
      × (work after.state + length more ≤ work loop.state)
      × ((fd : ℕ)
          → handler_of fd after.event_infos
            ≡ after_changes fd (rest ++ more) (handler_of fd loop.event_infos))

  pub process-end :
      (fuel rounds i : ℕ) (loop : EventLoop system)
      → get_elem? loop.change_list i ≡ none
      → process_changes system call fuel (suc rounds) i loop ≡ some loop
  unfolding process_changes
  process-end fuel rounds i loop e = rw (process_changes, e)

  pub process-stuck :
      (fuel rounds i : ℕ) (c : Change system.Handler) (loop : EventLoop system)
      → get_elem? loop.change_list i ≡ some c
      → apply_change system call fuel c loop ≡ none
      → process_changes system call fuel (suc rounds) i loop ≡ none
  unfolding process_changes
  process-stuck fuel rounds i c loop e step = rw (process_changes, e, step)

  pub process-next :
      (fuel rounds i : ℕ) (c : Change system.Handler) (loop after : EventLoop system)
      → get_elem? loop.change_list i ≡ some c
      → apply_change system call fuel c loop ≡ some after
      → process_changes system call fuel (suc rounds) i loop
        ≡ process_changes system call fuel rounds (suc i) after
  unfolding process_changes
  process-next fuel rounds i c loop after e step = rw (process_changes, e, step)

  process_changes-IsApplied :
      (fuel rounds i : ℕ) (before rest : List (Change system.Handler)) (loop : EventLoop system)
      → loop.change_list ≡ before ++ rest
      → i ≡ length before
      → work loop.state + length rest < rounds
      → work loop.state < fuel
      → IsApplied before rest loop (process_changes system call fuel rounds i loop)
  unfolding after_changes
  process_changes-IsApplied fuel zero i before rest loop l e enough work_enough = elim enough [ ]
  process_changes-IsApplied fuel (suc rounds) i before [] loop l e enough work_enough =
      let l' : loop.change_list ≡ before = l ∙ append-nil before in
      let found : get_elem? loop.change_list i ≡ none =
        ap (get_elem? loop.change_list) e
        ∙ ap (λ t. get_elem? t (length before)) l'
        ∙ get_elem?-length before in
      (loop, process-end fuel rounds i loop found, [], l, omega arith, λ fd. refl)
  process_changes-IsApplied fuel (suc rounds) i before (c ∷ rest) loop l e enough work_enough =
      let found : get_elem? loop.change_list i ≡ some c =
        ap (get_elem? loop.change_list) e
        ∙ ap (λ t. get_elem? t (length before)) l
        ∙ get_elem?-append before c rest in
      let (next, step, leaves) = apply_change-Leaves fuel c loop work_enough in
      let l' : next.change_list ≡ (before ++ c ∷ []) ++ (rest ++ leaves.more) =
        leaves.appended ∙ ap (λ t. t ++ leaves.more) l ∙ regroup before c rest leaves.more in
      let (after, run, more, all, paid, map_eq) =
        process_changes-IsApplied fuel rounds (suc i) (before ++ c ∷ []) (rest ++ leaves.more) next
          l' (omega (arith, length-append {0} before (c ∷ [])))
          (omega (arith, leaves.paid, length-append {0} rest leaves.more))
          (omega (arith, leaves.paid)) in
      (
        after,
        process-next fuel rounds i c loop next found step ∙ run,
        leaves.more ++ more,
        all ∙ regroup_all before c rest leaves.more more,
        omega (arith, leaves.paid, length-append {0} leaves.more more),
        λ fd.
            map_eq fd
            ∙ ap (λ t. after_changes fd t (handler_of fd next.event_infos))
                (append_assoc rest leaves.more more)
            ∙ ap (λ t. after_changes fd (rest ++ (leaves.more ++ more)) (handler_of fd t))
                leaves.infos-eq
            ∙ ap (after_changes fd (rest ++ (leaves.more ++ more)))
                (handler_of-changed fd c loop.next_node loop.event_infos),
      )

  -- With more fuel than work and entries, `changeHandler` returns what the change descriptor gave. Where
  -- that is positive it has handled every entry of the list, those appended meanwhile included, in
  -- order: the list of changes is empty, and the handler of a descriptor is the one of the last entry
  -- about it, none if that is a removal, and the former one if no entry is about it. Where it is not
  -- positive, the map and the list are as they were.
  pub change_handler-IsApplied :
      (fuel : ℕ) (loop : EventLoop system)
      → work loop.state + length loop.change_list < fuel
      → ((is_pos (system.read_change loop.state).0 ≡ true)
          × (after : EventLoop system) × (process_changes system call fuel fuel 0
                (read_change system call loop)
              ≡ some after)
          × (change_handler system call fuel loop
              ≡ some ((system.read_change loop.state).0, record after { change_list = [] }))
          × (more : List (Change system.Handler)) × (after.change_list ≡ loop.change_list ++ more)
          × ((fd : ℕ)
              → handler_of fd after.event_infos
                ≡ after_changes fd after.change_list (handler_of fd loop.event_infos)))
        ⊎ ((is_pos (system.read_change loop.state).0 ≡ false)
            × (change_handler system call fuel loop
                ≡ some ((system.read_change loop.state).0, read_change system call loop)))
  unfolding change_handler
  change_handler-IsApplied fuel loop enough =
      elim (Bool-cases (is_pos (system.read_change loop.state).0)) [
        | inl ready ↦
            let less = work-read_change loop.state in
            let (after, run, more, all, paid, map_eq) =
              process_changes-IsApplied fuel fuel 0 [] loop.change_list
                (read_change system call loop) refl refl (omega arith) (omega arith) in
            inl (
              ready,
              after,
              run,
              rw (change_handler, ready, run),
              more,
              all,
              λ fd.
                  map_eq fd
                  ∙ ap (λ t. after_changes fd t (handler_of fd loop.event_infos)) (sym all),
            )
        | inr idle ↦ inr (idle, rw (change_handler, idle))
      ]

-- ===== src/Loop/Stopping.antt =====
-- The stop event in a batch of hbm/sys/linux/eventloop.cpp, and an event for an element that a removal of
-- the same batch has taken.
use devscan.Base.{
  ℕ, suc, ◌≡◌, refl, ap, ◌∙◌, true, false, none, some, List, [], ◌∷◌, ◌++◌, ==_refl, arith,
}
use devscan.Base.Int.{ℤ, is_pos}
use devscan.Loop.System.{
  Change, System, EventLoop, Infos, Signal, stop_pointer, change_pointer, info_pointer,
}
use devscan.Loop.EventLoop.{
  behind, erase_event, change_handler, drain_changes, process_changes, erase_info, read_change,
}
use devscan.Loop.Execute.{Dispatched, goes_on, stops, dangling, no_fuel, handle_signal, dispatch}
use devscan.Loop.Infos.{behind-erase_info}

abbrev pub stop_signal : Signal
stop_signal = record { hangup = false; readable = true; pointer = stop_pointer }

abbrev pub change_signal : Signal
change_signal = record { hangup = false; readable = true; pointer = change_pointer }

abbrev pub ready_signal : ℕ → ℕ → Signal
ready_signal fd node = record { hangup = false; readable = true; pointer = info_pointer fd node }

module _ (system : System) (call : system.Handler → EventLoop system → ℤ × EventLoop system) where
  -- The first event of a batch that goes on, and the others.
  first-goes_on :
      (fuel : ℕ) (rest : List Signal) (after : EventLoop system) (d : Dispatched system)
      → (elim d [
        | goes_on next ↦ dispatch system call fuel rest next
        | stops end ↦ stops end
        | dangling ↦ dangling
        | no_fuel ↦ no_fuel
      ])
        ≡ goes_on after
      → (next : EventLoop system) × (d ≡ goes_on next)
        × (dispatch system call fuel rest next ≡ goes_on after)
  first-goes_on fuel rest after (goes_on next) e = (next, refl, e)
  first-goes_on fuel rest after (stops end) e = cc
  first-goes_on fuel rest after dangling e = cc
  first-goes_on fuel rest after no_fuel e = cc

  -- A stop event ends the batch: the events before it are handled, and the loop returns in the state
  -- that they leave, whatever events stand behind it.
  pub dispatch-stop :
      (fuel : ℕ) (before rest : List Signal) (loop after : EventLoop system)
      → dispatch system call fuel before loop ≡ goes_on after
      → dispatch system call fuel (before ++ stop_signal ∷ rest) loop ≡ stops after
  unfolding dispatch handle_signal
  dispatch-stop fuel [] rest loop after e = ground arith
  dispatch-stop fuel (signal ∷ before) rest loop after e =
      let (next, first, others) =
        first-goes_on fuel before after (handle_signal system call fuel signal loop) e in
      rw (dispatch, first) (dispatch-stop fuel before rest next after others)

  abbrev removal : ℕ → system.State → Infos system.Handler → ℕ → EventLoop system
  removal fd s infos node = record {
    state = s;
    change_list = (fd, none) ∷ [];
    event_infos = infos;
    next_node = node;
  }

  abbrev removed : ℕ → system.State → Infos system.Handler → ℕ → EventLoop system
  removed fd s infos node = record {
    state = s;
    change_list = [];
    event_infos = erase_info fd infos;
    next_node = node;
  }

  change_handler-removal :
      (fuel fd node : ℕ) (s : system.State) (infos : Infos system.Handler)
      → is_pos (system.read_change s).0 ≡ true
      → change_handler system call (suc (suc fuel)) (removal fd s infos node)
        ≡ some (
          (system.read_change s).0,
          removed fd (system.epoll_del fd (system.read_change s).1) infos node,
        )
  unfolding change_handler process_changes
  change_handler-removal fuel fd node s infos first = rw (change_handler, first)

  change_handler-idle :
      (fuel : ℕ) (loop : EventLoop system)
      → is_pos (system.read_change loop.state).0 ≡ false
      → change_handler system call fuel loop
        ≡ some ((system.read_change loop.state).0, read_change system call loop)
  unfolding change_handler
  change_handler-idle fuel loop idle = rw (change_handler, idle)

  drain_changes-removal :
      (fuel fd node : ℕ) (s : system.State) (infos : Infos system.Handler)
      → is_pos (system.read_change s).0 ≡ true
      → is_pos (system.read_change (system.epoll_del fd (system.read_change s).1)).0 ≡ false
      → drain_changes system call (suc (suc fuel)) (suc (suc fuel)) (removal fd s infos node)
        ≡ some (
            read_change system call
              (removed fd (system.epoll_del fd (system.read_change s).1) infos node))
  unfolding drain_changes
  drain_changes-removal fuel fd node s infos first second = rw (
    drain_changes,
    change_handler-removal fuel fd node s infos first,
    first,
    change_handler-idle (suc (suc fuel))
        (removed fd (system.epoll_del fd (system.read_change s).1) infos node) second,
    second,
  )

  behind-removed :
      (fd node : ℕ) (infos : Infos system.Handler) → behind fd node (erase_info fd infos) ≡ none
  behind-removed fd node infos = behind-erase_info fd fd node infos ∙ rw (==_refl fd)

  -- A removal that waits in the list of changes, with the change event and an event of the element in
  -- one batch: the change event takes the element away, and the pointer of the other event leads
  -- nowhere. The change descriptor gives its count once.
  pub dispatch-dangling :
      (fuel fd node : ℕ) (rest : List Signal) (loop : EventLoop system)
      → loop.change_list ≡ []
      → is_pos (system.read_change (erase_event system call fd loop).state).0 ≡ true
      → is_pos
          (system.read_change
            (system.epoll_del fd (system.read_change (erase_event system call fd loop).state).1)).0
        ≡ false
      → dispatch system call
          (suc (suc fuel))
          (change_signal ∷ ready_signal fd node ∷ rest)
          (erase_event system call fd loop)
        ≡ dangling
  unfolding dispatch handle_signal erase_event read_change
  dispatch-dangling fuel fd node rest loop empty first second =
      let begin : erase_event system call fd loop
          ≡ removal fd (system.write_change loop.state).1 loop.event_infos loop.next_node =
        ap
          (λ (l : List (Change system.Handler)). record loop {
            change_list = l ++ (fd, none) ∷ [];
            state = (system.write_change loop.state).1;
          })
          empty in
      ap (dispatch system call (suc (suc fuel)) (change_signal ∷ ready_signal fd node ∷ rest)) begin
      ∙ rw (
        dispatch,
        drain_changes-removal fuel fd loop.next_node (system.write_change loop.state).1
            loop.event_infos first second,
        behind-removed fd node loop.event_infos,
      )

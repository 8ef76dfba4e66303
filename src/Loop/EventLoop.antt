-- ===== src/Loop/EventLoop.antt =====
-- The operations of hbm/sys/linux/eventloop.cpp. Calling a handler acts on the whole loop, since a
-- handler may add and erase events: what the handlers do is the parameter `call`. The loops run on
-- fuel, `none` and `no_fuel` where it ends.
use devscan.Base.{
  ℕ, zero, suc, true, false, Option, none, some, List, [], ◌∷◌, ◌++◌, if◌then◌else◌, ◌==◌,
}
use devscan.Base.Int.{ℤ, is_pos}
use devscan.Loop.System.{System, EventLoop, Change, Infos}

module _ {H : Type 0} where
  -- `m_eventInfos.erase`
  unfoldable pub erase_info : ℕ → Infos H → Infos H
  erase_info fd [] = []
  erase_info fd ((k, node, h) ∷ infos) =
      if k == fd then erase_info fd infos else (k, node, h) ∷ erase_info fd infos

  -- The element with a key: its allocation and its handler.
  unfoldable pub find_info : ℕ → Infos H → Option (ℕ × H)
  find_info fd [] = none
  find_info fd ((k, node, h) ∷ infos) = if k == fd then some (node, h) else find_info fd infos

  -- What lies behind a pointer to an element: nothing if the element is gone, or is another one.
  unfoldable pub behind : ℕ → ℕ → Infos H → Option H
  unfolding find_info
  behind fd node infos = elim (find_info fd infos) [
    | none ↦ none
    | some found ↦ if found.0 == node then some found.1 else none
  ]

-- An element of a list, by its position.
unfoldable pub get_elem? {ℓ} : {A : Type ℓ} → List A → ℕ → Option A
get_elem? [] i = none
get_elem? (x ∷ xs) zero = some x
get_elem? (x ∷ xs) (suc i) = get_elem? xs i

module _ (system : System) (call : system.Handler → EventLoop system → ℤ × EventLoop system) where
  open system use {Handler}

  -- An entry of the list of changes, and a one for the change descriptor.
  unfoldable pub request : Change Handler → EventLoop system → EventLoop system
  request change loop = record loop {
    change_list = loop.change_list ++ change ∷ [];
    state = (system.write_change loop.state).1;
  }

  unfoldable pub add_event : ℕ → Option Handler → EventLoop system → EventLoop system
  unfolding request
  add_event fd none loop = loop
  add_event fd (some h) loop = request (fd, some h) loop

  unfoldable pub erase_event : ℕ → EventLoop system → EventLoop system
  unfolding request
  erase_event fd loop = request (fd, none) loop

  -- `do result = eventHandler(); while (result > 0)`
  unfoldable pub drain : ℕ → Handler → EventLoop system → Option (EventLoop system)
  drain zero h loop = none
  drain (suc fuel) h loop = elim (is_pos (call h loop).0) [
    | true ↦ drain fuel h (call h loop).1
    | false ↦ some (call h loop).1
  ]

  unfoldable pub remove_info : ℕ → EventLoop system → EventLoop system
  unfolding erase_info
  remove_info fd loop = record loop {
    state = system.epoll_del fd loop.state;
    event_infos = erase_info fd loop.event_infos;
  }

  unfoldable pub insert_info : ℕ → Handler → EventLoop system → EventLoop system
  insert_info fd h loop = record loop {
    event_infos = (fd, loop.next_node, h) ∷ loop.event_infos;
    next_node = suc loop.next_node;
    state = (system.epoll_add fd loop.next_node loop.state).1;
  }

  -- One round of the loop of `changeHandler`.
  unfoldable pub apply_change : ℕ → Change Handler → EventLoop system → Option (EventLoop system)
  unfolding drain remove_info insert_info
  apply_change fuel (fd, none) loop = some (remove_info fd loop)
  apply_change fuel (fd, some h) loop = drain fuel h (insert_info fd h (remove_info fd loop))

  -- The loop of `changeHandler` from the entry `i` on. A handler that is drained may append entries,
  -- and these are met in the same pass.
  unfoldable pub process_changes : ℕ → ℕ → ℕ → EventLoop system → Option (EventLoop system)
  unfolding apply_change get_elem?
  process_changes fuel zero i loop = none
  process_changes fuel (suc rounds) i loop = elim (get_elem? loop.change_list i) [
    | none ↦ some loop
    | some change ↦ elim (apply_change fuel change loop) [
      | none ↦ none
      | some after ↦ process_changes fuel rounds (suc i) after
    ]
  ]

  unfoldable pub read_change : EventLoop system → EventLoop system
  read_change loop = record loop { state = (system.read_change loop.state).1 }

  unfoldable pub change_handler : ℕ → EventLoop system → Option (ℤ × EventLoop system)
  unfolding process_changes read_change
  change_handler fuel loop = elim (is_pos (system.read_change loop.state).0) [
    | true ↦ elim (process_changes fuel fuel 0 (read_change loop)) [
      | none ↦ none
      | some after ↦ some ((system.read_change loop.state).0, record after { change_list = [] })
    ]
    | false ↦ some ((system.read_change loop.state).0, read_change loop)
  ]

  -- The same do-while loop round `changeHandler`.
  unfoldable pub drain_changes : ℕ → ℕ → EventLoop system → Option (EventLoop system)
  unfolding change_handler
  drain_changes fuel zero loop = none
  drain_changes fuel (suc rounds) loop = elim (change_handler fuel loop) [
    | none ↦ none
    | some called ↦ elim (is_pos called.0) [
      | true ↦ drain_changes fuel rounds called.1
      | false ↦ some called.1
    ]
  ]

  unfoldable pub stop : EventLoop system → EventLoop system
  stop loop = record loop { state = (system.write_stop loop.state).1 }

  -- The constructor; `none` where it throws.
  unfoldable pub create : system.State → Option (EventLoop system)
  create s =
      let made = system.epoll_create s in
      let stopping = system.add_stop made.1 in
      let changing = system.add_change stopping.1 in
      if made.0
      then if stopping.0
        then if changing.0
          then some
              (record { state = changing.1; change_list = []; event_infos = []; next_node = 0 })
          else none
        else none
      else none

  -- The destructor.
  unfoldable pub destroy : EventLoop system → system.State
  unfolding stop
  destroy loop = system.close_epoll (stop loop).state

-- ===== src/Loop/Tests.antt =====
-- An event loop over a small kernel, and the theorems at concrete loops.
use devscan.Base.{
  ◌⊎◌, ◌↔◌, ℕ, zero, suc, ◌+◌, ◌≡◌, ◌≤◌, refl, ap, sym, ◌∙◌, Bool, true, false, Option, none, some,
  List, [], ◌∷◌, ◌++◌, if◌then◌else◌, ◌==◌, Bool-cases, inl, inr, ==_iff, append-nil, arith,
}
use devscan.Base.Int.{ℤ, pos, minus_one, is_pos}
use devscan.Loop.System.{System, EventLoop, Change, Waited, failed, signals}
use devscan.Loop.EventLoop.{process_changes, change_handler, read_change, erase_event, behind}
use devscan.Loop.Execute.{returns, execute, stops, goes_on, dangling, dispatch}
use devscan.Loop.Drain.{AreCallbacks}
use devscan.Loop.Infos.{handler_of, after_changes}
use devscan.Loop.Changes.{change_handler-IsApplied}
use devscan.Loop.Tracked.{IsKernel, IsTracked}
use devscan.Loop.Dispatch.{IsFine, dispatch-IsFine}
use devscan.Loop.Runs.{Runs, execute-Runs}
use devscan.Loop.Stopping.{
  dispatch-stop, dispatch-dangling, stop_signal, change_signal, ready_signal,
}

-- The interest list, by descriptor.
drop_fd : ℕ → List (ℕ × ℕ) → List (ℕ × ℕ)
drop_fd fd [] = []
drop_fd fd ((k, node) ∷ rest) = if k == fd then drop_fd fd rest else (k, node) ∷ drop_fd fd rest

node_of : ℕ → List (ℕ × ℕ) → Option ℕ
node_of fd [] = none
node_of fd ((k, node) ∷ rest) = if k == fd then some node else node_of fd rest

node_of-drop_fd :
    (fd k : ℕ) (l : List (ℕ × ℕ))
    → node_of k (drop_fd fd l) ≡ (if fd == k then none else node_of k l)
unfolding node_of drop_fd
node_of-drop_fd fd k [] = ground arith
node_of-drop_fd fd k ((j, node) ∷ l) = ground (arith, node_of-drop_fd fd k l)

-- The counter of the change descriptor, the work that is left for the handlers, the interest list, and
-- what `epoll_wait` will say.
data Small : Type 0 where
  small : ℕ → ℕ → List (ℕ × ℕ) → List Waited → Small

abbrev changes_left : Small → ℕ
changes_left (small c w l q) = c

abbrev work_left : Small → ℕ
work_left (small c w l q) = w

abbrev interest : Small → List (ℕ × ℕ)
interest (small c w l q) = l

read_counter : ℕ → Small → ℤ × Small
read_counter zero s = (minus_one, s)
read_counter (suc n) (small c w l q) = (pos 8, small 0 w l q)

next_wait : Small → Waited × Small
next_wait (small c w l []) = (failed, small c w l [])
next_wait (small c w l (x ∷ q)) = (x, small c w l q)

count_up : Small → ℤ × Small
count_up (small c w l q) = (pos 8, small (suc c) w l q)

del : ℕ → Small → Small
del fd (small c w l q) = small c w (drop_fd fd l) q

add : ℕ → ℕ → Small → Bool × Small
add fd node (small c w l q) = (true, small c w ((fd, node) ∷ l) q)

spend : ℕ → Small → ℤ × Small
spend zero s = (minus_one, s)
spend (suc n) (small c w l q) = (pos 1, small c n l q)

abbrev tiny : System
tiny = record {
  State = Small;
  Handler = ℕ;
  change_fd = 4;
  epoll_create = λ s. (true, s);
  add_stop = λ s. (true, s);
  add_change = λ s. (true, s);
  close_epoll = λ s. s;
  read_change = λ s. read_counter (changes_left s) s;
  write_change = count_up;
  write_stop = λ s. (pos 8, s);
  epoll_del = del;
  epoll_add = add;
  epoll_wait = λ t s. next_wait s;
  now = λ s. (0, s);
}

abbrev work_on : ℕ → EventLoop tiny → ℤ × EventLoop tiny
work_on h loop = (
  (spend (work_left loop.state) loop.state).0,
  record loop { state = (spend (work_left loop.state) loop.state).1 },
)

spend-le :
    (s : Small)
    → work_left (spend (work_left s) s).1 + 0 + (if is_pos (spend (work_left s) s).0 then 1 else 0)
      ≤ work_left s
unfolding spend
spend-le (small c zero l q) = omega arith
spend-le (small c (suc n) l q) = omega arith

del-work : (fd : ℕ) (s : Small) → work_left (del fd s) ≤ work_left s
unfolding del
del-work fd (small c w l q) = omega arith

add-work : (fd node : ℕ) (s : Small) → work_left (add fd node s).1 ≤ work_left s
unfolding add
add-work fd node (small c w l q) = omega arith

read-work : (s : Small) → work_left (read_counter (changes_left s) s).1 ≤ work_left s
unfolding read_counter
read-work (small zero w l q) = omega arith
read-work (small (suc c) w l q) = omega arith

abbrev tiny_callbacks : AreCallbacks tiny work_on
tiny_callbacks = record {
  requests = λ h loop. [];
  appends = λ h loop. sym (append-nil loop.change_list);
  keeps = λ h loop. refl;
  work = work_left;
  spends = λ h loop. spend-le loop.state;
  work-epoll_del = del-work;
  work-epoll_add = add-work;
  work-read_change = read-work;
}

del-registered :
    (fd k : ℕ) (s : Small)
    → node_of k (interest (del fd s)) ≡ (if fd == k then none else node_of k (interest s))
unfolding del
del-registered fd k (small c w l q) = node_of-drop_fd fd k l

add-registered :
    (fd node k : ℕ) (s : Small)
    → (node_of k (interest (add fd node s).1) ≡ node_of k (interest s))
      ⊎ ((fd ≡ k) × (node_of k (interest (add fd node s).1) ≡ some node))
unfolding add node_of
add-registered fd node k (small c w l q) = elim (Bool-cases (fd == k)) [
  | inl e ↦ inr ((==_iff fd k).0 e, rw e)
  | inr e ↦ inl (rw e)
]

spend-interest : (n : ℕ) (s : Small) → interest (spend n s).1 ≡ interest s
unfolding spend
spend-interest zero s = refl
spend-interest (suc n) (small c w l q) = refl

read-interest : (n : ℕ) (s : Small) → interest (read_counter n s).1 ≡ interest s
unfolding read_counter
read-interest zero s = refl
read-interest (suc n) (small c w l q) = refl

write-interest : (s : Small) → interest (count_up s).1 ≡ interest s
unfolding count_up
write-interest (small c w l q) = refl

abbrev tiny_kernel : IsKernel tiny work_on
tiny_kernel = record {
  registered = λ k s. node_of k (interest s);
  after-epoll_del = del-registered;
  after-epoll_add = add-registered;
  after-call = λ h loop k node e.
      sym (ap (node_of k) (spend-interest (work_left loop.state) loop.state)) ∙ e;
  after-read_change = λ s k. ap (node_of k) (read-interest (changes_left s) s);
  after-write_change = λ s k. ap (node_of k) (write-interest s);
}

-- A loop with one handler, that is to be replaced by another one, and a second one that is to go.
abbrev busy : EventLoop tiny
busy = record {
  state = small 1 2 ((9, 0) ∷ (7, 1) ∷ []) (signals (ready_signal 9 0 ∷ stop_signal ∷ []) ∷ []);
  change_list = (9, some 100) ∷ (7, none) ∷ [];
  event_infos = (9, 0, 50) ∷ (7, 1, 60) ∷ [];
  next_node = 2;
}

busy-IsTracked : IsTracked tiny work_on tiny_callbacks tiny_kernel busy
unfolding behind node_of
busy-IsTracked fd node e = elim (Bool-cases (9 == fd)) [
  | inl nine ↦ (50, ground arith)
  | inr other ↦ (60, ground arith)
]

change_handler-IsApplied_example :
    ((is_pos (tiny.read_change busy.state).0 ≡ true)
      × (after : EventLoop tiny) × (process_changes tiny work_on 5 5 0
            (read_change tiny work_on busy)
          ≡ some after)
      × (change_handler tiny work_on 5 busy
          ≡ some ((tiny.read_change busy.state).0, record after { change_list = [] }))
      × (more : List (Change ℕ)) × (after.change_list ≡ busy.change_list ++ more)
      × ((fd : ℕ)
          → handler_of fd after.event_infos
            ≡ after_changes fd after.change_list (handler_of fd busy.event_infos)))
    ⊎ ((is_pos (tiny.read_change busy.state).0 ≡ false)
        × (change_handler tiny work_on 5 busy
            ≡ some ((tiny.read_change busy.state).0, read_change tiny work_on busy)))
change_handler-IsApplied_example =
    change_handler-IsApplied tiny work_on tiny_callbacks 5 busy (omega arith)

busy-leads : behind 9 0 busy.event_infos ≡ some 50
unfolding behind
busy-leads = refl

dispatch-IsFine_example :
    IsFine tiny work_on tiny_callbacks tiny_kernel
      (dispatch tiny work_on 5 (ready_signal 9 0 ∷ change_signal ∷ []) busy)
dispatch-IsFine_example =
    dispatch-IsFine tiny work_on tiny_callbacks tiny_kernel 5
      (ready_signal 9 0 ∷ change_signal ∷ []) busy (refl, tt) ((50, busy-leads), (tt, tt))
      busy-IsTracked

-- The loop after the handler has drained its work and the stop event has come.
abbrev finished : EventLoop tiny
finished = record busy { state = small 1 0 ((9, 0) ∷ (7, 1) ∷ []) [] }

busy-executes : execute tiny work_on 5 1 busy ≡ returns (pos 0) finished
unfolding execute spend next_wait
busy-executes = refl

execute-Runs_example :
    ((rounds : ℕ) × (execute tiny work_on 5 rounds busy ≡ returns (pos 0) finished))
    ↔ Runs tiny work_on 5 busy (pos 0) finished
execute-Runs_example = execute-Runs tiny work_on 5 busy finished (pos 0)

-- The handler of descriptor 9 finds work twice, and the third call none.
abbrev rested : EventLoop tiny
rested = record busy {
  state = small 1 0 ((9, 0) ∷ (7, 1) ∷ []) (signals (ready_signal 9 0 ∷ stop_signal ∷ []) ∷ []);
}

busy-rests : dispatch tiny work_on 5 (ready_signal 9 0 ∷ []) busy ≡ goes_on rested
unfolding dispatch spend
busy-rests = refl

dispatch-stop_example :
    dispatch tiny work_on 5 (ready_signal 9 0 ∷ stop_signal ∷ ready_signal 7 1 ∷ []) busy
    ≡ stops rested
dispatch-stop_example =
    dispatch-stop tiny work_on 5 (ready_signal 9 0 ∷ []) (ready_signal 7 1 ∷ []) busy rested
      busy-rests

abbrev settled : EventLoop tiny
settled = record {
  state = small 0 2 ((9, 0) ∷ []) [];
  change_list = [];
  event_infos = (9, 0, 50) ∷ [];
  next_node = 1;
}

first_count : is_pos (tiny.read_change (erase_event tiny work_on 9 settled).state).0 ≡ true
unfolding erase_event count_up read_counter
first_count = refl

no_count :
    is_pos
      (tiny.read_change
        (tiny.epoll_del 9 (tiny.read_change (erase_event tiny work_on 9 settled).state).1)).0
    ≡ false
unfolding erase_event count_up read_counter del
no_count = refl

dispatch-dangling_example :
    dispatch tiny work_on 2
      (change_signal ∷ ready_signal 9 0 ∷ [])
      (erase_event tiny work_on 9 settled)
    ≡ dangling
dispatch-dangling_example =
    dispatch-dangling tiny work_on 0 9 0 [] settled refl first_count no_count

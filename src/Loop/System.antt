-- ===== src/Loop/System.antt =====
-- The system calls behind `EventLoop` of hbm/sys/eventloop.h, as parameters, and its members.
use devscan.Base.{ℕ, Bool, Option, List}
use devscan.Base.Int.{ℤ}

-- `data.ptr` of an epoll event: null for the stop descriptor, `m_changeEvent`, or an element of
-- `m_eventInfos`, by its key and the number of its allocation.
pub data Pointer : Type 0 where
  stop_pointer change_pointer : Pointer
  info_pointer : ℕ → ℕ → Pointer

-- An event that `epoll_wait` reports: EPOLLHUP or EPOLLERR, EPOLLIN, and the pointer.
pub record Signal : Type 0 where
  pub hangup : Bool
  pub readable : Bool
  pub pointer : Pointer

-- What `epoll_wait` does: -1 with EINTR, -1 with another error, or the events (none after the timeout).
pub data Waited : Type 0 where
  interrupted failed : Waited
  signals : List Signal → Waited

pub record System : Type 1 where
  pub State : Type 0
  pub Handler : Type 0
  pub change_fd : ℕ
  -- whether `epoll_create` succeeds, and whether the stop descriptor and the change descriptor can be
  -- added
  pub epoll_create : State → Bool × State
  pub add_stop : State → Bool × State
  pub add_change : State → Bool × State
  pub close_epoll : State → State
  pub read_change : State → ℤ × State
  pub write_change : State → ℤ × State
  pub write_stop : State → ℤ × State
  pub epoll_del : ℕ → State → State
  -- the descriptor and the allocation that the pointer leads to
  pub epoll_add : ℕ → ℕ → State → Bool × State
  -- the timeout in milliseconds, without end if it is negative
  pub epoll_wait : ℤ → State → Waited × State
  -- nanoseconds of the steady clock
  pub now : State → ℕ × State

-- `eventInfo_t` in the list of changes: an empty handler asks for the removal.
abbrev pub Change : Type 0 → Type 0
Change H = ℕ × Option H

-- `m_eventInfos`: the key, the allocation, and the handler.
abbrev pub Infos : Type 0 → Type 0
Infos H = List (ℕ × ℕ × H)

pub record EventLoop (system : System) : Type 0 where
  pub state : system.State
  pub change_list : List (Change system.Handler)
  pub event_infos : Infos system.Handler
  -- the number of the next allocation
  pub next_node : ℕ

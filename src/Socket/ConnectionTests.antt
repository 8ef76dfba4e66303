-- ===== src/Socket/ConnectionTests.antt =====
-- A socket and a server over small system calls, and the theorems at concrete ones: `connect` is in
-- progress, `poll` is interrupted while patience is left, and then the connection is there.
use devscan.Base.{
  ◌≢◌, ◌⊎◌, ℕ, zero, suc, ◌≤◌, ◌<◌, ◌≡◌, refl, ap, Bool, true, false, Option, none, some, List, [],
  ◌∷◌, if◌then◌else◌, ◌==◌, ==_refl, take, arith,
}
use devscan.Base.Int.{ℤ, pos}
use devscan.Base.Text.{codes}
use devscan.Result.{ok, throw, std_exception}
use devscan.Socket.Kernel.{received, sent}
use devscan.Socket.BufferedReader.{BufferedReader, IsValid}
use devscan.Socket.Connection.{
  Sockets, SocketNonblocking, in_progress, connected, Polled, ready, poll_interrupted, connect,
  receive, disconnect, new_socket,
}
use devscan.Socket.Connecting.{IsTcp, kind, Connected}
use devscan.Socket.Established.{connect-Connected}
use devscan.Socket.Reconnect.{receive-stale}
use devscan.Socket.TcpServer.{Listening, TcpServer, IsQueue, process}
use devscan.Socket.Accepting.{SetUpFails, IsSetUp, process-accepts_one}

-- The options that are set, whether the connection is there, the interruptions to come, and the
-- connections that wait.
data World : Type 0 where
  world : List ℕ → Bool → ℕ → List ℕ → World

abbrev is_set : ℕ → List ℕ → Bool
is_set k [] = false
is_set k (j ∷ ks) = if j == k then true else is_set k ks

abbrev set_now : World → List ℕ
set_now (world ks c p q) = ks

abbrev connected_now : World → Bool
connected_now (world ks c p q) = c

abbrev patience : World → ℕ
patience (world ks c p q) = p

abbrev waiting : World → List ℕ
waiting (world ks c p q) = q

abbrev set_kind : ℕ → World → World
set_kind k (world ks c p q) = world (k ∷ ks) c p q

abbrev poll_world : World → Polled × World
poll_world (world ks c zero q) = (ready, world ks c zero q)
poll_world (world ks c (suc p) q) = (poll_interrupted, world ks c p q)

abbrev finish : World → World
finish (world ks c p q) = world ks true p q

abbrev accept_world : World → Option ℕ × World
accept_world (world ks c p []) = (none, world ks c p [])
accept_world (world ks c p (x ∷ q)) = (some x, world ks c p q)

abbrev calls : Sockets
calls = record {
  State = World;
  Address = ℕ;
  Handler = ℕ;
  set_nonblocking = λ fd s. (true, s);
  setsockopt = λ fd o s. (true, set_kind (kind o) s);
  getaddrinfo = λ a p. some (2, 77);
  socket = λ d s. (some 9, s);
  connect = λ fd a s. (in_progress, s);
  poll_connect = λ fd t s. poll_world s;
  socket_error = λ fd s. (0, finish s);
  getpeername = λ fd s. some 77;
  getnameinfo = λ a. none;
  hardware_family = λ fd s. none;
  shutdown = λ fd s. s;
  close = λ fd s. s;
  add_event = λ fd s. s;
  erase_event = λ fd s. s;
  recv_fd = λ fd n s. (received [], s);
  send_fd = λ fd more block s. (sent 0, s);
  writev_fd = λ fd blocks s. (sent 0, s);
  poll_in_fd = λ fd s. (false, s);
  poll_out_fd = λ fd s. (false, s);
  incoming_fd = λ fd s. [];
  outgoing_fd = λ fd s. [];
}

set_kind-set : (k : ℕ) (s : World) → is_set k (set_now (set_kind k s)) ≡ true
set_kind-set k (world ks c p q) = rw (==_refl k)

set_kind-other :
    (k j : ℕ) (s : World)
    → (k == j) ≡ false
    → is_set j (set_now s) ≡ true
    → is_set j (set_now (set_kind k s)) ≡ true
set_kind-other k j (world ks c p q) e h = rw e h

poll_world-set : (s : World) → set_now (poll_world s).1 ≡ set_now s
poll_world-set (world ks c zero q) = refl
poll_world-set (world ks c (suc p) q) = refl

finish-set : (s : World) → set_now (finish s) ≡ set_now s
finish-set (world ks c p q) = refl

finish-connected : (s : World) → connected_now (finish s) ≡ true
finish-connected (world ks c p q) = refl

poll_world-patience :
    (s : World) → (poll_world s).0 ≡ poll_interrupted → patience (poll_world s).1 < patience s
poll_world-patience (world ks c zero q) e = cc
poll_world-patience (world ks c (suc p) q) e = omega arith

set_kind-patience : (k : ℕ) (s : World) → patience (set_kind k s) ≤ patience s
set_kind-patience k (world ks c p q) = omega arith

never_at_once : in_progress ≢ connected
never_at_once e = cc

abbrev calls_tcp : IsTcp calls
calls_tcp = record {
  has = λ fd o s. is_set (kind o) (set_now s);
  is_open = λ fd s. connected_now s;
  budget = patience;
  sets = λ fd o s e. set_kind-set (kind o) s;
  has-setsockopt = λ fd o o' s e h. set_kind-other (kind o) (kind o') s e h;
  has-connect = λ fd o a s. refl;
  has-poll = λ fd o t s. ap (is_set (kind o)) (poll_world-set s);
  has-socket_error = λ fd o s. ap (is_set (kind o)) (finish-set s);
  connects = λ fd a s e. absurd (never_at_once e);
  completes = λ fd t s e z. finish-connected (poll_world s).1;
  interruptions = λ fd t s e. poll_world-patience s e;
  budget-setsockopt = λ fd o s. set_kind-patience (kind o) s;
  budget-socket = λ d s. omega arith;
  budget-connect = λ fd a s. omega arith;
}

abbrev idle : SocketNonblocking calls
idle = new_socket calls (world [] false 2 [])

connect-Connected_example :
    Connected calls calls_tcp idle (connect calls 3 (codes "host") (codes "80") idle)
connect-Connected_example =
    connect-Connected calls calls_tcp 3 (codes "host") (codes "80") idle (omega arith)

-- A buffer with two bytes that were not returned yet.
abbrev half_read : BufferedReader
half_read = record { buffer = codes "abcd"; fill_level = 4; already_read = 2 }

abbrev used : SocketNonblocking calls
used = record { fd = some 8; reader = half_read; handler = none; state = world [] true 2 [] }

half_read-IsValid : IsValid half_read
half_read-IsValid = record { filled = refl; ordered = omega arith; bounded = omega arith }

used-budget : patience (disconnect calls used).state < 3
unfolding disconnect
used-budget = omega arith

receive-stale_example :
    (result : ℤ) × (again : SocketNonblocking calls) × (connect calls 3
        (codes "host")
        (codes "80")
        (disconnect calls used)
      ≡ some (result, again))
    × ((receive calls 16 again).0 ≡ received (take 16 (codes "cd")))
receive-stale_example =
    receive-stale calls calls_tcp 3 16 (codes "host") (codes "80") used used-budget
      half_read-IsValid (omega arith)

abbrev listening : Listening calls
listening = record {
  AcceptCb = ℕ;
  listening_socket = λ s. (some 3, s);
  bind = λ fd port s. (true, s);
  listen = λ fd n s. (true, s);
  accept = λ fd s. accept_world s;
  accepted = λ cb worker. worker.state;
}

accept_world-next :
    (s : World) (c : ℕ) (rest : List ℕ)
    → waiting s ≡ c ∷ rest
    → ((accept_world s).0 ≡ some c) × (waiting (accept_world s).1 ≡ rest)
accept_world-next (world ks o p []) c rest e = cc
accept_world-next (world ks o p (x ∷ q)) c rest e = (cc, cc)

set_kind-waiting : (k : ℕ) (s : World) → waiting (set_kind k s) ≡ waiting s
set_kind-waiting k (world ks c p q) = refl

abbrev listening_queue : IsQueue calls listening
listening_queue = record {
  queue = waiting;
  accept_next = λ fd s c rest e. accept_world-next s c rest e;
  after-set_nonblocking = λ fd s. refl;
  after-setsockopt = λ fd o s. set_kind-waiting (kind o) s;
  after-accepted = λ cb worker. refl;
  after-close = λ fd s. refl;
  after-shutdown = λ fd s. refl;
  after-erase_event = λ fd s. refl;
}

abbrev server : TcpServer calls listening
server = record {
  listening_socket = some 3;
  accept_cb = some 1;
  state = world [] false 0 (20 ∷ 21 ∷ []);
}

process-accepts_one_example :
    ((process calls listening server ≡ throw std_exception)
      × SetUpFails calls 20 (world [] false 0 (21 ∷ [])))
    ⊎ (IsSetUp calls 20 (world [] false 0 (21 ∷ []))
        × (after : TcpServer calls listening) × (process calls listening server ≡ ok (pos 0, after))
        × (waiting after.state ≡ 21 ∷ [])
        × (after.listening_socket ≡ some 3))
process-accepts_one_example =
    process-accepts_one calls listening listening_queue server 20 (21 ∷ []) refl

-- ===== src/Socket/TcpServer.antt =====
-- hbm/communication/linux/tcpserver.cpp. The calls of the system and the callback are parameters; a
-- descriptor of -1 is `none`.
use devscan.Base.{ℕ, ◌≡◌, Bool, Option, none, some, List, ◌∷◌, if◌then◌else◌}
use devscan.Base.Int.{ℤ, pos, minus_one}
use devscan.Result.{Result, ok, ◌>>=◌}
use devscan.Socket.Connection.{Sockets, SocketNonblocking, TcpOption, from_fd, disconnect}

pub record Listening (calls : Sockets) : Type 1 where
  pub AcceptCb : Type 0
  -- a stream socket for IPv6, not blocking
  pub listening_socket : calls.State → Option ℕ × calls.State
  -- any address, and the port; whether it succeeds
  pub bind : ℕ → ℕ → calls.State → Bool × calls.State
  pub listen : ℕ → ℕ → calls.State → Bool × calls.State
  pub accept : Option ℕ → calls.State → Option ℕ × calls.State
  -- the callback takes the worker socket
  pub accepted : AcceptCb → SocketNonblocking calls → calls.State

pub record TcpServer (calls : Sockets) (l : Listening calls) : Type 0 where
  pub listening_socket : Option ℕ
  pub accept_cb : Option l.AcceptCb
  pub state : calls.State

module _ (calls : Sockets) (l : Listening calls) where
  abbrev pub new_server : calls.State → TcpServer calls l
  new_server s = record { listening_socket = none; accept_cb = none; state = s }

  -- The end of `start`.
  abbrev register : ℕ → Option l.AcceptCb → calls.State → ℤ × TcpServer calls l
  register fd none s = (pos 0, record { listening_socket = some fd; accept_cb = none; state = s })
  register fd (some cb) s = (
    pos 0,
    record { listening_socket = some fd; accept_cb = some cb; state = calls.add_event (some fd) s },
  )

  unfoldable pub start : ℕ → ℕ → Option l.AcceptCb → TcpServer calls l → ℤ × TcpServer calls l
  start port backlog cb server =
      let made = l.listening_socket server.state in
      elim (made.0) [
        | none ↦ (minus_one, record server { listening_socket = none; state = made.1 })
        | some fd ↦
            let bound = l.bind fd port made.1 in
            let listening = l.listen fd backlog bound.1 in
            if bound.0
            then if listening.0
              then register fd cb listening.1
              else (minus_one, record server { listening_socket = some fd; state = listening.1 })
            else (minus_one, record server { listening_socket = some fd; state = bound.1 })
      ]

  unfoldable pub stop : TcpServer calls l → TcpServer calls l
  stop server = record server {
    state =
        calls.close server.listening_socket
          (calls.erase_event server.listening_socket server.state);
  }

  -- The worker socket, none where nothing is accepted. The state is that of the worker socket.
  unfoldable pub accept_client :
      TcpServer calls l → Result (Option (SocketNonblocking calls) × calls.State)
  accept_client server =
      let accepted = l.accept server.listening_socket server.state in
      elim (accepted.0) [
        | none ↦ ok (none, accepted.1)
        | some fd ↦ from_fd calls fd accepted.1 >>= λ worker. ok (some worker, worker.state)
      ]

  -- The callback gets the worker; without a callback the worker is destroyed.
  abbrev pub hand_over : Option l.AcceptCb → SocketNonblocking calls → calls.State
  hand_over none worker = (disconnect calls worker).state
  hand_over (some cb) worker = l.accepted cb worker

  abbrev pub processed :
      TcpServer calls l
      → Option (SocketNonblocking calls) × calls.State
      → Result (ℤ × TcpServer calls l)
  processed server (none, s) = ok (pos 0, record server { state = s })
  processed server (some worker, s) =
      ok (pos 0, record server { state = hand_over server.accept_cb worker })

  -- Called by the event loop.
  unfoldable pub process : TcpServer calls l → Result (ℤ × TcpServer calls l)
  unfolding accept_client
  process server = accept_client server >>= processed server

-- The connections that wait to be accepted. `accept` takes the first one; the calls on the accepted
-- descriptor, the callback and the event loop leave the others.
pub record IsQueue (calls : Sockets) (l : Listening calls) : Type 0 where
  pub queue : calls.State → List ℕ
  pub accept_next :
      (fd : Option ℕ) (s : calls.State) (c : ℕ) (rest : List ℕ)
      → queue s ≡ c ∷ rest
      → ((l.accept fd s).0 ≡ some c) × (queue (l.accept fd s).1 ≡ rest)
  pub after-set_nonblocking :
      (fd : Option ℕ) (s : calls.State) → queue (calls.set_nonblocking fd s).1 ≡ queue s
  pub after-setsockopt :
      (fd : Option ℕ) (o : TcpOption) (s : calls.State)
      → queue (calls.setsockopt fd o s).1 ≡ queue s
  pub after-accepted :
      (cb : l.AcceptCb) (worker : SocketNonblocking calls)
      → queue (l.accepted cb worker) ≡ queue worker.state
  pub after-close : (fd : Option ℕ) (s : calls.State) → queue (calls.close fd s) ≡ queue s
  pub after-shutdown : (fd : Option ℕ) (s : calls.State) → queue (calls.shutdown fd s) ≡ queue s
  pub after-erase_event :
      (fd : Option ℕ) (s : calls.State) → queue (calls.erase_event fd s) ≡ queue s

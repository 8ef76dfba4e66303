-- ===== src/Socket/Connection.antt =====
-- The life of a socket in hbm/communication/linux/socketnonblocking.cpp: construction, options,
-- connecting, the data callback, receiving and disconnecting. A descriptor of -1 is `none`.
use devscan.Base.{
  ℕ, zero, suc, ◌*◌, Bool, false, ◌&&◌, Option, none, some, List, if◌then◌else◌, ◌==◌,
}
use devscan.Base.Int.{ℤ, pos, negsuc, minus_one}
use devscan.Base.Text.{Text, text_eq}
use devscan.Result.{Result, ok, throw, std_exception}
use devscan.Socket.Kernel.{Kernel, Received, Sent}
use devscan.Socket.BufferedReader.{BufferedReader, empty, recv}

pub data TcpOption : Type 0 where
  tcp_nodelay tcp_keepidle tcp_keepintvl tcp_keepcnt so_keepalive : ℕ → TcpOption

-- What `::connect` does: 0, -1 with EINPROGRESS, or -1 with another error.
pub data Connecting : Type 0 where
  connected in_progress refused : Connecting

-- What `poll` does for one descriptor: 1, -1 with EINTR, or anything else.
pub data Polled : Type 0 where
  ready poll_interrupted not_ready : Polled

-- The system calls.
pub record Sockets : Type 1 where
  pub State : Type 0
  pub Address : Type 0
  pub Handler : Type 0
  -- `fcntl` with O_NONBLOCK; whether it succeeds
  pub set_nonblocking : Option ℕ → State → Bool × State
  pub setsockopt : Option ℕ → TcpOption → State → Bool × State
  -- the domain and the address
  pub getaddrinfo : Text → Text → Option (ℕ × Address)
  pub socket : ℕ → State → Option ℕ × State
  pub connect : Option ℕ → Address → State → Connecting × State
  -- the timeout in milliseconds
  pub poll_connect : Option ℕ → ℕ → State → Polled × State
  -- the value of SO_ERROR
  pub socket_error : Option ℕ → State → ℕ × State
  pub getpeername : Option ℕ → State → Option Address
  -- host and service, numeric
  pub getnameinfo : Address → Option (Text × Text)
  -- the hardware family of the interface
  pub hardware_family : Option ℕ → State → Option ℕ
  pub shutdown : Option ℕ → State → State
  pub close : Option ℕ → State → State
  -- the event loop
  pub add_event : Option ℕ → State → State
  pub erase_event : Option ℕ → State → State
  -- the transfer of bytes
  pub recv_fd : Option ℕ → ℕ → State → Received × State
  pub send_fd : Option ℕ → Bool → Text → State → Sent × State
  pub writev_fd : Option ℕ → List Text → State → Sent × State
  pub poll_in_fd : Option ℕ → State → Bool × State
  pub poll_out_fd : Option ℕ → State → Bool × State
  pub incoming_fd : Option ℕ → State → Text
  pub outgoing_fd : Option ℕ → State → Text

-- The calls on the descriptor of a socket.
abbrev pub kernel_of : Sockets → Option ℕ → Kernel
kernel_of calls fd = record {
  State = calls.State;
  recv = calls.recv_fd fd;
  send = calls.send_fd fd;
  writev = calls.writev_fd fd;
  poll_in = calls.poll_in_fd fd;
  poll_out = calls.poll_out_fd fd;
  incoming = calls.incoming_fd fd;
  outgoing = calls.outgoing_fd fd;
}

pub record SocketNonblocking (calls : Sockets) : Type 0 where
  pub fd : Option ℕ
  pub reader : BufferedReader
  pub handler : Option calls.Handler
  pub state : calls.State

abbrev pub timeout_connect_s : ℕ
timeout_connect_s = 5

-- ARPHRD_IEEE1394
abbrev pub arphrd_ieee1394 : ℕ
arphrd_ieee1394 = 24

module _ (calls : Sockets) where
  -- The constructor without a descriptor.
  abbrev pub new_socket : calls.State → SocketNonblocking calls
  new_socket s = record { fd = none; reader = empty; handler = none; state = s }

  -- One `setsockopt`, and the rest of `setSocketOptions` behind it.
  abbrev pub set_option :
      Option ℕ → TcpOption → (calls.State → ℤ × calls.State) → calls.State → ℤ × calls.State
  set_option fd option rest s =
      if (calls.setsockopt fd option s).0
      then rest (calls.setsockopt fd option s).1
      else (minus_one, (calls.setsockopt fd option s).1)

  unfoldable pub set_socket_options : Option ℕ → calls.State → ℤ × calls.State
  set_socket_options fd = set_option fd (tcp_nodelay 1) (
      set_option fd (tcp_keepidle 12) (
        set_option fd (tcp_keepintvl 3)
          (set_option fd (tcp_keepcnt 2) (set_option fd (so_keepalive 1) (λ s. (pos 0, s))))))

  abbrev pub with_options : Option ℕ → ℤ × calls.State → Result (SocketNonblocking calls)
  with_options fd (pos n, s) = ok (record { fd = fd; reader = empty; handler = none; state = s })
  with_options fd (negsuc n, s) = throw std_exception

  -- The constructor for an accepted descriptor.
  unfoldable pub from_fd : ℕ → calls.State → Result (SocketNonblocking calls)
  unfolding set_socket_options
  from_fd fd s =
      if (calls.set_nonblocking (some fd) s).0
      then with_options (some fd)
          (set_socket_options (some fd) (calls.set_nonblocking (some fd) s).1)
      else throw std_exception

  unfoldable pub set_data_cb :
      Option calls.Handler → SocketNonblocking calls → SocketNonblocking calls
  set_data_cb none socket = record socket {
    handler = none;
    state = calls.erase_event socket.fd socket.state;
  }
  set_data_cb (some h) socket = record socket {
    handler = some h;
    state = calls.add_event socket.fd socket.state;
  }

  -- `poll`, again while it is interrupted; `none` where the fuel ends.
  unfoldable pub poll_loop : ℕ → SocketNonblocking calls → Option (Polled × SocketNonblocking calls)
  poll_loop zero socket = none
  poll_loop (suc fuel) socket =
      let polled = calls.poll_connect socket.fd (timeout_connect_s * 1000) socket.state in
      let after = record socket { state = polled.1 } in
      elim (polled.0) [
        | poll_interrupted ↦ poll_loop fuel after
        | ready ↦ some (ready, after)
        | not_ready ↦ some (not_ready, after)
      ]

  -- What follows the loop.
  abbrev pub check_error :
      Option (Polled × SocketNonblocking calls) → Option (ℤ × SocketNonblocking calls)
  check_error none = none
  check_error (some (ready, socket)) =
      let error = calls.socket_error socket.fd socket.state in
      some ((if error.0 == 0 then pos 0 else minus_one), record socket { state = error.1 })
  check_error (some (poll_interrupted, socket)) = some (minus_one, socket)
  check_error (some (not_ready, socket)) = some (minus_one, socket)

  -- What follows `::connect`.
  abbrev pub connect_result :
      ℕ → Connecting → SocketNonblocking calls → Option (ℤ × SocketNonblocking calls)
  connect_result fuel connected socket = some (pos 0, socket)
  connect_result fuel in_progress socket = check_error (poll_loop fuel socket)
  connect_result fuel refused socket = some (minus_one, socket)

  -- What follows the options.
  abbrev pub connect_with :
      ℕ → calls.Address → ℤ → SocketNonblocking calls → Option (ℤ × SocketNonblocking calls)
  connect_with fuel address (pos n) socket =
      let result = calls.connect socket.fd address socket.state in
      connect_result fuel result.0 (record socket { state = result.1 })
  connect_with fuel address (negsuc n) socket = some (minus_one, socket)

  unfoldable pub connect_address :
      ℕ → ℕ → calls.Address → SocketNonblocking calls → Option (ℤ × SocketNonblocking calls)
  unfolding set_socket_options poll_loop
  connect_address fuel domain address socket =
      let made = calls.socket domain socket.state in
      elim (made.0) [
        | none ↦ some (minus_one, record socket { fd = none; state = made.1 })
        | some fd ↦
            let options = set_socket_options (some fd) made.1 in
            connect_with fuel address options.0 (record socket { fd = some fd; state = options.1 })
      ]

  unfoldable pub connect :
      ℕ → Text → Text → SocketNonblocking calls → Option (ℤ × SocketNonblocking calls)
  unfolding connect_address
  connect fuel address port socket = elim (calls.getaddrinfo address port) [
    | none ↦ some (minus_one, socket)
    | some found ↦ connect_address fuel found.0 found.1 socket
  ]

  -- Called by the event loop. The callback acts on the socket.
  unfoldable pub process :
      (calls.Handler → SocketNonblocking calls → ℤ × SocketNonblocking calls)
      → SocketNonblocking calls
      → ℤ × SocketNonblocking calls
  process call socket = elim (socket.handler) [
    | none ↦ (minus_one, socket)
    | some h ↦ call h socket
  ]

  unfoldable pub receive : ℕ → SocketNonblocking calls → Received × SocketNonblocking calls
  receive size socket =
      let got = recv (kernel_of calls socket.fd) size socket.reader socket.state in
      (got.0, record socket { reader = got.1; state = got.2 })

  unfoldable pub check_sock_addr : calls.Address → SocketNonblocking calls → Bool
  check_sock_addr address socket = elim (calls.getnameinfo address) [
    | none ↦ false
    | some check ↦ elim (calls.getpeername socket.fd socket.state) [
      | none ↦ false
      | some peer ↦ elim (calls.getnameinfo peer) [
        | none ↦ false
        | some found ↦ text_eq found.0 check.0 && text_eq found.1 check.1
      ]
    ]
  ]

  unfoldable pub disconnect : SocketNonblocking calls → SocketNonblocking calls
  disconnect socket = record socket {
    fd = none;
    state =
        calls.close socket.fd (calls.shutdown socket.fd (calls.erase_event socket.fd socket.state));
  }

  unfoldable pub is_firewire : SocketNonblocking calls → Bool
  is_firewire socket = elim (calls.hardware_family socket.fd socket.state) [
    | none ↦ false
    | some family ↦ family == arphrd_ieee1394
  ]

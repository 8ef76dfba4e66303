-- ===== src/Socket/Accepting.antt =====
-- How many of the waiting connections an event of hbm/communication/linux/tcpserver.cpp accepts.
use devscan.Base.{
  ◌⊎◌, ℕ, ◌≡◌, refl, ap, ◌∙◌, Option, true, false, none, some, List, ◌∷◌, Bool-cases, inl, inr,
}
use devscan.Base.Int.{ℤ, pos, negsuc, is_neg}
use devscan.Result.{ok, throw, std_exception}
use devscan.Socket.BufferedReader.{empty}
use devscan.Socket.Connection.{
  Sockets, SocketNonblocking, TcpOption, tcp_nodelay, tcp_keepidle, tcp_keepintvl, tcp_keepcnt,
  so_keepalive, from_fd, disconnect, set_option, set_socket_options, with_options,
}
use devscan.Socket.TcpServer.{Listening, TcpServer, IsQueue, process, hand_over, accept_client}

module _ (calls : Sockets) where
  -- The accepted descriptor cannot be set up: it cannot be made non-blocking, or an option not be set.
  abbrev pub SetUpFails : ℕ → calls.State → Type 0
  SetUpFails fd s =
      ((calls.set_nonblocking (some fd) s).0 ≡ false)
      ⊎ (is_neg (set_socket_options calls (some fd) (calls.set_nonblocking (some fd) s).1).0 ≡ true)

  -- It is not blocking, and has its options.
  abbrev pub IsSetUp : ℕ → calls.State → Type 0
  IsSetUp fd s =
      ((calls.set_nonblocking (some fd) s).0 ≡ true)
      × (is_neg (set_socket_options calls (some fd) (calls.set_nonblocking (some fd) s).1).0
          ≡ false)

module _ (calls : Sockets) (l : Listening calls) (laws : IsQueue calls l) where
  open laws use {queue}

  set_option-queue :
      (fd : Option ℕ) (o : TcpOption) (rest : calls.State → ℤ × calls.State)
      → ((s : calls.State) → queue (rest s).1 ≡ queue s)
      → (s : calls.State) → queue (set_option calls fd o rest s).1 ≡ queue s
  set_option-queue fd o rest h s = elim (Bool-cases (calls.setsockopt fd o s).0) [
    | inl set ↦ rw set (h (calls.setsockopt fd o s).1 ∙ laws.after-setsockopt fd o s)
    | inr not_set ↦ rw not_set (laws.after-setsockopt fd o s)
  ]

  options-queue :
      (fd : Option ℕ) (s : calls.State) → queue (set_socket_options calls fd s).1 ≡ queue s
  unfolding set_socket_options
  options-queue fd =
      let r4 : calls.State → ℤ × calls.State = λ s. (pos 0, s) in
      let r3 = set_option calls fd (so_keepalive 1) r4 in
      let r2 = set_option calls fd (tcp_keepcnt 2) r3 in
      let r1 = set_option calls fd (tcp_keepintvl 3) r2 in
      let r0 = set_option calls fd (tcp_keepidle 12) r1 in
      set_option-queue fd (tcp_nodelay 1) r0 (
        set_option-queue fd (tcp_keepidle 12) r1 (
          set_option-queue fd (tcp_keepintvl 3) r2 (
            set_option-queue fd (tcp_keepcnt 2) r3
              (set_option-queue fd (so_keepalive 1) r4 (λ s. refl)))))

  with_options-queue :
      (fd : Option ℕ) (r : ℤ × calls.State)
      → ((with_options calls fd r ≡ throw std_exception) × (is_neg r.0 ≡ true))
        ⊎ ((is_neg r.0 ≡ false)
            × (worker : SocketNonblocking calls) × (with_options calls fd r ≡ ok worker)
            × (worker.state ≡ r.1))
  with_options-queue fd (pos n, s) =
      inr (refl, record { fd = fd; reader = empty; handler = none; state = s }, refl, refl)
  with_options-queue fd (negsuc n, s) = inl (refl, refl)

  from_fd-queue :
      (fd : ℕ) (s : calls.State)
      → ((from_fd calls fd s ≡ throw std_exception) × SetUpFails calls fd s)
        ⊎ (IsSetUp calls fd s
            × (worker : SocketNonblocking calls) × (from_fd calls fd s ≡ ok worker)
            × (queue worker.state ≡ queue s))
  unfolding from_fd
  from_fd-queue fd s = elim (Bool-cases (calls.set_nonblocking (some fd) s).0) [
    | inl set ↦
        let made = (calls.set_nonblocking (some fd) s).1 in
        elim (with_options-queue (some fd) (set_socket_options calls (some fd) made)) [
          | inl (bad, negative) ↦ inl (rw (from_fd, set) bad, inr negative)
          | inr (positive, worker, e, same) ↦ inr (
            (set, positive),
            worker,
            rw (from_fd, set) e,
            ap queue same ∙ options-queue (some fd) made ∙ laws.after-set_nonblocking (some fd) s,
          )
        ]
    | inr not_set ↦ inl (rw (from_fd, not_set), inl not_set)
  ]

  hand_over-queue :
      (cb : Option l.AcceptCb) (worker : SocketNonblocking calls)
      → queue (hand_over calls l cb worker) ≡ queue worker.state
  unfolding disconnect
  hand_over-queue none worker =
      laws.after-close worker.fd _
      ∙ laws.after-shutdown worker.fd _
      ∙ laws.after-erase_event worker.fd worker.state
  hand_over-queue (some cb) worker = laws.after-accepted cb worker

  -- An event of the listening socket accepts the first of the connections that wait, and no more: the
  -- result is 0, by which the event loop does not call again, and the others keep waiting. That is so
  -- exactly if the accepted descriptor can be set up; if it can not, an exception leaves the event
  -- handler.
  pub process-accepts_one :
      (server : TcpServer calls l) (c : ℕ) (rest : List ℕ)
      → queue server.state ≡ c ∷ rest
      → ((process calls l server ≡ throw std_exception)
          × SetUpFails calls c (l.accept server.listening_socket server.state).1)
        ⊎ (IsSetUp calls c (l.accept server.listening_socket server.state).1
            × (after : TcpServer calls l) × (process calls l server ≡ ok (pos 0, after))
            × (queue after.state ≡ rest)
            × (after.listening_socket ≡ server.listening_socket))
  unfolding process
  process-accepts_one server c rest waiting =
      let (accepted, left) = laws.accept_next server.listening_socket server.state c rest waiting in
      elim (from_fd-queue c (l.accept server.listening_socket server.state).1) [
        | inl (bad, failed) ↦ inl (rw (process, accept_client, accepted, bad), failed)
        | inr (set_up, worker, made, same) ↦ inr (
          set_up,
          record server { state = hand_over calls l server.accept_cb worker },
          rw (process, accept_client, accepted, made),
          hand_over-queue server.accept_cb worker ∙ same ∙ left,
          refl,
        )
      ]

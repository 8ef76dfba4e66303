-- ===== src/Socket/Established.antt =====
-- `connect` of hbm/communication/linux/socketnonblocking.cpp on every path: it ends, and it returns 0 for
-- an established connection only.
use devscan.Base.{
  ◌⊎◌, ℕ, zero, suc, ◌*◌, ◌<◌, ◌≡◌, refl, ap, ◌∙◌, none, some, ◌==◌, Bool-cases, Option-cases, inl,
  inr, ==_iff, arith,
}
use devscan.Base.Int.{ℤ, pos, minus_one}
use devscan.Base.Text.{Text}
use devscan.Socket.Connection.{
  Sockets, SocketNonblocking, Connecting, connected, in_progress, refused, Polled, ready,
  poll_interrupted, not_ready, timeout_connect_s, set_socket_options, poll_loop, check_error,
  connect_with, connect_address, connect,
}
use devscan.Socket.Connecting.{
  IsTcp, HasOptions, options-cases, options-budget, Connected, keep-options,
}

Polled-cases : (p : Polled) → (p ≡ ready) ⊎ ((p ≡ poll_interrupted) ⊎ (p ≡ not_ready))
Polled-cases ready = inl refl
Polled-cases poll_interrupted = inr (inl refl)
Polled-cases not_ready = inr (inr refl)

Connecting-cases : (c : Connecting) → (c ≡ connected) ⊎ ((c ≡ in_progress) ⊎ (c ≡ refused))
Connecting-cases connected = inl refl
Connecting-cases in_progress = inr (inl refl)
Connecting-cases refused = inr (inr refl)

module _ (calls : Sockets) (laws : IsTcp calls) where
  open laws use {is_open, budget}

  -- A socket with a descriptor.
  abbrev on : ℕ → SocketNonblocking calls → calls.State → SocketNonblocking calls
  on fd socket s = record {
    fd = some fd;
    reader = socket.reader;
    handler = socket.handler;
    state = s;
  }

  fails_with :
      (before after : SocketNonblocking calls)
      → after.reader ≡ before.reader
      → after.handler ≡ before.handler
      → Connected calls laws before (some (minus_one, after))
  fails_with before after r h =
      ((minus_one, after), refl, record { result = inr refl; reader = r; handler = h })

  poll_timeout : ℕ
  poll_timeout = timeout_connect_s * 1000

  check_error-Connected :
      (fuel fd : ℕ) (socket : SocketNonblocking calls) (s : calls.State)
      → HasOptions calls laws (some fd) s
      → budget s < fuel
      → Connected calls laws socket (check_error calls (poll_loop calls fuel (on fd socket s)))
  unfolding poll_loop
  check_error-Connected zero fd socket s h b = elim b [ ]
  check_error-Connected (suc fuel) fd socket s h b =
      let polled = calls.poll_connect (some fd) 5000 s in
      let h' =
        keep-options calls laws (some fd) s polled.1 (λ o. laws.has-poll (some fd) o 5000 s) h in
      elim (Polled-cases polled.0) [
        | inl done ↦
            let error = calls.socket_error (some fd) polled.1 in
            let h'' =
              keep-options calls laws (some fd) polled.1 error.1
                (λ o. laws.has-socket_error (some fd) o polled.1) h' in
            elim (Bool-cases (error.0 == 0)) [
              | inl clean ↦
                  let open_now =
                    laws.completes (some fd) 5000 s done ((==_iff error.0 0).0 clean) in
                  (
                    (pos 0, on fd socket error.1),
                    rw (poll_loop, done, clean),
                    record {
                      result = inl (refl, fd, refl, open_now, h'');
                      reader = refl;
                      handler = refl;
                    },
                  )
              | inr dirty ↦ (
                (minus_one, on fd socket error.1),
                rw (poll_loop, done, dirty),
                record { result = inr refl; reader = refl; handler = refl },
              )
            ]
        | inr (inl again) ↦
            let less = laws.interruptions (some fd) 5000 s again in
            let (r, e, c) = check_error-Connected fuel fd socket polled.1 h' (omega arith) in
            (r, rw (poll_loop, again) e, c)
        | inr (inr failed) ↦ (
          (minus_one, on fd socket polled.1),
          rw (poll_loop, failed),
          record { result = inr refl; reader = refl; handler = refl },
        )
      ]

  connect_result-Connected :
      (fuel fd : ℕ) (socket : SocketNonblocking calls) (address : calls.Address) (s : calls.State)
      → HasOptions calls laws (some fd) s
      → budget s < fuel
      → Connected calls laws socket (connect_with calls fuel address (pos 0) (on fd socket s))
  connect_result-Connected fuel fd socket address s h b =
      let made = calls.connect (some fd) address s in
      let h' =
        keep-options calls laws (some fd) s made.1 (λ o. laws.has-connect (some fd) o address s)
          h in
      let less = laws.budget-connect (some fd) address s in
      elim (Connecting-cases made.0) [
        | inl done ↦ (
          (pos 0, on fd socket made.1),
          rw done,
          record {
            result = inl (refl, fd, refl, laws.connects (some fd) address s done, h');
            reader = refl;
            handler = refl;
          },
        )
        | inr (inl waiting) ↦
            let (r, e, c) = check_error-Connected fuel fd socket made.1 h' (omega arith) in
            (r, rw waiting e, c)
        | inr (inr no_way) ↦ (
          (minus_one, on fd socket made.1),
          rw no_way,
          record { result = inr refl; reader = refl; handler = refl },
        )
      ]

  connect_with-failed :
      (fuel fd : ℕ) (socket : SocketNonblocking calls) (address : calls.Address) (s : calls.State)
      → Connected calls laws socket (connect_with calls fuel address minus_one (on fd socket s))
  connect_with-failed fuel fd socket address s = fails_with socket (on fd socket s) refl refl

  with-options :
      (fuel fd : ℕ) (socket : SocketNonblocking calls) (address : calls.Address)
      (options : ℤ × calls.State)
      → ((options.0 ≡ pos 0) × HasOptions calls laws (some fd) options.1) ⊎ (options.0 ≡ minus_one)
      → budget options.1 < fuel
      → Connected calls laws socket
          (connect_with calls fuel address options.0 (on fd socket options.1))
  with-options fuel fd socket address options (inl (e, h)) b =
      let (r, run, c) = connect_result-Connected fuel fd socket address options.1 h b in
      (r, ap (λ (z : ℤ). connect_with calls fuel address z (on fd socket options.1)) e ∙ run, c)
  with-options fuel fd socket address options (inr e) b =
      let (r, run, c) = connect_with-failed fuel fd socket address options.1 in
      (r, ap (λ (z : ℤ). connect_with calls fuel address z (on fd socket options.1)) e ∙ run, c)

  connect_address-Connected :
      (fuel domain : ℕ) (address : calls.Address) (socket : SocketNonblocking calls)
      → budget socket.state < fuel
      → Connected calls laws socket (connect_address calls fuel domain address socket)
  unfolding connect_address
  connect_address-Connected fuel domain address socket b =
      let made = calls.socket domain socket.state in
      let less = laws.budget-socket domain socket.state in
      elim (Option-cases made.0) [
        | inl no_socket ↦ (
          (
            minus_one,
            record { fd = none; reader = socket.reader; handler = socket.handler; state = made.1 },
          ),
          rw (connect_address, no_socket),
          record { result = inr refl; reader = refl; handler = refl },
        )
        | inr (fd, opened) ↦
            let options = set_socket_options calls (some fd) made.1 in
            let less' = options-budget calls laws (some fd) made.1 in
            let (r, e, c) =
              with-options fuel fd socket address options
                (options-cases calls laws (some fd) made.1) (omega arith) in
            (r, rw (connect_address, opened) e, c)
      ]

  -- `connect` returns, for every answer of the system: with -1, or with 0 for a socket that is connected
  -- and has all five options. It leaves the callback and the buffer as they were.
  pub connect-Connected :
      (fuel : ℕ) (address port : Text) (socket : SocketNonblocking calls)
      → budget socket.state < fuel
      → Connected calls laws socket (connect calls fuel address port socket)
  unfolding connect
  connect-Connected fuel address port socket b =
      elim (Option-cases (calls.getaddrinfo address port)) [
        | inl unknown ↦ (
          (minus_one, socket),
          rw (connect, unknown),
          record { result = inr refl; reader = refl; handler = refl },
        )
        | inr (found, known) ↦
            let (r, e, c) = connect_address-Connected fuel found.0 found.1 socket b in
            (r, rw (connect, known) e, c)
      ]

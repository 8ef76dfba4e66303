-- ===== src/Socket/Reconnect.antt =====
-- The buffer of a socket of hbm/communication/linux/socketnonblocking.cpp across connections.
use devscan.Base.{
  ℕ, ◌≤◌, ◌<◌, ◌≡◌, refl, ap, sym, ◌∙◌, true, some, take, length, leb, ltb, Bool-cases, inl, inr,
  take-all, arith,
}
use mathlib.Core.Path.{subst}
use devscan.Base.Int.{ℤ}
use devscan.Base.Text.{Text}
use devscan.Socket.Kernel.{Kernel, received}
use devscan.Socket.BufferedReader.{BufferedReader, pending, recv, IsValid, sub64}
use devscan.Socket.Conservation.{bytes_left-length}
use devscan.Socket.Connection.{Sockets, SocketNonblocking, kernel_of, connect, receive, disconnect}
use devscan.Socket.Connecting.{IsTcp}
use devscan.Socket.Established.{connect-Connected}

recv-pending :
    (k : Kernel) (n : ℕ) (r : BufferedReader) (s : k.State)
    → IsValid r
    → 0 < length (pending r)
    → (recv k n r s).0 ≡ received (take n (pending r))
unfolding recv
recv-pending k n r s v some_left =
    let left = bytes_left-length k r v in
    elim (Bool-cases (leb n (sub64 r.fill_level r.already_read))) [
      | inl enough ↦ rw (recv, enough)
      | inr short ↦
          let more : ltb 0 (sub64 r.fill_level r.already_read) ≡ true = ground arith in
          let below : length (pending r) ≤ n = ground arith in
          rw (
            recv,
            short,
            more,
            left,
            take-all (length (pending r)) (pending r) (omega arith),
            take-all n (pending r) below,
          )
    ]

module _ (calls : Sockets) (laws : IsTcp calls) where
  receive-recv :
      (n : ℕ) (socket : SocketNonblocking calls)
      → (receive calls n socket).0
        ≡ (recv (kernel_of calls socket.fd) n socket.reader socket.state).0
  unfolding receive
  receive-recv n socket = refl

  disconnect-reader :
      (socket : SocketNonblocking calls) → (disconnect calls socket).reader ≡ socket.reader
  unfolding disconnect
  disconnect-reader socket = refl

  -- A socket that is disconnected while its buffer holds bytes, and connected again, returns these bytes
  -- of the former connection first, whatever the new connection sends.
  pub receive-stale :
      (fuel n : ℕ) (address port : Text) (socket : SocketNonblocking calls)
      → laws.budget (disconnect calls socket).state < fuel
      → IsValid socket.reader
      → 0 < length (pending socket.reader)
      → (result : ℤ) × (again : SocketNonblocking calls) × (connect calls fuel address port
            (disconnect calls socket)
          ≡ some (result, again))
        × ((receive calls n again).0 ≡ received (take n (pending socket.reader)))
  receive-stale fuel n address port socket b v some_left =
      let (r, e, c) = connect-Connected calls laws fuel address port (disconnect calls socket) b in
      let same : r.1.reader ≡ socket.reader = c.reader ∙ disconnect-reader socket in
      let valid : IsValid r.1.reader = subst IsValid (sym same) v in
      let left : 0 < length (pending r.1.reader) =
        subst (λ (x : BufferedReader). 0 < length (pending x)) (sym same) some_left in
      (
        r.0,
        r.1,
        e,
        receive-recv n r.1
            ∙ recv-pending (kernel_of calls r.1.fd) n r.1.reader r.1.state valid left
            ∙ ap (λ (x : BufferedReader). received (take n (pending x))) same,
      )

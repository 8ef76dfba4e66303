-- ===== src/Socket/Kernel.antt =====
-- The system calls on a connected stream socket, as parameters, with what their documentation says of
-- the bytes that pass.
use devscan.Base.{ℕ, ◌≤◌, ◌<◌, ◌≡◌, Bool, true, List, [], ◌∷◌, ◌++◌, length, take}
use devscan.Base.Text.{Text}

-- `errno` as far as the source looks at it; the first stands for EWOULDBLOCK and EAGAIN.
pub data Errno : Type 0 where
  would_block interrupted other_error : Errno

-- What `::recv` returns: the bytes, none of them at the end of the stream, or -1.
pub data Received : Type 0 where
  received : Text → Received
  recv_failed : Errno → Received

-- What `send` and `writev` return: the number of bytes taken, or -1.
pub data Sent : Type 0 where
  sent : ℕ → Sent
  send_failed : Errno → Sent

pub record Kernel : Type 1 where
  pub State : Type 0
  pub recv : ℕ → State → Received × State
  -- the first argument stands for MSG_MORE
  pub send : Bool → Text → State → Sent × State
  pub writev : List Text → State → Sent × State
  -- whether `poll` returned 1, after the retries for EINTR
  pub poll_in : State → Bool × State
  pub poll_out : State → Bool × State
  -- the bytes that are yet to be received, and those that were taken for sending
  pub incoming : State → Text
  pub outgoing : State → Text

-- The blocks of a `writev` one behind the other.
abbrev pub flatten : List Text → Text
flatten [] = []
flatten (block ∷ blocks) = block ++ flatten blocks

-- `recv` hands over at most as many bytes as asked for, those that come next, and loses none. `send`
-- takes the first bytes of what it is given. `poll` changes neither.
pub record IsStream (k : Kernel) : Type 0 where
  pub recv_fits :
      (n : ℕ) (s s' : k.State) (bytes : Text) → k.recv n s ≡ (received bytes, s') → length bytes ≤ n
  pub recv_next :
      (n : ℕ) (s s' : k.State) (bytes : Text)
      → k.recv n s ≡ (received bytes, s')
      → k.incoming s ≡ bytes ++ k.incoming s'
  pub recv_failed_next :
      (n : ℕ) (s s' : k.State) (e : Errno)
      → k.recv n s ≡ (recv_failed e, s')
      → k.incoming s ≡ k.incoming s'
  pub send_fits :
      (more : Bool) (block : Text) (s s' : k.State) (n : ℕ)
      → k.send more block s ≡ (sent n, s')
      → n ≤ length block
  pub send_next :
      (more : Bool) (block : Text) (s s' : k.State) (n : ℕ)
      → k.send more block s ≡ (sent n, s')
      → k.outgoing s' ≡ k.outgoing s ++ take n block
  pub send_failed_next :
      (more : Bool) (block : Text) (s s' : k.State) (e : Errno)
      → k.send more block s ≡ (send_failed e, s')
      → k.outgoing s' ≡ k.outgoing s
  pub writev_fits :
      (blocks : List Text) (s s' : k.State) (n : ℕ)
      → k.writev blocks s ≡ (sent n, s')
      → n ≤ length (flatten blocks)
  pub writev_next :
      (blocks : List Text) (s s' : k.State) (n : ℕ)
      → k.writev blocks s ≡ (sent n, s')
      → k.outgoing s' ≡ k.outgoing s ++ take n (flatten blocks)
  pub writev_failed_next :
      (blocks : List Text) (s s' : k.State) (e : Errno)
      → k.writev blocks s ≡ (send_failed e, s')
      → k.outgoing s' ≡ k.outgoing s
  pub poll_in_next : (s : k.State) → k.incoming (k.poll_in s).1 ≡ k.incoming s
  pub poll_out_next : (s : k.State) → k.outgoing (k.poll_out s).1 ≡ k.outgoing s

-- The kernel lets a caller wait a bounded number of times: each time that `poll` says that the socket
-- is ready, and each time that a call was interrupted, something of a budget is gone.
pub record IsPatient (k : Kernel) (budget : k.State → ℕ) : Type 0 where
  pub recv_budget : (n : ℕ) (s : k.State) → budget (k.recv n s).1 ≤ budget s
  pub poll_in_budget : (s : k.State) → (k.poll_in s).0 ≡ true → budget (k.poll_in s).1 < budget s
  pub send_budget :
      (more : Bool) (block : Text) (s : k.State) → budget (k.send more block s).1 ≤ budget s
  pub interrupted_budget :
      (more : Bool) (block : Text) (s : k.State)
      → (k.send more block s).0 ≡ send_failed interrupted
      → budget (k.send more block s).1 < budget s
  pub poll_out_budget : (s : k.State) → (k.poll_out s).0 ≡ true → budget (k.poll_out s).1 < budget s

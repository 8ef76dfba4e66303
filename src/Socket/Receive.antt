-- ===== src/Socket/Receive.antt =====
-- `receiveComplete` of hbm/communication/linux/socketnonblocking.cpp. The loop is on fuel, and `none`
-- means that it ran out.
use devscan.Base.{
  ℕ, zero, suc, ◌-◌, ◌≤◌, ◌≡◌, true, false, ◌⊎◌, Option, none, some, [], ◌∷◌, ◌++◌, length, ◌==◌,
}
use devscan.Base.Int.{ℤ, pos, minus_one}
use devscan.Base.Text.{Text}
use devscan.Socket.Kernel.{Kernel, Received, received, recv_failed, would_block}
use devscan.Socket.BufferedReader.{BufferedReader, IsValid, pending, recv}

module _ (k : Kernel) where
  -- What the call returns, what it has written to the block, and the state behind it.
  pub record Transfer : Type 0 where
    pub result : ℤ
    pub block : Text
    pub reader : BufferedReader
    pub state : k.State

  -- The round behind `recv`; `continue` is the rest of the loop.
  abbrev pub receive_round :
      (ℕ → Text → BufferedReader → k.State → Option Transfer)
      → ℕ
      → ℕ
      → Text
      → Received × BufferedReader × k.State
      → Option Transfer
  receive_round continue size size_left block (received [], r, s) =
      some (record { result = pos (size - size_left); block = block; reader = r; state = s })
  receive_round continue size size_left block (received (b ∷ bytes), r, s) =
      continue (size_left - length (b ∷ bytes)) (block ++ (b ∷ bytes)) r s
  receive_round continue size size_left block (recv_failed would_block, r, s) =
      elim (k.poll_in s).0 [
        | true ↦ continue size_left block r (k.poll_in s).1
        | false ↦
            some (record { result = minus_one; block = block; reader = r; state = (k.poll_in s).1 })
      ]
  receive_round continue size size_left block (recv_failed _, r, s) =
      some (record { result = minus_one; block = block; reader = r; state = s })

  -- `while(sizeLeft)`
  unfoldable pub receive_loop : ℕ → ℕ → ℕ → Text → BufferedReader → k.State → Option Transfer
  receive_loop zero size size_left block r s = none
  receive_loop (suc fuel) size size_left block r s = elim (size_left == 0) [
    | true ↦ some (record { result = pos size; block = block; reader = r; state = s })
    | false ↦ receive_round (receive_loop fuel size) size size_left block (recv k size_left r s)
  ]

  unfoldable pub receive_complete : ℕ → ℕ → BufferedReader → k.State → Option Transfer
  unfolding receive_loop
  receive_complete fuel size r s = receive_loop fuel size size [] r s

  -- The block holds the next bytes of the stream; the result is their number, or -1.
  pub record IsNext (size : ℕ) (stream : Text) (t : Transfer) : Type 0 where
    pub result : (t.result ≡ pos (length t.block)) ⊎ (t.result ≡ minus_one)
    pub fits : length t.block ≤ size
    pub conserved : stream ≡ t.block ++ (pending t.reader ++ k.incoming t.state)
    pub valid : IsValid t.reader

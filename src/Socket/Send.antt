-- ===== src/Socket/Send.antt =====
-- `sendBlock` and `sendBlocks` of hbm/communication/linux/socketnonblocking.cpp. The loop of the first
-- is on fuel, and `none` means that it ran out.
use devscan.Base.{
  ℕ, zero, suc, ◌+◌, ◌-◌, ◌^◌, Bool, true, false, Option, none, some, List, [], ◌∷◌, length, drop,
  ◌==◌, ltb, ◌%◌, take, if◌then◌else◌,
}
use devscan.Base.Int.{ℤ, pos, negsuc, minus_one}
use devscan.Base.Text.{Text}
use devscan.Socket.Kernel.{
  Kernel, Sent, sent, send_failed, would_block, interrupted, other_error, flatten,
}
use devscan.Socket.BufferedReader.{sub64}

-- The conversion from `size_t` to `ssize_t`.
abbrev pub signed64 : ℕ → ℤ
signed64 n = if ltb n (2 ^ 63) then pos n else negsuc (2 ^ 64 - 1 - n)

module _ (k : Kernel) where
  -- A round behind `send`; `continue` is the rest of the loop.
  abbrev pub send_round :
      (Text → k.State → Option (ℤ × k.State)) → Text → Sent × k.State → Option (ℤ × k.State)
  send_round continue left (sent zero, s) = some (minus_one, s)
  send_round continue left (sent (suc n), s) = continue (drop (suc n) left) s
  send_round continue left (send_failed would_block, s) = elim (k.poll_out s).0 [
    | true ↦ continue left (k.poll_out s).1
    | false ↦ some (minus_one, (k.poll_out s).1)
  ]
  send_round continue left (send_failed interrupted, s) = continue left s
  send_round continue left (send_failed other_error, s) = some (minus_one, s)

  -- `while (BytesLeft > 0)`
  unfoldable pub send_loop : ℕ → Bool → ℕ → Text → k.State → Option (ℤ × k.State)
  send_loop zero more size left s = none
  send_loop (suc fuel) more size left s = elim (length left == 0) [
    | true ↦ some (pos size, s)
    | false ↦ send_round (send_loop fuel more size) left (k.send more left s)
  ]

  unfoldable pub send_block : ℕ → Text → Bool → k.State → Option (ℤ × k.State)
  unfolding send_loop
  send_block fuel block more s = send_loop fuel more (length block) block s

  -- What follows `sendBlock` in the loop of `sendBlocks`; `continue` is the rest of the loop.
  abbrev pub after_block :
      (ℕ → k.State → Option (ℤ × k.State)) → ℕ → Option (ℤ × k.State) → Option (ℤ × k.State)
  after_block continue bytes_written none = none
  after_block continue bytes_written (some (pos (suc n), s)) =
      continue ((bytes_written + suc n) % 2 ^ 64) s
  after_block continue bytes_written (some (_, s)) = some (minus_one, s)

  -- The body of that loop, behind `blockSum += iovs[index].iov_len`.
  abbrev pub block_round :
      ℕ → (ℕ → ℕ → k.State → Option (ℤ × k.State)) → Text → ℕ → ℕ → k.State → Option (ℤ × k.State)
  block_round fuel continue block block_sum bytes_written s =
      let bytes_remaining = sub64 block_sum bytes_written in
      let start = sub64 (length block) bytes_remaining in
      elim (ltb bytes_written block_sum) [
        | false ↦ continue block_sum bytes_written s
        | true ↦
            after_block (continue block_sum) bytes_written
              (send_block fuel (take bytes_remaining (drop start block)) false s)
      ]

  -- The blocks from `index` on; `block_sum` is the length of those before it.
  unfoldable pub send_rest : ℕ → List Text → ℕ → ℕ → k.State → Option (ℤ × k.State)
  send_rest fuel [] block_sum bytes_written s = some (signed64 bytes_written, s)
  send_rest fuel (block ∷ blocks) block_sum bytes_written s =
      block_round fuel (send_rest fuel blocks) block ((block_sum + length block) % 2 ^ 64)
        bytes_written s

  -- `if(bytesWritten==completeLength)` and its `else`
  abbrev pub after_written : ℕ → List Text → ℕ → k.State → Option (ℤ × k.State)
  after_written fuel blocks bytes_written s =
      elim (bytes_written == length (flatten blocks) % 2 ^ 64) [
        | true ↦ some (signed64 bytes_written, s)
        | false ↦ send_rest fuel blocks 0 bytes_written s
      ]

  -- What follows `writev`. The entries that `iovs` starts with have no length, so neither `writev` nor
  -- the loop sees them.
  abbrev pub after_writev : ℕ → List Text → Sent × k.State → Option (ℤ × k.State)
  after_writev fuel blocks (sent zero, s) = some (pos 0, s)
  after_writev fuel blocks (sent (suc n), s) = after_written fuel blocks (suc n) s
  after_writev fuel blocks (send_failed other_error, s) = some (minus_one, s)
  after_writev fuel blocks (send_failed _, s) = after_written fuel blocks (2 ^ 64 - 1) s

  unfoldable pub send_blocks : ℕ → List Text → k.State → Option (ℤ × k.State)
  unfolding send_rest
  send_blocks fuel blocks s = after_writev fuel blocks (k.writev blocks s)

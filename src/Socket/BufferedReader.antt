-- ===== src/Socket/BufferedReader.antt =====
-- hbm/communication/bufferedreader.cpp. `buffer` is the part of `m_buffer` that was received last.
use devscan.Base.{
  ℕ, ◌+◌, ◌-◌, ◌*◌, ◌%◌, ◌^◌, ◌≤◌, ◌≡◌, [], ◌∷◌, length, take, drop, ltb, leb, if◌then◌else◌,
}
use devscan.Base.Text.{Text}
use devscan.Socket.Kernel.{Kernel, Received, received, recv_failed}

abbrev pub buffer_size : ℕ
buffer_size = 65536 * 4

pub record BufferedReader : Type 0 where
  pub buffer : Text
  pub fill_level : ℕ
  pub already_read : ℕ

abbrev pub empty : BufferedReader
empty = record { buffer = []; fill_level = 0; already_read = 0 }

-- `size_t` subtraction.
abbrev pub sub64 : ℕ → ℕ → ℕ
sub64 a b = (a + 2 ^ 64 - b) % 2 ^ 64

-- The bytes of the last chunk are read up to `already_read`.
pub record IsValid (r : BufferedReader) : Type 0 where
  pub filled : r.fill_level ≡ length r.buffer
  pub ordered : r.already_read ≤ r.fill_level
  pub bounded : r.fill_level ≤ buffer_size

-- The bytes that were received and not yet returned.
abbrev pub pending : BufferedReader → Text
pending r = drop r.already_read r.buffer

-- What follows `::recv`: a failure and the end of the stream are returned as they are.
unfoldable pub refill : ℕ → BufferedReader → Received → Received × BufferedReader
refill desired_len r (recv_failed e) = (recv_failed e, r)
refill desired_len r (received []) = (received [], r)
refill desired_len r (received (b ∷ bytes)) =
    let level = length (b ∷ bytes) in
    let count = if leb desired_len level then desired_len else level in
    (
      received (take count (b ∷ bytes)),
      record { buffer = b ∷ bytes; fill_level = level; already_read = count },
    )

module _ (k : Kernel) where
  unfoldable pub recv : ℕ → BufferedReader → k.State → Received × BufferedReader × k.State
  unfolding refill
  recv desired_len r s =
      let bytes_left = sub64 r.fill_level r.already_read in
      if leb desired_len bytes_left
      then (
        received (take desired_len (drop r.already_read r.buffer)),
        record r { already_read = r.already_read + desired_len },
        s,
      )
      else if ltb 0 bytes_left
      then (
        received (take bytes_left (drop r.already_read r.buffer)),
        record r { already_read = r.fill_level },
        s,
      )
      else (let (result, s') = k.recv buffer_size s in
          let (returned, r') = refill desired_len r result in (returned, r', s'))

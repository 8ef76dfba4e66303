-- ===== src/Socket/Conservation.antt =====
-- The buffered reader returns the bytes of the stream in order, each of them once.
use devscan.Base.{
  ℕ, zero, suc, ◌+◌, ◌≤◌, ◌<◌, ◌≡◌, ◌≢◌, refl, ap, sym, ◌∙◌, false, [], ◌∷◌, ◌++◌, append_assoc,
  length, take, drop, length-drop, length-take, drop-drop, take-all, drop-all, take-append-drop,
  ltb, leb, arith, Bool-cases, inl, inr,
}
use devscan.Base.Text.{Text}
use devscan.Socket.Kernel.{Kernel, IsStream, Received, received, recv_failed}
use devscan.Socket.BufferedReader.{
  BufferedReader, IsValid, pending, sub64, buffer_size, refill, recv,
}

abbrev pub bytes_of : Received → Text
bytes_of (received bytes) = bytes
bytes_of (recv_failed e) = []

module _ (k : Kernel) where
  -- The reader stays valid, no more bytes are returned than asked for, and what was pending and
  -- incoming is what was returned, followed by what is now pending and incoming.
  pub record Conserves (desired_len : ℕ) (r : BufferedReader) (s : k.State)
      (out : Received × BufferedReader × k.State) : Type 0 where
    pub valid : IsValid out.1
    pub fits : length (bytes_of out.0) ≤ desired_len
    pub conserved :
        pending r ++ k.incoming s ≡ bytes_of out.0 ++ (pending out.1 ++ k.incoming out.2)

  pub bytes_left-length :
      (r : BufferedReader) → IsValid r → sub64 r.fill_level r.already_read ≡ length (pending r)
  bytes_left-length r v =
      omega (arith, length-drop r.already_read r.buffer, v.filled, v.ordered, v.bounded)

  split_at : (n : ℕ) (xs rest : Text) → xs ++ rest ≡ take n xs ++ (drop n xs ++ rest)
  split_at n xs rest =
      ap (λ t. t ++ rest) (sym (take-append-drop n xs)) ∙ append_assoc (take n xs) (drop n xs) rest

  -- Enough bytes are pending.
  from_buffer :
      (n : ℕ) (r : BufferedReader) (s : k.State)
      → IsValid r
      → n ≤ length (pending r)
      → Conserves n r s
          (received (take n (pending r)), record r { already_read = r.already_read + n }, s)
  from_buffer n r s v h = record {
    valid = record {
      filled = v.filled;
      ordered = omega (arith, length-drop r.already_read r.buffer, v.filled);
      bounded = v.bounded;
    };
    fits = omega (arith, length-take n (pending r) h);
    conserved = rw (← drop-drop r.already_read n r.buffer) (split_at n (pending r) (k.incoming s));
  }

  -- Some bytes are pending: a short read.
  short_read :
      (n : ℕ) (r : BufferedReader) (s : k.State)
      → IsValid r
      → length (pending r) ≤ n
      → Conserves n r s (received (pending r), record r { already_read = r.fill_level }, s)
  short_read n r s v h = record {
    valid = record { filled = v.filled; ordered = omega arith; bounded = v.bounded };
    fits = h;
    conserved = rw (drop-all r.fill_level r.buffer (omega (arith, v.filled))) refl;
  }

  nil_of_length : (t : Text) → length t ≡ 0 → t ≡ []
  nil_of_length [] h = refl
  nil_of_length (c ∷ t) h = absurd (omega arith)

  -- Nothing is pending, and the kernel is asked.
  refill-Conserves :
      (n : ℕ) (r : BufferedReader) (s s' : k.State) (result : Received)
      → IsStream k
      → IsValid r
      → pending r ≡ []
      → k.recv buffer_size s ≡ (result, s')
      → Conserves n r s ((refill n r result).0, (refill n r result).1, s')
  unfolding refill
  refill-Conserves n r s s' (recv_failed e) law v none_left call = record {
    valid = v;
    fits = omega arith;
    conserved = ap (λ t. pending r ++ t) (law.recv_failed_next buffer_size s s' e call);
  }
  refill-Conserves n r s s' (received []) law v none_left call = record {
    valid = v;
    fits = omega arith;
    conserved = ap (λ t. pending r ++ t) (law.recv_next buffer_size s s' [] call);
  }
  refill-Conserves n r s s' (received (b ∷ bytes)) law v none_left call =
      let level = length (b ∷ bytes) in
      let next = law.recv_next buffer_size s s' (b ∷ bytes) call in
      let fits = law.recv_fits buffer_size s s' (b ∷ bytes) call in
      elim (Bool-cases (leb n level)) [
        | inl enough ↦ rw enough (record {
          valid = record { filled = refl; ordered = ground arith; bounded = fits };
          fits = omega (arith, length-take n (b ∷ bytes) (ground arith));
          conserved = rw (none_left, next) (split_at n (b ∷ bytes) (k.incoming s'));
        })
        | inr short ↦ rw short (record {
          valid = record { filled = refl; ordered = omega arith; bounded = fits };
          fits = omega (arith, length-take level (b ∷ bytes) (omega arith), not_le n level short);
          conserved = rw (none_left, next) (split_at level (b ∷ bytes) (k.incoming s'));
        })
      ]
    where
      not_le : (a b : ℕ) → leb a b ≡ false → b ≤ a
      not_le a b h = ground arith

  -- Each call of `recv` conserves the stream.
  pub recv-Conserves :
      (desired_len : ℕ) (r : BufferedReader) (s : k.State)
      → IsStream k
      → IsValid r
      → Conserves desired_len r s (recv k desired_len r s)
  unfolding recv
  recv-Conserves desired_len r s law v =
      let left = bytes_left-length r v in
      elim (Bool-cases (leb desired_len (sub64 r.fill_level r.already_read))) [
        | inl enough ↦
            rw (recv, enough) (from_buffer desired_len r s v (rw (← left) (ground arith)))
        | inr short ↦ elim (Bool-cases (ltb 0 (sub64 r.fill_level r.already_read))) [
          | inl some_left ↦
              rw
                (
                  recv,
                  short,
                  some_left,
                  left,
                  take-all (length (pending r)) (pending r) (omega arith),
                )
                (short_read desired_len r s v (rw (← left) (ground arith)))
          | inr none_left ↦
              let empty_left : pending r ≡ [] =
                nil_of_length (pending r) (sym left ∙ ground arith) in
              rw (recv, short, none_left)
                (refill-Conserves desired_len r s (k.recv buffer_size s).1 (k.recv buffer_size s).0
                  law v empty_left refl)
        ]
      ]

  take-ne-nil : (n : ℕ) (t : Text) → 0 < n → 0 < length t → take n t ≢ []
  take-ne-nil zero t h l = absurd (omega arith)
  take-ne-nil (suc n) [] h l = absurd (omega arith)
  take-ne-nil (suc n) (c ∷ t) h l = cc

  refill-end :
      (n : ℕ) (r : BufferedReader) (result : Received)
      → 0 < n
      → (refill n r result).0 ≡ received []
      → result ≡ received []
  unfolding refill
  refill-end n r (recv_failed e) h q = cc
  refill-end n r (received []) h q = refl
  refill-end n r (received (b ∷ bytes)) h q =
      ground (arith, take-ne-nil n (b ∷ bytes), take-ne-nil (length (b ∷ bytes)) (b ∷ bytes))

  -- A call that asks for bytes returns none only where nothing is pending and the kernel is at the end
  -- of the stream.
  pub recv-end :
      (desired_len : ℕ) (r : BufferedReader) (s : k.State)
      → IsValid r
      → 0 < desired_len
      → (recv k desired_len r s).0 ≡ received []
      → (pending r ≡ []) × ((k.recv buffer_size s).0 ≡ received [])
  unfolding recv
  recv-end desired_len r s v h q =
      let left = bytes_left-length r v in
      elim (Bool-cases (leb desired_len (sub64 r.fill_level r.already_read))) [
        | inl enough ↦ absurd (ground (arith, take-ne-nil desired_len (pending r), left))
        | inr short ↦ elim (Bool-cases (ltb 0 (sub64 r.fill_level r.already_read))) [
          | inl some_left ↦
              absurd
                (ground (arith, take-ne-nil (sub64 r.fill_level r.already_read) (pending r), left))
          | inr none_left ↦ (
            nil_of_length (pending r) (sym left ∙ ground arith),
            refill-end desired_len r (k.recv buffer_size s).0 h (ground arith),
          )
        ]
      ]

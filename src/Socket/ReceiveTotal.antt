-- ===== src/Socket/ReceiveTotal.antt =====
-- `receiveComplete` ends, and fills the block with the next bytes of the stream.
use devscan.Base.{
  ℕ, zero, suc, ◌+◌, ◌-◌, ◌≤◌, ◌<◌, ◌≡◌, refl, ap, sym, ◌∙◌, ◌⊎◌, inl, inr, Option, some, [], ◌∷◌,
  ◌++◌, append_assoc, length, length-append, ◌==◌, ltb, leb, arith, Bool-cases,
}
use devscan.Base.Int.{ℤ, pos, minus_one}
use devscan.Base.Text.{Text}
use devscan.Socket.Kernel.{
  Kernel, IsStream, IsPatient, Received, received, recv_failed, would_block, interrupted,
  other_error,
}
use devscan.Socket.BufferedReader.{BufferedReader, IsValid, pending, recv, sub64, buffer_size}
use devscan.Socket.Conservation.{Conserves, recv-Conserves}
use devscan.Socket.Receive.{Transfer, receive_round, receive_loop, receive_complete, IsNext}

module _ (k : Kernel) (law : IsStream k) (budget : k.State → ℕ) (patient : IsPatient k budget) where
  recv-budget : (n : ℕ) (r : BufferedReader) (s : k.State) → budget (recv k n r s).2 ≤ budget s
  unfolding recv
  recv-budget n r s = elim (Bool-cases (leb n (sub64 r.fill_level r.already_read))) [
    | inl enough ↦ rw (recv, enough) (omega arith)
    | inr short ↦ elim (Bool-cases (ltb 0 (sub64 r.fill_level r.already_read))) [
      | inl some_left ↦ rw (recv, short, some_left) (omega arith)
      | inr none_left ↦ rw (recv, short, none_left) (patient.recv_budget buffer_size s)
    ]
  ]

  module _ (size : ℕ) (stream : Text) where
    -- What holds at the head of the loop.
    record Head (size_left : ℕ) (block : Text) (r : BufferedReader) (s : k.State) : Type 0 where
      counted : size_left + length block ≡ size
      conserved : stream ≡ block ++ (pending r ++ k.incoming s)
      valid : IsValid r

    abbrev Ends : Option (Transfer k) → Type 0
    Ends o = (t : Transfer k) × (o ≡ some t) × IsNext k size stream t

    -- A round that ends the call with what the block holds so far.
    stop_here :
        (result : ℤ) (size_left : ℕ) (block : Text) (r r' : BufferedReader) (s s' : k.State)
        → Head size_left block r s
        → IsValid r'
        → pending r ++ k.incoming s ≡ pending r' ++ k.incoming s'
        → (result ≡ pos (length block)) ⊎ (result ≡ minus_one)
        → IsNext k size stream (record { result = result; block = block; reader = r'; state = s' })
    stop_here result size_left block r r' s s' h v c e = record {
      result = e;
      fits = omega (arith, h.counted);
      conserved = h.conserved ∙ ap (λ t. block ++ t) c;
      valid = v;
    }

    receive_round-Ends :
        (fuel : ℕ) (continue : ℕ → Text → BufferedReader → k.State → Option (Transfer k))
        → ((n : ℕ) (b : Text) (r : BufferedReader) (s : k.State)
            → Head n b r s
            → n + budget s < fuel
            → Ends (continue n b r s))
        → (size_left : ℕ) (block : Text) (r : BufferedReader) (s : k.State)
          (out : Received × BufferedReader × k.State)
        → Head size_left block r s
        → Conserves k size_left r s out
        → budget out.2 ≤ budget s
        → size_left + budget s < suc fuel
        → Ends (receive_round k continue size size_left block out)
    receive_round-Ends fuel continue ih size_left block r s (received [], r', s') h c b f =
        let n : size - size_left ≡ length block = omega (arith, h.counted) in
        (
          record { result = pos (size - size_left); block = block; reader = r'; state = s' },
          refl,
          stop_here _ size_left block r r' s s' h c.valid c.conserved (inl (ap pos n)),
        )
    receive_round-Ends fuel continue ih size_left block r s (received (x ∷ xs), r', s') h c b f =
        ih (size_left - length (x ∷ xs)) (block ++ (x ∷ xs)) r' s'
          (record {
            counted = omega (arith, h.counted, c.fits, length-append block (x ∷ xs));
            conserved =
                h.conserved
                ∙ ap (λ t. block ++ t) c.conserved
                ∙ sym (append_assoc block (x ∷ xs) _);
            valid = c.valid;
          })
          (omega (arith, c.fits))
    receive_round-Ends fuel continue ih size_left block r s (recv_failed would_block, r', s') h c b
          f =
        let same = c.conserved ∙ ap (λ t. pending r' ++ t) (sym (law.poll_in_next s')) in
        elim (Bool-cases (k.poll_in s').0) [
          | inl ready ↦
              rw (receive_round, ready)
                (ih size_left block r' (k.poll_in s').1
                  (record {
                    counted = h.counted;
                    conserved = h.conserved ∙ ap (λ t. block ++ t) same;
                    valid = c.valid;
                  })
                  (omega (arith, patient.poll_in_budget s' ready)))
          | inr failed ↦
              rw (receive_round, failed)
                (
                  record {
                    result = minus_one;
                    block = block;
                    reader = r';
                    state = (k.poll_in s').1;
                  },
                  refl,
                  stop_here minus_one size_left block r r' s (k.poll_in s').1 h c.valid same
                      (inr refl),
                )
        ]
    receive_round-Ends fuel continue ih size_left block r s (recv_failed interrupted, r', s') h c b
          f =
        (
          record { result = minus_one; block = block; reader = r'; state = s' },
          refl,
          stop_here minus_one size_left block r r' s s' h c.valid c.conserved (inr refl),
        )
    receive_round-Ends fuel continue ih size_left block r s (recv_failed other_error, r', s') h c b
          f =
        (
          record { result = minus_one; block = block; reader = r'; state = s' },
          refl,
          stop_here minus_one size_left block r r' s s' h c.valid c.conserved (inr refl),
        )

    receive_loop-Ends :
        (fuel size_left : ℕ) (block : Text) (r : BufferedReader) (s : k.State)
        → Head size_left block r s
        → size_left + budget s < fuel
        → Ends (receive_loop k fuel size size_left block r s)
    unfolding receive_loop
    receive_loop-Ends zero size_left block r s h f = absurd (omega arith)
    receive_loop-Ends (suc fuel) size_left block r s h f = elim (Bool-cases (size_left == 0)) [
      | inl done ↦
          let n : size ≡ length block = ground (arith, h.counted) in
          rw (receive_loop, done)
            (
              record { result = pos size; block = block; reader = r; state = s },
              refl,
              stop_here (pos size) size_left block r r s s h h.valid refl (inl (ap pos n)),
            )
      | inr more ↦
          rw (receive_loop, more)
            (receive_round-Ends fuel (receive_loop k fuel size) (receive_loop-Ends fuel) size_left
              block r s (recv k size_left r s) h (recv-Conserves k size_left r s law h.valid)
              (recv-budget size_left r s) f)
    ]

  -- With more fuel than the bytes asked for and the kernel's budget, `receiveComplete` ends: the block
  -- holds the next bytes of the stream, at most as many as asked for, and none is lost; the result is
  -- their number, or -1.
  pub receive_complete-IsNext :
      (fuel size : ℕ) (r : BufferedReader) (s : k.State)
      → IsValid r
      → size + budget s < fuel
      → (t : Transfer k) × (receive_complete k fuel size r s ≡ some t)
        × IsNext k size (pending r ++ k.incoming s) t
  unfolding receive_complete
  receive_complete-IsNext fuel size r s v f =
      receive_loop-Ends size (pending r ++ k.incoming s) fuel size [] r s
        (record { counted = omega arith; conserved = refl; valid = v }) f

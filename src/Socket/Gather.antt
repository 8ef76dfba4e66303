-- ===== src/Socket/Gather.antt =====
-- `sendBlocks` ends, and hands the blocks over to the kernel once and in order.
use devscan.Base.{
  ℕ, zero, suc, ◌+◌, ◌-◌, ◌^◌, ◌%◌, ◌≤◌, ◌<◌, ◌≡◌, refl, ap, sym, ◌∙◌, false, ◌⊎◌, inl, inr, some,
  List, ◌++◌, append-nil, length, take, ◌==◌, arith, Bool-cases,
}
use devscan.Base.Int.{ℤ, pos, minus_one}
use devscan.Base.Text.{Text}
use devscan.Socket.Kernel.{
  Kernel, IsStream, IsPatient, Errno, Sent, sent, send_failed, would_block, interrupted,
  other_error, flatten,
}
use devscan.Socket.Send.{send_rest, after_written, after_writev, send_blocks}
use devscan.Socket.RestTotal.{signed64-pos, send_rest-Ends, send_rest-none}

module _ (k : Kernel) (law : IsStream k) (budget : k.State → ℕ) (patient : IsPatient k budget) where
  -- The kernel took the first `taken` bytes of the blocks, all of them if the result is positive.
  pub record IsGathered (blocks : List Text) (s : k.State) (out : ℤ × k.State) : Type 0 where
    pub taken : ℕ
    pub fits : taken ≤ length (flatten blocks)
    pub handed_over : k.outgoing out.1 ≡ k.outgoing s ++ take taken (flatten blocks)
    pub result :
        ((out.0 ≡ pos (length (flatten blocks))) × (taken ≡ length (flatten blocks)))
        ⊎ (out.0 ≡ minus_one)
        ⊎ ((out.0 ≡ pos 0) × (taken ≡ 0))

  untouched :
      (blocks : List Text) (s s' : k.State) (e : Errno)
      → k.writev blocks s ≡ (send_failed e, s')
      → IsGathered blocks s (minus_one, s')
  untouched blocks s s' e h = record {
    taken = 0;
    fits = omega arith;
    handed_over = law.writev_failed_next blocks s s' e h ∙ sym (append-nil _);
    result = inr (inl refl);
  }

  -- `writev` failed in a way that the source means to try again: no block is sent at all.
  after_written-none :
      (fuel : ℕ) (blocks : List Text) (s : k.State)
      → length (flatten blocks) < 2 ^ 63
      → after_written k fuel blocks (2 ^ 64 - 1) s ≡ some (minus_one, s)
  after_written-none fuel blocks s b =
      let other : (2 ^ 64 - 1 == length (flatten blocks) % 2 ^ 64) ≡ false = ground (arith, b) in
      rw (after_written, other)
        (send_rest-none k law budget patient fuel blocks 0 s (omega (arith, b)))

  after_writev-Ends :
      (fuel : ℕ) (blocks : List Text) (s : k.State)
      → length (flatten blocks) < 2 ^ 63
      → (out : Sent × k.State) → length (flatten blocks) + budget out.1 < fuel
      → k.writev blocks s ≡ out
      → (r : ℤ × k.State) × (after_writev k fuel blocks out ≡ some r) × IsGathered blocks s r
  after_writev-Ends fuel blocks s b (sent zero, s') f e = (
    (pos 0, s'),
    refl,
    record {
      taken = 0;
      fits = omega arith;
      handed_over = law.writev_next blocks s s' 0 e;
      result = inr (inr (refl, refl));
    },
  )
  after_writev-Ends fuel blocks s b (sent (suc n), s') f e =
      let fits : suc n ≤ length (flatten blocks) = law.writev_fits blocks s s' (suc n) e in
      let whole : length (flatten blocks) % 2 ^ 64 ≡ length (flatten blocks) = omega (arith, b) in
      elim (Bool-cases (suc n == length (flatten blocks))) [
        | inl all ↦
            let n-all : suc n ≡ length (flatten blocks) = ground (arith, all) in
            rw (after_written, whole, all, signed64-pos (suc n) (omega (arith, b)))
              (
                (pos (suc n), s'),
                refl,
                record {
                  taken = suc n;
                  fits = fits;
                  handed_over = law.writev_next blocks s s' (suc n) e;
                  result = inl (ap pos n-all, n-all);
                },
              )
        | inr part ↦
            let from_start : 0 + suc n ≡ suc n = omega arith in
            let (out, same, h) =
              send_rest-Ends k law budget patient fuel blocks (k.outgoing s) 0 (suc n) s'
                (record { within = fits; handed_over = law.writev_next blocks s s' (suc n) e })
                (omega (arith, b)) f in
            rw (after_written, whole, part)
              (
                out,
                ap (λ w. send_rest k fuel blocks 0 w s') (sym from_start) ∙ same,
                record {
                  taken = h.taken;
                  fits = h.fits;
                  handed_over = h.handed_over;
                  result = elim h.result [
                    | inl (r, all) ↦ inl (r ∙ ap pos (omega arith), all)
                    | inr r ↦ inr (inl r)
                  ];
                },
              )
      ]
  after_writev-Ends fuel blocks s b (send_failed would_block, s') f e =
      ((minus_one, s'), after_written-none fuel blocks s' b, untouched blocks s s' would_block e)
  after_writev-Ends fuel blocks s b (send_failed interrupted, s') f e =
      ((minus_one, s'), after_written-none fuel blocks s' b, untouched blocks s s' interrupted e)
  after_writev-Ends fuel blocks s b (send_failed other_error, s') f e =
      ((minus_one, s'), refl, untouched blocks s s' other_error e)

  -- With blocks of less than 2 ^ 63 bytes together and more fuel than these and the kernel's budget,
  -- `sendBlocks` ends: the kernel has taken a first part of the blocks, put together, once and in order;
  -- the result is their length, and then all was taken, or -1, or 0, and then nothing was taken.
  pub send_blocks-IsGathered :
      (fuel : ℕ) (blocks : List Text) (s : k.State)
      → length (flatten blocks) < 2 ^ 63
      → length (flatten blocks) + budget (k.writev blocks s).1 < fuel
      → (out : ℤ × k.State) × (send_blocks k fuel blocks s ≡ some out) × IsGathered blocks s out
  unfolding send_blocks
  send_blocks-IsGathered fuel blocks s b f =
      after_writev-Ends fuel blocks s b (k.writev blocks s) f refl

  -- When `writev` would block, which the source means to try again, `sendBlocks` returns -1 behind that
  -- one call, whatever the fuel: the -1 taken as a `size_t` is larger than the length of the blocks.
  pub send_blocks-would_block :
      (fuel : ℕ) (blocks : List Text) (s s' : k.State)
      → length (flatten blocks) < 2 ^ 63
      → k.writev blocks s ≡ (send_failed would_block, s')
      → send_blocks k fuel blocks s ≡ some (minus_one, s')
  unfolding send_blocks
  send_blocks-would_block fuel blocks s s' b e =
      rw (send_blocks, e) (after_written-none fuel blocks s' b)

-- ===== src/Socket/SendTotal.antt =====
-- `sendBlock` ends, and hands the block over to the kernel once and in order.
use devscan.Base.{
  ℕ, zero, suc, ◌+◌, ◌-◌, ◌≤◌, ◌<◌, ◌≡◌, refl, ap, sym, ◌∙◌, Bool, ◌⊎◌, inl, inr, Option, some,
  ◌++◌, append_assoc, append-nil, length, length-drop, take, drop, drop-drop, take-take, ◌==◌,
  arith, Bool-cases,
}
use devscan.Base.Int.{ℤ, pos, minus_one}
use devscan.Base.Text.{Text}
use devscan.Socket.Kernel.{
  Kernel, IsStream, IsPatient, Sent, sent, send_failed, would_block, interrupted, other_error,
}
use devscan.Socket.Send.{send_round, send_loop, send_block}

module _ (k : Kernel) (law : IsStream k) (budget : k.State → ℕ) (patient : IsPatient k budget) where
  -- The kernel took the first `taken` bytes; if the result is the length, it took all of them, and its
  -- budget has not grown.
  pub record IsTaken (block : Text) (s : k.State) (out : ℤ × k.State) : Type 0 where
    pub taken : ℕ
    pub fits : taken ≤ length block
    pub handed_over : k.outgoing out.1 ≡ k.outgoing s ++ take taken block
    pub result :
        ((out.0 ≡ pos (length block)) × (taken ≡ length block) × (budget out.1 ≤ budget s))
        ⊎ (out.0 ≡ minus_one)

  module _ (more : Bool) (block : Text) (s0 : k.State) where
    -- What holds at the head of the loop: the first `done` bytes are handed over.
    record Head (left : Text) (s : k.State) : Type 0 where
      done : ℕ
      within : done ≤ length block
      left_is : left ≡ drop done block
      handed_over : k.outgoing s ≡ k.outgoing s0 ++ take done block
      patience : budget s ≤ budget s0

    abbrev Ends : Option (ℤ × k.State) → Type 0
    Ends o = (out : ℤ × k.State) × (o ≡ some out) × IsTaken block s0 out

    gives_up :
        (left : Text) (s s' : k.State)
        → Head left s
        → k.outgoing s' ≡ k.outgoing s
        → Ends (some (minus_one, s'))
    gives_up left s s' h e = (
      (minus_one, s'),
      refl,
      record {
        taken = h.done;
        fits = h.within;
        handed_over = e ∙ h.handed_over;
        result = inr refl;
      },
    )

    send_round-Ends :
        (fuel : ℕ) (continue : Text → k.State → Option (ℤ × k.State))
        → ((left : Text) (s : k.State)
            → Head left s
            → length left + budget s < fuel
            → Ends (continue left s))
        → (left : Text) (s : k.State) → Head left s
        → length left + budget s < suc fuel
        → (out : Sent × k.State) → k.send more left s ≡ out
        → Ends (send_round k continue left out)
    send_round-Ends fuel continue ih left s h f (sent zero, s') e =
        gives_up left s s' h (law.send_next more left s s' 0 e ∙ append-nil _)
    send_round-Ends fuel continue ih left s h f (sent (suc n), s') e =
        let fits : suc n ≤ length left = law.send_fits more left s s' (suc n) e in
        let spent : budget s' ≤ budget s =
          rw (sym (ap (λ o. o.1) e)) (patient.send_budget more left s) in
        let rest : length left ≡ length block - h.done =
          ap length h.left_is ∙ length-drop h.done block in
        ih (drop (suc n) left) s'
          (record {
            done = h.done + suc n;
            within = omega (arith, h.within);
            left_is = ap (drop (suc n)) h.left_is ∙ drop-drop h.done (suc n) block;
            handed_over =
                law.send_next more left s s' (suc n) e
                ∙ ap (λ t. t ++ take (suc n) left) h.handed_over
                ∙ append_assoc (k.outgoing s0) _ _
                ∙ ap (λ t. k.outgoing s0 ++ (take h.done block ++ take (suc n) t)) h.left_is
                ∙ ap (λ t. k.outgoing s0 ++ t) (take-take h.done (suc n) block);
            patience = omega (arith, h.patience);
          })
          (omega (arith, length-drop (suc n) left))
    send_round-Ends fuel continue ih left s h f (send_failed would_block, s') e =
        let same = law.poll_out_next s' ∙ law.send_failed_next more left s s' would_block e in
        let spent : budget s' ≤ budget s =
          rw (sym (ap (λ o. o.1) e)) (patient.send_budget more left s) in
        elim (Bool-cases (k.poll_out s').0) [
          | inl ready ↦
              rw (send_round, ready)
                (ih left (k.poll_out s').1
                  (record {
                    done = h.done;
                    within = h.within;
                    left_is = h.left_is;
                    handed_over = same ∙ h.handed_over;
                    patience = omega (arith, patient.poll_out_budget s' ready, h.patience);
                  })
                  (omega (arith, patient.poll_out_budget s' ready)))
          | inr failed ↦ rw (send_round, failed) (gives_up left s (k.poll_out s').1 h same)
        ]
    send_round-Ends fuel continue ih left s h f (send_failed interrupted, s') e =
        let spent : budget s' < budget s =
          rw (sym (ap (λ o. o.1) e)) (patient.interrupted_budget more left s (ap (λ o. o.0) e)) in
        ih left s'
          (record {
            done = h.done;
            within = h.within;
            left_is = h.left_is;
            handed_over = law.send_failed_next more left s s' interrupted e ∙ h.handed_over;
            patience = omega (arith, h.patience);
          })
          (omega arith)
    send_round-Ends fuel continue ih left s h f (send_failed other_error, s') e =
        gives_up left s s' h (law.send_failed_next more left s s' other_error e)

    send_loop-Ends :
        (fuel : ℕ) (left : Text) (s : k.State)
        → Head left s
        → length left + budget s < fuel
        → Ends (send_loop k fuel more (length block) left s)
    unfolding send_loop
    send_loop-Ends zero left s h f = absurd (omega arith)
    send_loop-Ends (suc fuel) left s h f = elim (Bool-cases (length left == 0)) [
      | inl gone ↦
          let rest : length left ≡ length block - h.done =
            ap length h.left_is ∙ length-drop h.done block in
          let none_left : length left ≡ 0 = ground (arith, gone) in
          rw (send_loop, gone)
            (
              (pos (length block), s),
              refl,
              record {
                taken = h.done;
                fits = h.within;
                handed_over = h.handed_over;
                result = inl (refl, omega (arith, h.within), h.patience);
              },
            )
      | inr more_left ↦
          rw (send_loop, more_left)
            (send_round-Ends fuel (send_loop k fuel more (length block)) (send_loop-Ends fuel) left
              s h f (k.send more left s) refl)
    ]

  -- With more fuel than the length of the block and the kernel's budget, `sendBlock` ends: the kernel
  -- has taken a first part of the block, once and in order; the result is the length of the block, and
  -- then all of it was taken and the budget has not grown, or -1.
  pub send_block-IsTaken :
      (fuel : ℕ) (block : Text) (more : Bool) (s : k.State)
      → length block + budget s < fuel
      → (out : ℤ × k.State) × (send_block k fuel block more s ≡ some out) × IsTaken block s out
  unfolding send_block
  send_block-IsTaken fuel block more s f =
      send_loop-Ends more block s fuel block s
        (record {
          done = 0;
          within = omega arith;
          left_is = refl;
          handed_over = sym (append-nil _);
          patience = omega arith;
        })
        f

-- ===== src/Socket/Rest.antt =====
-- What the loop of `sendBlocks` keeps: the blocks before are handed over whole, and of those that are
-- left the first bytes.
use devscan.Base.{
  ℕ, zero, suc, ◌+◌, ◌-◌, ◌^◌, ◌%◌, ◌≤◌, ◌<◌, ◌≡◌, refl, ap, sym, ◌∙◌, false, ◌⊎◌, inl, inr, Option,
  some, List, ◌∷◌, ◌++◌, append_assoc, append-nil, length, length-append, length-drop, take, drop,
  take-all, take-past, take-take, take-within, arith,
}
use devscan.Base.Int.{ℤ, pos, minus_one}
use devscan.Base.Text.{Text}
use devscan.Socket.Kernel.{Kernel, IsStream, IsPatient, flatten}
use devscan.Socket.Send.{send_block, after_block}
use devscan.Socket.SendTotal.{send_block-IsTaken}

module _ (k : Kernel) (law : IsStream k) (budget : k.State → ℕ) (patient : IsPatient k budget) where
  -- What holds in the loop of `sendBlocks`: behind `o`, the kernel has the first `extra` bytes of the
  -- blocks that are left.
  pub record Rest (o : Text) (extra : ℕ) (blocks : List Text) (s : k.State) : Type 0 where
    pub within : extra ≤ length (flatten blocks)
    pub handed_over : k.outgoing s ≡ o ++ take extra (flatten blocks)

  -- How the loop ends.
  pub record Ended (o : Text) (sum : ℕ) (blocks : List Text) (out : ℤ × k.State) : Type 0 where
    pub taken : ℕ
    pub fits : taken ≤ length (flatten blocks)
    pub handed_over : k.outgoing out.1 ≡ o ++ take taken (flatten blocks)
    pub result :
        ((out.0 ≡ pos (sum + length (flatten blocks))) × (taken ≡ length (flatten blocks)))
        ⊎ (out.0 ≡ minus_one)

  abbrev pub Ends : Text → ℕ → List Text → Option (ℤ × k.State) → Type 0
  Ends o sum blocks r = (out : ℤ × k.State) × (r ≡ some out) × Ended o sum blocks out

  -- A block that the kernel has whole is one of those before.
  pub Rest-pass :
      (o block : Text) (blocks : List Text) (extra : ℕ) (s : k.State)
      → length block ≤ extra
      → Rest o extra (block ∷ blocks) s
      → Rest (o ++ block) (extra - length block) blocks s
  Rest-pass o block blocks extra s l h =
      let e : extra ≡ (extra - length block) + length block = omega arith in
      record {
        within = omega (arith, h.within, length-append block (flatten blocks));
        handed_over =
            h.handed_over
            ∙ ap (λ n. o ++ take n (block ++ flatten blocks)) e
            ∙ ap (λ t. o ++ t) (take-past block (flatten blocks) (extra - length block))
            ∙ sym (append_assoc o block _);
      }

  pub Ended-pass :
      (o block : Text) (blocks : List Text) (sum : ℕ) (r : Option (ℤ × k.State))
      → Ends (o ++ block) (sum + length block) blocks r
      → Ends o sum (block ∷ blocks) r
  Ended-pass o block blocks sum r (out, e, h) = (
    out,
    e,
    record {
      taken = h.taken + length block;
      fits = omega (arith, h.fits, length-append block (flatten blocks));
      handed_over =
          h.handed_over
          ∙ append_assoc o block _
          ∙ ap (λ t. o ++ t) (sym (take-past block (flatten blocks) h.taken));
      result = elim h.result [
        | inl (r, all) ↦ inl (
          r ∙ ap pos (omega (arith, length-append block (flatten blocks))),
          omega (arith, all, length-append block (flatten blocks)),
        )
        | inr r ↦ inr r
      ];
    },
  )

  after_block-all :
      (continue : ℕ → k.State → Option (ℤ × k.State))
      → (w m : ℕ) (out : ℤ × k.State) → out.0 ≡ pos m
      → 0 < m
      → w + m < 2 ^ 64
      → after_block k continue w (some out) ≡ continue (w + m) out.1
  after_block-all continue w zero out e l b = absurd (omega arith)
  after_block-all continue w (suc m) (z, s) e l b =
      let whole : (w + suc m) % 2 ^ 64 ≡ w + suc m = omega arith in rw (e, whole)

  after_block-failed :
      (continue : ℕ → k.State → Option (ℤ × k.State))
      → (w : ℕ) (out : ℤ × k.State) → out.0 ≡ minus_one
      → after_block k continue w (some out) ≡ some (minus_one, out.1)
  after_block-failed continue w (z, s) e = rw e

  -- A block of which the kernel has the first `extra` bytes: the rest goes through `sendBlock`.
  pub after_block-Ends :
      (fuel : ℕ) (continue : ℕ → k.State → Option (ℤ × k.State))
      → (o block : Text) (blocks : List Text) (sum extra : ℕ) (s : k.State)
      → ((s' : k.State)
          → Rest (o ++ block) 0 blocks s'
          → budget s' ≤ budget s
          → Ends (o ++ block) (sum + length block) blocks (continue (sum + length block) s'))
      → extra < length block
      → Rest o extra (block ∷ blocks) s
      → sum + length (flatten (block ∷ blocks)) < 2 ^ 63
      → length block + budget s < fuel
      → Ends o sum
          (block ∷ blocks)
          (after_block k continue (sum + extra) (send_block k fuel (drop extra block) false s))
  after_block-Ends fuel continue o block blocks sum extra s ih l h b f =
      let short : length (drop extra block) + budget s < fuel =
        omega (arith, f, length-drop extra block) in
      let (out, e, t) =
        send_block-IsTaken k law budget patient fuel (drop extra block) false s short in
      let joined : k.outgoing out.1 ≡ o ++ take (extra + t.taken) block =
        t.handed_over
        ∙ ap (λ u. u ++ take t.taken (drop extra block)) h.handed_over
        ∙ append_assoc o _ _
        ∙ ap (λ u. o ++ (u ++ take t.taken (drop extra block)))
            (take-within extra block (flatten blocks) (omega arith))
        ∙ ap (λ u. o ++ u) (take-take extra t.taken block) in
      elim t.result [
        | inl (r, all, patience) ↦
            let filled : sum + extra + length (drop extra block) ≡ sum + length block =
              omega (arith, length-drop extra block) in
            let done : take (extra + t.taken) block ≡ block =
              take-all _ block (omega (arith, all, length-drop extra block)) in
            rw
              (
                e,
                after_block-all continue (sum + extra) (length (drop extra block)) out r
                    (omega (arith, length-drop extra block))
                    (omega
                      (arith, b, length-drop extra block, length-append block (flatten blocks))),
                filled,
              )
              (Ended-pass o block blocks sum _ (
                ih out.1
                  (record {
                    within = omega arith;
                    handed_over = joined ∙ ap (λ u. o ++ u) done ∙ sym (append-nil _);
                  })
                  patience))
        | inr r ↦
            rw (e, after_block-failed continue (sum + extra) out r)
              (
                (minus_one, out.1),
                refl,
                record {
                  taken = extra + t.taken;
                  fits = omega (
                    arith,
                    t.fits,
                    length-drop extra block,
                    length-append block (flatten blocks),
                  );
                  handed_over =
                      joined
                      ∙ ap (λ u. o ++ u)
                          (sym (
                            take-within (extra + t.taken) block (flatten blocks)
                              (omega (arith, t.fits, length-drop extra block))));
                  result = inr refl;
                },
              )
      ]

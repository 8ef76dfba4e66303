-- ===== src/Socket/RestTotal.antt =====
-- The loop of `sendBlocks` ends.
use devscan.Base.{
  ℕ, ◌+◌, ◌-◌, ◌^◌, ◌%◌, ◌≤◌, ◌<◌, ◌≡◌, refl, ap, ◌∙◌, false, inl, inr, some, List, [], ◌∷◌, ◌++◌,
  length, length-append, length-drop, take, drop, take-all, ltb, arith, Bool-cases,
}
use mathlib.Core.Path.{subst}
use devscan.Base.Int.{pos, minus_one}
use devscan.Base.Text.{Text}
use devscan.Socket.Kernel.{Kernel, IsStream, IsPatient, flatten}
use devscan.Socket.BufferedReader.{sub64}
use devscan.Socket.Send.{signed64, block_round, send_rest}
use devscan.Socket.Rest.{Rest, Ends, Rest-pass, Ended-pass, after_block-Ends}

pub signed64-pos : (n : ℕ) → n < 2 ^ 63 → signed64 n ≡ pos n
signed64-pos n f = ground (arith, f)

module _ (k : Kernel) (law : IsStream k) (budget : k.State → ℕ) (patient : IsPatient k budget) where
  send_rest-next :
      (fuel : ℕ) (block : Text) (blocks : List Text) (sum written : ℕ) (s : k.State)
      → sum + length (flatten (block ∷ blocks)) < 2 ^ 64
      → send_rest k fuel (block ∷ blocks) sum written s
        ≡ block_round k fuel (send_rest k fuel blocks) block (sum + length block) written s
  unfolding send_rest
  send_rest-next fuel block blocks sum written s b =
      let whole : (sum + length block) % 2 ^ 64 ≡ sum + length block =
        omega (arith, b, length-append block (flatten blocks)) in
      ap (λ n. block_round k fuel (send_rest k fuel blocks) block n written s) whole

  pub send_rest-Ends :
      (fuel : ℕ) (blocks : List Text) (o : Text) (sum extra : ℕ) (s : k.State)
      → Rest k law budget patient o extra blocks s
      → sum + length (flatten blocks) < 2 ^ 63
      → length (flatten blocks) + budget s < fuel
      → Ends k law budget patient o sum blocks (send_rest k fuel blocks sum (sum + extra) s)
  unfolding send_rest
  send_rest-Ends fuel [] o sum extra s h b f =
      let all : sum + extra ≡ sum + 0 = omega (arith, h.within) in
      rw (all, signed64-pos (sum + 0) b)
        (
          (pos (sum + 0), s),
          refl,
          record {
            taken = 0;
            fits = omega arith;
            handed_over = h.handed_over ∙ ap (λ t. o ++ t) (take-all extra [] (omega arith));
            result = inl (refl, refl);
          },
        )
  send_rest-Ends fuel (block ∷ blocks) o sum extra s h b f =
      let total : length (flatten (block ∷ blocks)) ≡ length block + length (flatten blocks) =
        length-append block (flatten blocks) in
      let next = send_rest-next fuel block blocks sum in
      let later : (extra' : ℕ) (s' : k.State)
          → Rest k law budget patient (o ++ block) extra' blocks s'
          → budget s' ≤ budget s
          → Ends k law budget patient (o ++ block) (sum + length block) blocks
              (send_rest k fuel blocks (sum + length block) (sum + length block + extra') s') =
        λ extra' s' h' p.
          send_rest-Ends fuel blocks (o ++ block) (sum + length block) extra' s' h'
            (omega (arith, b, total)) (omega (arith, f, total)) in
      elim (Bool-cases (ltb (sum + extra) (sum + length block))) [
        | inl within ↦
            let l : extra < length block = ground (arith, within) in
            let remaining : sub64 (sum + length block) (sum + extra) ≡ length block - extra =
              omega (arith, b, total, l) in
            let start : sub64 (length block) (length block - extra) ≡ extra =
              omega (arith, b, total, l) in
            let part : take (length block - extra) (drop extra block) ≡ drop extra block =
              take-all _ (drop extra block) (omega (arith, length-drop extra block)) in
            let same : sum + length block + 0 ≡ sum + length block = omega arith in
            rw
              (next (sum + extra) s (omega (arith, b)), block_round, within, remaining, start, part)
              (after_block-Ends k law budget patient fuel
                (send_rest k fuel blocks (sum + length block)) o block blocks sum extra s
                (λ s' h' p.
                  subst
                    (λ n.
                      Ends k law budget patient (o ++ block) (sum + length block) blocks
                        (send_rest k fuel blocks (sum + length block) n s'))
                    same (later 0 s' h' p))
                l h b (omega (arith, f, total)))
        | inr behind ↦
            let l : length block ≤ extra = ground (arith, behind) in
            let written : sum + extra ≡ sum + length block + (extra - length block) = omega arith in
            rw (next (sum + extra) s (omega (arith, b)), block_round, behind, written)
              (Ended-pass k law budget patient o block blocks sum _ (
                later (extra - length block) s
                  (Rest-pass k law budget patient o block blocks extra s l h) (omega arith)))
      ]

  pub send_rest-none :
      (fuel : ℕ) (blocks : List Text) (sum : ℕ) (s : k.State)
      → sum + length (flatten blocks) < 2 ^ 64
      → send_rest k fuel blocks sum (2 ^ 64 - 1) s ≡ some (minus_one, s)
  unfolding send_rest
  send_rest-none fuel [] sum s b = refl
  send_rest-none fuel (block ∷ blocks) sum s b =
      let total : length (flatten (block ∷ blocks)) ≡ length block + length (flatten blocks) =
        length-append block (flatten blocks) in
      let next = send_rest-next fuel block blocks sum in
      let behind : ltb (2 ^ 64 - 1) (sum + length block) ≡ false = ground (arith, b, total) in
      rw (next (2 ^ 64 - 1) s b, block_round, behind)
        (send_rest-none fuel blocks (sum + length block) s (omega (arith, b, total)))

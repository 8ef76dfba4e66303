-- ===== src/Command/Written.antt =====
-- What `executeCommand` with arguments of hbm/sys/executecommand.cpp writes to the child and returns.
use devscan.Base.{
  ◌⊎◌, ◌↔◌, ℕ, zero, suc, ◌+◌, ◌≤◌, ◌<◌, ◌≡◌, refl, ap, sym, ◌∙◌, Option, none, some, List, [], ◌∷◌,
  ◌++◌, append_assoc, append-nil, length, take, drop, length-drop, drop-drop, take-take,
  Option-cases, inl, inr, arith,
}
use devscan.Base.Int.{pos, minus_one}
use devscan.Base.Text.{Text}
use devscan.Command.Execute.{
  Processes, Forked, in_parent, Ended, exited, killed, returned, write_loop, execute_command_with,
  exit_result, parent, after_fork,
}
use devscan.Command.Output.{IsPiped}

module _ (p : Processes) (laws : IsPiped p) where
  open laws use {input}

  -- The loop ended since a `write` of what was left behind `n` bytes failed.
  abbrev pub Fails : ℕ → Text → ℕ → p.State → p.State → Type 0
  Fails fd bytes n s after =
      (s' : p.State) × (input s' ≡ input s ++ take n bytes)
      × ((p.write fd (drop n bytes) s').0 ≡ none)
      × ((p.write fd (drop n bytes) s').1 ≡ after)

  -- What the loop has written is a part of the data from its front; all of it, or a `write` has failed.
  abbrev pub IsWritten : ℕ → Text → p.State → p.State → Type 0
  IsWritten fd bytes s after =
      (n : ℕ) × (input after ≡ input s ++ take n bytes)
      × ((n ≡ length bytes) ⊎ ((n < length bytes) × Fails fd bytes n s after))

  -- `n` bytes were written by one call, and `k` by the later ones.
  append_written :
      (bytes : Text) (n k : ℕ) (s first after : p.State)
      → input first ≡ input s ++ take n bytes
      → input after ≡ input first ++ take k (drop n bytes)
      → input after ≡ input s ++ take (n + k) bytes
  append_written bytes n k s first after e h =
      h
      ∙ ap (λ t. t ++ take k (drop n bytes)) e
      ∙ append_assoc (input s) (take n bytes) (take k (drop n bytes))
      ∙ ap (λ t. input s ++ t) (take-take n k bytes)

  IsWritten-later :
      (fd : ℕ) (bytes : Text) (n : ℕ) (s first after : p.State)
      → n ≤ length bytes
      → input first ≡ input s ++ take n bytes
      → IsWritten fd (drop n bytes) first after
      → IsWritten fd bytes s after
  IsWritten-later fd bytes n s first after within e (k, written, inl all) =
      let size = length-drop n bytes in
      (n + k, append_written bytes n k s first after e written, inl (omega arith))
  IsWritten-later fd bytes n s first after within e (k, written, inr (less, (s', to, failed, is))) =
      let size = length-drop n bytes in
      (
        n + k,
        append_written bytes n k s first after e written,
        inr (
          omega arith,
          (
            s',
            append_written bytes n k s first s' e to,
            rw drop-drop at failed,
            rw drop-drop at is,
          ),
        ),
      )

  write_loop-IsWritten :
      (fuel fd : ℕ) (bytes : Text) (s : p.State)
      → length bytes < fuel
      → (after : p.State) × (write_loop p fuel fd bytes s ≡ some after) × IsWritten fd bytes s after
  unfolding write_loop
  write_loop-IsWritten zero fd bytes s h = elim h [ ]
  write_loop-IsWritten (suc fuel) fd [] s h = (s, refl, (0, sym (append-nil (input s)), inl refl))
  write_loop-IsWritten (suc fuel) fd (b ∷ bytes) s h =
      let wrote = p.write fd (b ∷ bytes) s in
      elim (Option-cases wrote.0) [
        | inl failed ↦ (
          wrote.1,
          rw (write_loop, failed),
          (
            0,
            laws.write_fails fd (b ∷ bytes) s failed ∙ sym (append-nil (input s)),
            inr (omega arith, (s, sym (append-nil (input s)), failed, refl)),
          ),
        )
        | inr (n, taken) ↦
            let (some_taken, within, first) = laws.write_next fd (b ∷ bytes) s n taken in
            let left = length-drop n (b ∷ bytes) in
            let (after, e, w) =
              write_loop-IsWritten fuel fd (drop n (b ∷ bytes)) wrote.1 (omega arith) in
            (
              after,
              rw (write_loop, taken) e,
              IsWritten-later fd (b ∷ bytes) n s wrote.1 after within first w,
            )
      ]

  exit_result_iff : (e : Ended) → (exit_result p e ≡ pos 0) ↔ (e ≡ exited 0)
  exit_result_iff (exited zero) = (λ h. refl, λ h. refl)
  exit_result_iff (exited (suc n)) = (λ h. cc, λ h. cc)
  exit_result_iff killed = (λ h. cc, λ h. cc)

  parent-written :
      (fuel pid : ℕ) (bytes : Text) (read_end write_end : ℕ) (s written : p.State)
      → write_loop p fuel write_end bytes (p.close read_end s) ≡ some written
      → parent p fuel pid bytes read_end write_end s
        ≡ some (
            returned
              (exit_result p (p.waitpid pid (p.close write_end written)).0)
              (p.waitpid pid (p.close write_end written)).1)
  parent-written fuel pid bytes read_end write_end s written e = rw (parent, e)

  -- In the parent, for every child, all data, and fuel beyond its length, the call returns: all of the
  -- data was written to the pipe, or a front part of it before a `write` of the rest failed. The result
  -- is that of `exit_result` for what `waitpid` says of the child, which is 0 exactly if the child exits
  -- with status 0; whether all of the data was written does not enter it.
  pub execute_command_with-IsWritten :
      (fuel : ℕ) (command : Text) (params : List Text) (bytes : Text) (s : p.State)
      (read_end write_end pid : ℕ)
      → length bytes < fuel
      → (p.pipe s).0 ≡ some (read_end, write_end)
      → (p.fork (p.pipe s).1).0 ≡ in_parent pid
      → (written : p.State) × IsWritten write_end bytes
          (p.close read_end (p.fork (p.pipe s).1).1)
          written
        × (execute_command_with p fuel command params bytes s
            ≡ some (
                returned
                  (exit_result p (p.waitpid pid (p.close write_end written)).0)
                  (p.waitpid pid (p.close write_end written)).1))
        × ((exit_result p (p.waitpid pid (p.close write_end written)).0 ≡ pos 0)
            ↔ ((p.waitpid pid (p.close write_end written)).0 ≡ exited 0))
  unfolding execute_command_with
  execute_command_with-IsWritten fuel command params bytes s read_end write_end pid h piped forked =
      let start = p.close read_end (p.fork (p.pipe s).1).1 in
      let (written, e, w) = write_loop-IsWritten fuel write_end bytes start h in
      (
        written,
        w,
        ap
              (λ (o : Option (ℕ × ℕ)). elim o [
                | none ↦ some (returned minus_one (p.pipe s).1)
                | some ends ↦
                    after_fork p fuel command params bytes ends.0 ends.1 (p.fork (p.pipe s).1)
              ])
              piped
            ∙ ap
                (λ (f : Forked).
                  after_fork p fuel command params bytes read_end write_end
                    (f, (p.fork (p.pipe s).1).1))
                forked
            ∙ parent-written fuel pid bytes read_end write_end (p.fork (p.pipe s).1).1 written e,
        exit_result_iff (p.waitpid pid (p.close write_end written)).0,
      )

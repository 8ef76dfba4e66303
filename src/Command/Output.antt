-- ===== src/Command/Output.antt =====
-- What `executeCommand` without arguments of hbm/sys/executecommand.cpp returns.
use devscan.Base.{ℕ, ◌≤◌, ◌<◌, ◌≡◌, none, some, [], ◌++◌, length, take}
use devscan.Base.Text.{Text}
use devscan.Command.Execute.{Processes}

-- `fread` gives the next bytes of the output, and none at its end only. `write` takes the first bytes of
-- what it is given, at least one, and passes them to the input of the child.
pub record IsPiped (p : Processes) : Type 0 where
  pub output : p.State → Text
  pub input : p.State → Text
  pub fread_next : (n : ℕ) (s : p.State) → output s ≡ (p.fread n s).0 ++ output (p.fread n s).1
  pub fread_ends : (n : ℕ) (s : p.State) → (p.fread n s).0 ≡ [] → output s ≡ []
  pub write_next :
      (fd : ℕ) (bytes : Text) (s : p.State) (n : ℕ)
      → (p.write fd bytes s).0 ≡ some n
      → (0 < n) × (n ≤ length bytes) × (input (p.write fd bytes s).1 ≡ input s ++ take n bytes)
  pub write_fails :
      (fd : ℕ) (bytes : Text) (s : p.State)
      → (p.write fd bytes s).0 ≡ none
      → input (p.write fd bytes s).1 ≡ input s

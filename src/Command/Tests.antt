-- ===== src/Command/Tests.antt =====
-- The theorems about commands at a process that takes two bytes a call, and its child.
use devscan.Base.{
  ◌↔◌, ℕ, zero, suc, ◌≤◌, ◌<◌, ◌≡◌, refl, true, Option, none, some, [], ◌∷◌, ◌++◌, length, take,
  arith,
}
use devscan.Base.Int.{pos}
use devscan.Base.Text.{Text, codes}
use devscan.Command.Execute.{
  Processes, in_parent, exited, returned, execute_command_with, exit_result,
}
use devscan.Command.Output.{IsPiped}
use devscan.Command.Written.{IsWritten, execute_command_with-IsWritten}

-- The output to come and the input that was passed.
data Child : Type 0 where
  child_of : Text → Text → Child

abbrev to_come : Child → Text
to_come (child_of o i) = o

abbrev passed : Child → Text
passed (child_of o i) = i

abbrev read_child : Child → Text × Child
read_child (child_of [] i) = ([], child_of [] i)
read_child (child_of (b ∷ o) i) = (b ∷ [], child_of o i)

abbrev write_child : Text → Child → Option ℕ × Child
write_child [] (child_of o i) = (none, child_of o i)
write_child (b ∷ bytes) (child_of o i) = (some 1, child_of o (i ++ b ∷ []))

abbrev processes : Processes
processes = record {
  State = Child;
  popen = λ c s. (true, s);
  fread = λ n s. read_child s;
  pclose = λ s. s;
  pipe = λ s. (some (5, 6), s);
  fork = λ s. (in_parent 100, s);
  close = λ fd s. s;
  write = λ fd bytes s. write_child bytes s;
  waitpid = λ pid s. (exited 0, s);
  dup_stdin = λ fd s. (true, s);
}

read_child-next : (s : Child) → to_come s ≡ (read_child s).0 ++ to_come (read_child s).1
read_child-next (child_of [] i) = refl
read_child-next (child_of (b ∷ o) i) = refl

read_child-ends : (s : Child) → (read_child s).0 ≡ [] → to_come s ≡ []
read_child-ends (child_of [] i) e = refl
read_child-ends (child_of (b ∷ o) i) e = cc

write_child-next :
    (bytes : Text) (s : Child) (n : ℕ)
    → (write_child bytes s).0 ≡ some n
    → (0 < n) × (n ≤ length bytes) × (passed (write_child bytes s).1 ≡ passed s ++ take n bytes)
write_child-next [] (child_of o i) n e = cc
write_child-next (b ∷ bytes) (child_of o i) zero e = ground arith
write_child-next (b ∷ bytes) (child_of o i) (suc zero) e = (omega arith, omega arith, refl)
write_child-next (b ∷ bytes) (child_of o i) (suc (suc n)) e = ground arith

write_child-fails :
    (bytes : Text) (s : Child)
    → (write_child bytes s).0 ≡ none
    → passed (write_child bytes s).1 ≡ passed s
write_child-fails [] (child_of o i) e = refl
write_child-fails (b ∷ bytes) (child_of o i) e = cc

abbrev processes_pipes : IsPiped processes
processes_pipes = record {
  output = to_come;
  input = passed;
  fread_next = λ n s. read_child-next s;
  fread_ends = λ n s e. read_child-ends s e;
  write_next = λ fd bytes s n e. write_child-next bytes s n e;
  write_fails = λ fd bytes s e. write_child-fails bytes s e;
}

abbrev talking : Child
talking = child_of (codes "eth0 up") []

execute_command_with-IsWritten_example :
    (written : Child) × IsWritten processes processes_pipes 6 (codes "in") talking written
    × (execute_command_with processes 3 (codes "/bin/cat") [] (codes "in") talking
        ≡ some (returned (exit_result processes (exited 0)) written))
    × ((exit_result processes (exited 0) ≡ pos 0) ↔ (exited 0 ≡ exited 0))
execute_command_with-IsWritten_example =
    execute_command_with-IsWritten processes processes_pipes 3 (codes "/bin/cat") [] (codes "in")
      talking 5 6 100 (omega arith) refl refl

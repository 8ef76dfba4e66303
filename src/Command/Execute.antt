-- ===== src/Command/Execute.antt =====
-- The two functions of hbm/sys/executecommand.cpp, without _STANDARD_HARDWARE. The calls of the system
-- are parameters; the loops run on fuel, `none` where it ends.
use devscan.Base.{
  ℕ, zero, suc, Bool, true, false, Option, none, some, List, [], ◌∷◌, ◌++◌, if◌then◌else◌, ◌==◌,
  drop,
}
use devscan.Base.Int.{ℤ, pos, minus_one}
use devscan.Base.Text.{Text}
use devscan.Result.{Result, ok, throw, std_exception}

-- What `fork` returns: -1, 0 in the child, or the child's id in the parent.
pub data Forked : Type 0 where
  fork_failed in_child : Forked
  in_parent : ℕ → Forked

-- `waitStatus`: whether the child exited, and with which status.
pub data Ended : Type 0 where
  exited : ℕ → Ended
  killed : Ended

pub record Processes : Type 1 where
  pub State : Type 0
  pub popen : Text → State → Bool × State
  -- at most so many bytes of the output
  pub fread : ℕ → State → Text × State
  pub pclose : State → State
  -- the read end and the write end
  pub pipe : State → Option (ℕ × ℕ) × State
  pub fork : State → Forked × State
  pub close : ℕ → State → State
  -- the number of bytes taken, or `none` for -1
  pub write : ℕ → Text → State → Option ℕ × State
  pub waitpid : ℕ → State → Ended × State
  -- whether `dup2` to the standard input succeeds
  pub dup_stdin : ℕ → State → Bool × State

-- What a process does after the call: it goes on with a result, or it has become another program (or
-- has exited, where `execve` fails).
pub data Outcome (p : Processes) : Type 0 where
  returned : ℤ → p.State → Outcome p
  replaced : List Text → p.State → Outcome p

abbrev pub chunk_size : ℕ
chunk_size = 1024

module _ (p : Processes) where
  -- `do fread ... while(true)`
  unfoldable pub read_loop : ℕ → Text → p.State → Option (Text × p.State)
  read_loop zero text s = none
  read_loop (suc fuel) text s =
      let got = p.fread chunk_size s in
      elim (got.0) [
        | [] ↦ some (text, got.1)
        | b ∷ bytes ↦ read_loop fuel (text ++ (b ∷ bytes)) got.1
      ]

  unfoldable pub execute_command : ℕ → Text → p.State → Option (Result (Text × p.State))
  unfolding read_loop
  execute_command fuel command s = elim ((p.popen command s).0) [
    | false ↦ some (throw std_exception)
    | true ↦ elim (read_loop fuel [] (p.popen command s).1) [
      | none ↦ none
      | some read ↦ some (ok (read.0, p.pclose read.1))
    ]
  ]

  -- `while(stdinDataSize)`
  unfoldable pub write_loop : ℕ → ℕ → Text → p.State → Option p.State
  write_loop zero fd bytes s = none
  write_loop (suc fuel) fd [] s = some s
  write_loop (suc fuel) fd (b ∷ bytes) s =
      let wrote = p.write fd (b ∷ bytes) s in
      elim (wrote.0) [
        | none ↦ some wrote.1
        | some n ↦ write_loop fuel fd (drop n (b ∷ bytes)) wrote.1
      ]

  abbrev pub exit_result : Ended → ℤ
  exit_result (exited zero) = pos 0
  exit_result (exited (suc status)) = minus_one
  exit_result killed = minus_one

  -- The child: the write end is closed, the standard input redirected unless it is the read end.
  abbrev pub child : Text → List Text → ℕ → ℕ → p.State → Outcome p
  child command params read_end write_end s =
      let closed = p.close write_end s in
      let redirected = p.dup_stdin read_end closed in
      if read_end == 0
      then replaced (command ∷ params) closed
      else if redirected.0
      then replaced (command ∷ params) redirected.1
      else returned minus_one redirected.1

  -- The parent.
  abbrev pub parent : ℕ → ℕ → Text → ℕ → ℕ → p.State → Option (Outcome p)
  parent fuel pid bytes read_end write_end s =
      elim (write_loop fuel write_end bytes (p.close read_end s)) [
        | none ↦ none
        | some written ↦
            let waited = p.waitpid pid (p.close write_end written) in
            some (returned (exit_result waited.0) waited.1)
      ]

  abbrev pub after_fork :
      ℕ → Text → List Text → Text → ℕ → ℕ → Forked × p.State → Option (Outcome p)
  after_fork fuel command params bytes read_end write_end (fork_failed, s) =
      some (returned minus_one s)
  after_fork fuel command params bytes read_end write_end (in_child, s) =
      some (child command params read_end write_end s)
  after_fork fuel command params bytes read_end write_end (in_parent pid, s) =
      parent fuel pid bytes read_end write_end s

  unfoldable pub execute_command_with : ℕ → Text → List Text → Text → p.State → Option (Outcome p)
  unfolding write_loop
  execute_command_with fuel command params bytes s =
      let made = p.pipe s in
      elim (made.0) [
        | none ↦ some (returned minus_one made.1)
        | some ends ↦ after_fork fuel command params bytes ends.0 ends.1 (p.fork made.1)
      ]

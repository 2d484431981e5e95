-- ===== src/Prober/Initiate.antt =====
-- InitiatePtrace of src/prober.cc.
pub mod Followed
use pyflame.Common.Int.{ℤ, pos, negsuc, int_eq, decimal_ℤ}
use pyflame.Common.{
  ℕ, zero, suc, ◌-◌, Text, codes, is_prefix, decimal, Option, none, some, Bool, true, false, not,
  List, [], ◌∷◌, ◌++◌, reverse, ltb, ◌==◌, if◌then◌else◌,
}
use pyflame.Exc.{State, Cmd, is_ptrace, pure, raise, stuck, no_fuel, ◌>>=◌, ◌>>◌, print_err, try}
use pyflame.Os.{Pid, Os, sys}
use pyflame.Prober.{Prober}
use pyflame.Ptrace.{
  wifexited, wexitstatus, saw_event_exec, ptrace_traceme, ptrace_set_options, ptrace_cont,
  ptrace_detach, ptrace_seize, ptrace_interrupt,
}

-- The calls that start a process. `fork` returns as fork(2) does, with `errno`; `execvp`, with the
-- file and the arguments, returns `errno` where it fails, and runs another program where it does not,
-- so that nothing behind it runs.
pub record Spawn (W : Type 0) : Type 0 where
  pub fork : W → (ℤ × ℕ) × W
  pub execvp : Text → List Text → W → ℕ × W

-- `EndsWith(value, ending)`
unfoldable pub ends_with : Text → Text → Bool
unfolding is_prefix
ends_with value ending = is_prefix (reverse ending) (reverse value)

abbrev pub trace_exec : ℕ
trace_exec = 16

-- In the child, where execvp(3) succeeded, another program runs; otherwise InitiatePtrace returns,
-- and leaves the object.
pub data Initiated (D : Type 0) : Type 0 where
  replaced : Initiated D
  returned : ℤ → Prober D → Initiated D

module _ {W : Type 0} (os : Os W) where
  -- `perror(name)`
  perror : Text → ℕ → Cmd W (Unit {0})
  perror name errno = print_err (name ++ (codes ": " ++ (os.strerror errno ++ codes "\n")))

  -- The loop until the event of execvp(3), with `fuel` tests at most; a return code leaves it.
  wait_exec : ℕ → ℕ → Cmd W (Option ℤ)
  wait_exec zero status = no_fuel
  wait_exec (suc fuel) status = if saw_event_exec status then pure none else (do
    r ← sys (os.waitpid (negsuc 0) 0)
    if int_eq r.progeny (negsuc 0)
        then perror (codes "waitpid()") r.errno >> pure (some (pos 1))
        else if wifexited r.status
        then print_err (
            codes "Child process exited with status: "
            ++ (decimal (wexitstatus r.status) ++ codes "\n"))
          >> pure (some (pos 1))
        else wait_exec fuel r.status)

module _ {W D : Type 0} (os : Os W) (spawn : Spawn W) (wait_fuel : ℕ) where
  -- The branch of the child; `args` is `argv + optind`.
  start_child : Prober D → List Text → Cmd W (Initiated D)
  start_child p args = do
    ptrace_traceme os
    errno ← sys (spawn.execvp p.trace_target args)
    if errno == 0 then pure replaced else (do
      print_err (
          codes "execvp() failed for: "
          ++ (p.trace_target ++ (codes ", err = " ++ (os.strerror errno ++ codes "\n"))))
      pure (returned (pos 1) p))

  -- The branch of the parent, with the last two lines.
  follow_child : ℕ → Prober D → Cmd W (Initiated D)
  follow_child fuel p = do
    child ← sys (os.waitpid (pos 0) 0)
    if not (int_eq child.progeny p.pid) then stuck else (do
      ptrace_set_options os p.pid trace_exec
      ptrace_cont os p.pid
      code ← wait_exec os fuel 0
      elim code [
        | some c ↦ pure (returned c p)
        | none ↦ do
          ptrace_detach os p.pid
          ptrace_seize os p.pid
          ptrace_interrupt os wait_fuel p.pid
          pure (returned (pos 0) p)
      ])

  -- The branch without -t, with the last two lines; whether PtraceSeize succeeded.
  seize_pid : Prober D → Cmd W Bool
  seize_pid p = try (ptrace_seize os p.pid >> pure true) λ e.
      if is_ptrace e
      then print_err (codes "Failed to seize PID " ++ (decimal_ℤ p.pid ++ codes "\n")) >> pure false
      else raise e

  pub initiate_ptrace : ℕ → Prober D → List Text → Cmd W (Initiated D)
  initiate_ptrace fuel p args =
      if p.trace
      then if ends_with p.trace_target (codes "pyflame")
        then print_err (codes "You tried to pyflame a pyflame, naughty!\n")
          >> pure (returned (pos 1) p)
        else (do
          r ← sys spawn.fork
          if int_eq r.0 (negsuc 0)
              then perror os (codes "fork()") r.1
                >> pure (returned (pos 1) (record p { pid = r.0 }))
              else if int_eq r.0 (pos 0)
              then start_child (record p { pid = r.0 }) args
              else follow_child fuel (record p { pid = r.0 }))
      else (do
        is_seized ← seize_pid p
        if is_seized
            then (do ptrace_interrupt os wait_fuel p.pid; pure (returned (pos 0) p))
            else pure (returned (pos 1) p))

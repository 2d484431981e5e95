-- ===== src/Main.antt =====
-- src/pyflame.cc: the order of the parts.
pub mod Dumped
use pyflame.Common.Int.{ℤ, pos, negsuc, int_eq}
use pyflame.Common.{ℕ, Text, Bool, not, Option, none, some, List, if◌then◌else◌}
use pyflame.Exc.{Cmd, pure, ◌>>=◌, ◌>>◌}
use pyflame.Frob.Layout.{Version}
use pyflame.Os.{Pid, Os}
use pyflame.Prober.Initiate.{Spawn, Initiated, replaced, returned, initiate_ptrace}
use pyflame.Posix.{Files}
use pyflame.Prober.Loop.{find_symbols, run}
use pyflame.Prober.Options.{Event, parse_opts}
use pyflame.Prober.Report.{Buckets}
use pyflame.Prober.{Doubles, Build, Prober, new_prober}
use pyflame.Ptrace.Call.{ptrace_cleanup}
use pyflame.PyFrob.{PyFrob, new_py_frob, detect_abi, frob_threads}
use pyflame.Symbol.Addresses.{PyAddresses}
use pyflame.Thread.{Thread}

-- `read` is the GetThreads of each ABI; `fuel` bounds each loop.
module _ {W D : Type 0} (os : Os W) (fl : Doubles D) (build : Build) (spawn : Spawn W)
    (files : Files W) (read : Version → Pid → PyAddresses → Bool → Cmd W (List Thread))
    (order : Buckets → Buckets) (page_size fuel : ℕ) where
  -- FindSymbols and Run.
  search_and_run : Prober D → PyFrob → Cmd W ℤ
  search_and_run p f = do
    found ← find_symbols os fuel p (detect_abi os files build page_size fuel) f
    if not (int_eq found.0 (pos 0))
        then pure (pos 1)
        else run os fl fuel p (frob_threads read found.1) order fuel

  -- From the construction of `frobber` to its destruction; an exception leaves `main`, and the
  -- destructor need not run.
  pub session : Prober D → Cmd W ℤ
  session p = do
    code ← search_and_run p (new_py_frob p.pid p.enable_threads)
    ptrace_cleanup os page_size fuel fuel p.pid
    pure code

  -- `none` is the child, where another program runs. `args` is `argv + optind`.
  pub main : List Text → List Event → ℕ → List Text → Cmd W (Option ℤ)
  main argv events last_optind args = do
    parsed ← parse_opts fl build argv events last_optind (new_prober fl)
    if not (int_eq parsed.0 (negsuc 0)) then pure (some parsed.0) else (do
      started ← initiate_ptrace os spawn fuel fuel parsed.1 args
      elim started [
        | replaced ↦ pure none
        | returned code p ↦
            if not (int_eq code (pos 0))
            then pure (some (pos 1))
            else (do result ← session p; pure (some result))
      ])

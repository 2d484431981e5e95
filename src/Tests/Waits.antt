-- ===== src/Tests/Waits.antt =====
-- The wait for a stop, at sequences of replies of waitpid(2).
use pyflame.Common.Int.{pos}
use pyflame.Common.{ℕ, Text, List, [], ◌∷◌, ◌≡◌, refl, arith}
use pyflame.Exc.{State, terminate_exception, ptrace_exception, ok, throw}
use pyflame.Os.{WaitReply}
use pyflame.Ptrace.Wait.{
  stop_status, Waits, answer, passed, killed, do_wait-stop, do_wait-exit, exited_with,
  do_wait-Unexpected,
}
use pyflame.Ptrace.{wifstopped, wstopsig, wifexited, wexitstatus, do_wait}
use pyflame.Tests.Sim.{World, sim}

abbrev reply : ℕ → WaitReply
reply status = record { progeny = pos 2; status = status; errno = 0 }

abbrev waiting : List WaitReply → State World
waiting replies = record {
  world = record { image = []; replies = replies };
  probe = 0;
  cout = [];
  cerr = [];
}

-- SIGCHLD, then the end of the process by `status`.
abbrev child_then : ℕ → State World
child_then status = waiting (reply (stop_status 17 0) ∷ reply status ∷ [])

computed : Unit {0}
unfolding wifstopped wstopsig wifexited wexitstatus
computed = tt

waits :
    (status : ℕ) → Waits sim (pos 2) 0 1 (child_then status).world (reply status) (waiting []).world
unfolding computed
waits status =
    passed (record { progeny = refl; stopped = refl; signal = refl }) refl refl refl
      (answer refl refl)

do_wait-stop_example :
    do_wait sim 2 (pos 2) 0 (child_then (stop_status 5 0)) ≡ ok (stop_status 5 0) (waiting [])
do_wait-stop_example =
    do_wait-stop sim (pos 2) 0 refl 2 1 (child_then (stop_status 5 0)) (waits (stop_status 5 0))
      (omega arith) (unfold computed in record { progeny = refl; stopped = refl; signal = refl })

do_wait-exit_example :
    do_wait sim 2 (pos 2) 0 (child_then 768)
    ≡ throw (terminate_exception (exited_with (pos 2) 3)) (waiting [])
do_wait-exit_example =
    do_wait-exit sim (pos 2) 0 refl 2 1 3 (child_then 768) (waits 768) (omega arith) refl refl
      (omega arith)

do_wait-Unexpected_example :
    (message : Text) × (do_wait sim 2 (pos 2) 0 (child_then 9)
      ≡ throw (ptrace_exception message) (waiting []))
do_wait-Unexpected_example =
    do_wait-Unexpected sim (pos 2) 0 refl 2 1 (child_then 9) (waits 9) (omega arith)
      (killed refl (unfold computed in refl) (unfold computed in refl))

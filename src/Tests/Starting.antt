-- ===== src/Tests/Starting.antt =====
-- The start of a command under -t: a first stop, one more stop, then the event of execvp(3).
use pyflame.Common.Int.{ℤ, pos}
use pyflame.Common.{ℕ, codes, true, List, [], ◌∷◌, ◌≡◌, refl, arith}
use pyflame.Exc.{State, ok}
use pyflame.Os.{WaitReply}
use pyflame.Prober.Initiate.Followed.{Reseized, Follows, other, exec, initiate_ptrace-Follows}
use pyflame.Prober.Initiate.{Spawn, ends_with, initiate_ptrace, returned}
use pyflame.Prober.{Prober, new_prober}
use pyflame.Ptrace.Wait.{stop_status, answer}
use pyflame.Ptrace.{wifstopped, wstopsig}
use pyflame.Tests.Sim.{World, sim}
use pyflame.Tests.Probing.{micro}

abbrev stop : ℕ → WaitReply
stop status = record { progeny = pos 2; status = status; errno = 0 }

abbrev after : List WaitReply → State World
after replies = record {
  world = record { image = []; replies = replies };
  probe = 0;
  cout = [];
  cerr = [];
}

abbrev first : WaitReply
first = stop (stop_status 19 0)

abbrev other_stop : WaitReply
other_stop = stop (stop_status 17 0)

abbrev exec_stop : WaitReply
exec_stop = stop (stop_status 5 4)

abbrev last : WaitReply
last = stop (stop_status 5 0)

abbrev spawn : Spawn World
spawn = record { fork = λ w. ((pos 2, 0), w); execvp = λ file args w. (0, w) }

abbrev tracer : Prober ℤ
tracer = record (new_prober micro) { trace = true; trace_target = codes "python" }

restarted : Reseized sim (pos 2) 0 (after (last ∷ [])).world (after []).world
unfolding wifstopped wstopsig
restarted = record {
  reply = last;
  detached = refl;
  seized = refl;
  interrupted = refl;
  waits = answer refl refl;
  stops = record { progeny = refl; stopped = refl; signal = refl };
}

follows :
    Follows sim (pos 2) 0 1 (after (other_stop ∷ exec_stop ∷ last ∷ [])).world 0 [] (after []).world
follows =
    other {signum = 17} {event = 0} refl refl refl refl (omega arith) (λ h. omega arith)
      (exec refl refl refl refl restarted)

initiate_ptrace-Follows_example :
    initiate_ptrace sim spawn 1 3 tracer [] (after (first ∷ other_stop ∷ exec_stop ∷ last ∷ []))
    ≡ ok (returned (pos 0) (record tracer { pid = pos 2 })) (after [])
unfolding new_prober
initiate_ptrace-Follows_example =
    initiate_ptrace-Follows sim spawn 1 3 1 0 0 [] tracer []
      (after (first ∷ other_stop ∷ exec_stop ∷ last ∷ [])) (after []).world refl
      (unfold ends_with codes in refl) refl refl refl refl refl follows (omega arith) (omega arith)

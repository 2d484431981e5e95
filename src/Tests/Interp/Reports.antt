-- ===== src/Tests/Interp/Reports.antt =====
-- The reports on the interpreter in memory.
use mathlib.Core.List.Permᴰ
use pyflame.Common.Int.{ℤ, pos}
use pyflame.Common.{true, some, [], ◌∷◌, ◌++◌, map, ◌≡◌, refl, arith}
use pyflame.Exc.Post.{Ends}
use pyflame.Exc.{ok}
use pyflame.Frob.Layout.{py26}
use pyflame.Frob.Threads.Untouched.{get_threads-untouched}
use pyflame.Frob.Threads.Walk.{by_thread}
use pyflame.Frob.Threads.{get_threads}
use pyflame.Prober.Loop.Dumped.{run-dumped}
use pyflame.Prober.Loop.Sampled.Clean.{Prints, read_threads, probe_loop-Prints}
use pyflame.Prober.Loop.{probe_loop, run}
use pyflame.Frame.Printed.{join}
use pyflame.Thread.Printed.{thread_text}
use pyflame.Prober.{Prober, new_prober}
use pyflame.PyFrob.{PyFrob, frob_threads}
use pyflame.Symbol.Addresses.{PyAddresses}
use pyflame.Tests.Interp.{layout, image, mem, s, addrs, computed, thread, threads}
use pyflame.Tests.Probing.{micro, prober}
use pyflame.Ptrace.Wait.{stop_status}
use pyflame.Exc.{State}
use pyflame.Tests.Sim.{World, sim, sim-Snapshot}

-- A thread state in the middle of an object.
abbrev wrong : PyAddresses
wrong = record addrs { tstate_addr = 0x6001 }

get_threads-untouched_example :
    Ends
      (Unit {0})
      (λ _ t. t ≡ s)
      (λ t. t ≡ s)
      (get_threads sim py26 layout 9 5 (pos 2) 3 wrong true s)
get_threads-untouched_example =
    get_threads-untouched sim py26 layout 9 5 (pos 2) mem s (sim-Snapshot image (pos 2)) 3 wrong
      true

abbrev frobber : PyFrob
frobber = record { pid = pos 2; addrs = addrs; enable_threads = true; get_threads = some py26 }

-- The process stops once more, and then exits.
abbrev living : State World
living = record s {
  world = record {
    image = image;
    replies =
        record { progeny = pos 2; status = stop_status 5 0; errno = 0 }
        ∷ record { progeny = pos 2; status = 0; errno = 0 }
        ∷ [];
  };
}

probe_loop-Prints_example :
    Prints sim micro 1 prober
      (frob_threads (read_threads sim micro 1 prober (λ v. layout) 3 9 5) frobber)
      (λ b. b)
      living
      (probe_loop sim micro 1 prober
        (frob_threads (read_threads sim micro 1 prober (λ v. layout) 3 9 5) frobber)
        (λ b. b)
        4
        living)
unfolding new_prober
probe_loop-Prints_example =
    probe_loop-Prints sim micro 1 prober (λ v. layout) 3 9 5 frobber (λ b. b) 4 living Permᴰ.refl
      refl

abbrev dumping : Prober ℤ
dumping = record prober { dump = true }

run-dumped_example :
    run sim micro 1 dumping
      (frob_threads (λ v pid a b. get_threads sim v layout 9 5 pid 3 a b) frobber)
      (λ b. b)
      4
      s
    ≡ ok (pos 0) (record s { cout = s.cout ++ join (b'\n' ∷ []) (map thread_text (thread ∷ [])) })
unfolding new_prober
run-dumped_example =
    run-dumped sim micro 1 dumping py26 layout 9 5 frobber s (sim-Snapshot image (pos 2)) (λ b. b) 4
      3 2 0x2000 0x3000 0x2000 (thread ∷ []) refl refl refl refl (unfold computed in refl)
      (by_thread refl (unfold computed in refl)) refl (unfold computed in refl) threads
      (omega arith)

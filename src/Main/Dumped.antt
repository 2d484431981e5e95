-- ===== src/Main/Dumped.antt =====
-- A session with --dump, from the search for the symbols to the destruction of the PyFrob.
use pyflame.Common.Int.{pos}
use pyflame.Common.{ℕ, ◌<◌, true, false, some, List, [], ◌∷◌, ◌++◌, map, ◌==◌, ◌≡◌}
use pyflame.Exc.{State, ok}
use pyflame.Frame.Printed.{join}
use pyflame.Frob.Layout.{Version, Layout}
use pyflame.Frob.Lines.Read.{Field}
use pyflame.Frob.Threads.Walk.{ThreadList, Known}
use pyflame.Frob.Threads.{get_threads}
use pyflame.Main.{search_and_run, session}
use pyflame.Os.{Os, Memory, Snapshot, word_of, detach}
use pyflame.Posix.{Files}
use pyflame.Prober.Initiate.{Spawn}
use pyflame.Prober.Loop.Dumped.{run-dumped}
use pyflame.Prober.Loop.{find_symbols}
use pyflame.Prober.Report.{Buckets}
use pyflame.Prober.{Doubles, Build, Prober}
use pyflame.Ptrace.Call.Restores.{ptrace_cleanup-unused}
use pyflame.PyFrob.{PyFrob, new_py_frob, detect_abi}
use pyflame.Thread.Printed.{thread_text}
use pyflame.Thread.{Thread}

module _ {W D : Type 0} (os : Os W) (fl : Doubles D) (build : Build) (spawn : Spawn W)
    (files : Files W) (order : Buckets → Buckets) (page_size fuel : ℕ) (p : Prober D) (v : Version)
    (l : Layout) (depth words : ℕ) (f : PyFrob) (s u : State W) {mem : Memory}
    (snap : Snapshot os f.pid u.world mem) where
  -- With --dump and --threads and without an output file, where FindSymbols returns 0 and leaves an
  -- object with the ABI and the addresses, and no page was allocated in the process, on a stopped
  -- process whose memory holds a list of `n` thread states, reached from the current thread state,
  -- from `interp_head` or from the hint, whose frame chains are no longer than `depth`, the part of
  -- `main` from the construction of the PyFrob on returns 0, has printed the threads that have a
  -- frame, in the order of the list, with an empty line between two, and has called PTRACE_DETACH
  -- last; more than `n` rounds are enough. The line of a frame is the one that it holds where a
  -- trace function is set, and otherwise that of a table of line steps that keeps the line in the
  -- range of `int`; its texts are string objects whose bytes end in a NUL, or compact ones of a
  -- known kind.
  pub session-dumped :
      (rounds n current istate head : ℕ) (ts : List Thread)
      → find_symbols os fuel p
          (detect_abi os files build page_size fuel)
          (new_py_frob p.pid p.enable_threads)
          s
        ≡ ok (pos 0, f) u
      → u.probe ≡ 0
      → p.dump ≡ true
      → p.output_file ≡ []
      → f.get_threads ≡ some v
      → f.enable_threads ≡ true
      → word_of 8 mem f.addrs.tstate_addr ≡ some current
      → Known l mem current f.addrs istate
      → istate == 0 ≡ false
      → Field mem istate l.tstate_head head
      → ThreadList v l mem depth words current n head ts
      → n < rounds
      → session os fl build spawn files
          (λ v' pid addrs threads. get_threads os v' l depth words pid rounds addrs threads)
          order
          page_size
          fuel
          p
          s
        ≡ ok (pos 0) (record u {
          world = (os.ptrace detach p.pid u.world).1;
          cout = u.cout ++ join (b'\n' ∷ []) (map thread_text ts);
        })
  unfolding session search_and_run
  session-dumped rounds n current istate head ts found unused dumps out is_v threads at known
        some_istate field list enough =
      let printed = record u { cout = u.cout ++ join (b'\n' ∷ []) (map thread_text ts) } in
      rw (
        found,
        run-dumped os fl fuel p v l depth words f u snap order fuel rounds n current istate head ts
            dumps out is_v threads at known some_istate field list enough,
        ptrace_cleanup-unused os p.pid page_size fuel fuel printed unused,
      )

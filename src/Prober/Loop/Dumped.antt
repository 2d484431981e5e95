-- ===== src/Prober/Loop/Dumped.antt =====
-- DumpStacks of src/prober.cc through Run, on the threads that GetThreads of src/frob.cc reads.
use pyflame.Common.Int.{pos}
use pyflame.Common.{
  ℕ, ◌<◌, Bool, true, false, Option, none, some, List, [], ◌∷◌, ◌++◌, map, ◌==◌, ◌≡◌, refl,
}
use pyflame.Exc.{State, Cmd, ok, stuck}
use pyflame.Frob.Layout.{Version, Layout}
use pyflame.Frob.Lines.Read.{Field}
use pyflame.Frob.Threads.Walk.{ThreadList, Known, get_threads-all}
use pyflame.Frob.Threads.{get_threads}
use pyflame.Os.{Os, Memory, Snapshot, word_of}
use pyflame.Prober.Loop.{print_threads, dump_stacks, output_to, run}
use pyflame.Frame.Printed.{join}
use pyflame.Thread.Printed.{thread_text, print_thread-thread_text}
use pyflame.Prober.Report.{Buckets}
use pyflame.Prober.{Doubles, Prober}
use pyflame.PyFrob.{PyFrob, frob_threads}
use pyflame.Thread.{Thread}

-- The threads are printed one behind the other, with an empty line between two.
print_threads-join : (ts : List Thread) → print_threads ts ≡ join (b'\n' ∷ []) (map thread_text ts)
unfolding print_threads join
print_threads-join [] = refl
print_threads-join (t ∷ []) = print_thread-thread_text t
print_threads-join (t ∷ u ∷ ts) = rw (print_threads-join (u ∷ ts), print_thread-thread_text t) refl

module _ {W D : Type 0} (os : Os W) (fl : Doubles D) (wait_fuel : ℕ) (p : Prober D)
    (get_threads : Cmd W (List Thread)) where
  run-dumping :
      (order : Buckets → Buckets) (fuel : ℕ) (ts : List Thread) (s : State W)
      → p.dump ≡ true
      → p.output_file ≡ []
      → get_threads s ≡ ok ts s
      → run os fl wait_fuel p get_threads order fuel s
        ≡ ok (pos 0) (record s { cout = s.cout ++ join (b'\n' ∷ []) (map thread_text ts) })
  unfolding run output_to dump_stacks
  run-dumping order fuel ts s dumps out read = rw (out, dumps, read, print_threads-join ts) refl

module _ {W D : Type 0} (os : Os W) (fl : Doubles D) (wait_fuel : ℕ) (p : Prober D) (v : Version)
    (l : Layout) (depth words : ℕ) (f : PyFrob) (s : State W) {mem : Memory}
    (snap : Snapshot os f.pid s.world mem) where
  -- With --dump and --threads and without an output file, on a stopped process whose memory holds a
  -- list of `n` thread states, reached from the current thread state, from `interp_head` or from
  -- the hint, whose frame chains are no longer than `depth`, Run on the GetThreads of the detected
  -- ABI returns 0 and prints the threads that have a frame, in the order of the list, with an empty
  -- line between two: for each its id, a `*` where it is the current one, a colon, and a line for
  -- each frame from the innermost, with file, name and line number, and changes nothing else; more
  -- than `n` rounds are enough. The line of a frame is the one that it holds where a trace function
  -- is set, and otherwise that of a table of line steps that keeps the line in the range of `int`;
  -- its texts are string objects whose bytes end in a NUL, or compact ones of a known kind.
  pub run-dumped :
      (order : Buckets → Buckets) (fuel rounds n current istate head : ℕ) (ts : List Thread)
      → p.dump ≡ true
      → p.output_file ≡ []
      → f.get_threads ≡ some v
      → f.enable_threads ≡ true
      → word_of 8 mem f.addrs.tstate_addr ≡ some current
      → Known l mem current f.addrs istate
      → istate == 0 ≡ false
      → Field mem istate l.tstate_head head
      → ThreadList v l mem depth words current n head ts
      → n < rounds
      → run os fl wait_fuel p
          (frob_threads
            (λ v' pid addrs threads. get_threads os v' l depth words pid rounds addrs threads)
            f)
          order
          fuel
          s
        ≡ ok (pos 0) (record s { cout = s.cout ++ join (b'\n' ∷ []) (map thread_text ts) })
  unfolding frob_threads
  run-dumped order fuel rounds n current istate head ts dumps out is_v threads at known some_istate
        field list enough =
      run-dumping os fl wait_fuel p _ order fuel ts s dumps out
        (read f.get_threads f.enable_threads is_v threads)
    where
      read :
          (o : Option Version) (b : Bool)
          → o ≡ some v
          → b ≡ true
          → (elim o as (λ _. Cmd W (List Thread)) [
            | none ↦ stuck
            | some v' ↦ get_threads os v' l depth words f.pid rounds f.addrs b
          ])
              s
            ≡ ok ts s
      read o b e h =
          rw (e, h)
            (get_threads-all os f.pid v l s snap depth words current f.addrs at rounds n istate head
              ts known some_istate field list enough)

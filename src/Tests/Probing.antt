-- ===== src/Tests/Probing.antt =====
-- The sampling loop, the reports and the options, at small inputs. The clock is the whole world of
-- the operating system here: sleeping moves it on, and each wait finds the process stopped.
use pyflame.Common.Int.{ℤ, pos, negsuc}
use pyflame.Common.{
  ℕ, ◌+◌, Text, codes, true, false, some, List, [], ◌∷◌, ◌≡◌, ◌↔◌, refl, arith, strtol, decimal,
  ◌-◌, ◌==◌, if◌then◌else◌,
}
use pyflame.Exc.Post.{Ensures}
use pyflame.Exc.{State, Cmd, ok, throw, out_of_fuel, ptrace_exception}
use pyflame.Frame.Equality.{places, frames_eq_iff}
use pyflame.Frame.{Frame, Frames, StdHash, frames_eq}
use pyflame.Os.{Os}
use pyflame.Prober.Loop.Ending.{Proceeds, returned, probe_loop-failing, probe_loop-ends}
use pyflame.Prober.Loop.Retries.{none_yet, failure, late, find_symbols-found, find_symbols-timeout}
use pyflame.Prober.Loop.{pause, probe_loop, find_symbols, nanoseconds}
use pyflame.Prober.Options.Accepted.{IsReady, parse_opts-IsReady}
use pyflame.Prober.Options.Pids.{IsPid, parse_pid-decimal, parse_pid-IsPid}
use pyflame.Prober.Options.{
  Event, pid, parse_pid, parse_opts, parse_events, parse_event, finish_attach,
}
use pyflame.Prober.Report.Buckets.{IsDistinct, counted, sampled, fill_buckets-sampled}
use pyflame.Prober.Report.{FrameTs, fill_buckets}
use pyflame.Prober.{Doubles, Build, Prober, new_prober}
use pyflame.Ptrace.Wait.{stop_status}
use pyflame.Ptrace.{do_wait, ptrace_cont, ptrace_interrupt, request, wifstopped, wstopsig}
use pyflame.Symbol.Addresses.{PyAbi}
use pyflame.Tests.Sim.{success}
use pyflame.Thread.{Thread}

abbrev pub ticks : Os ℕ
ticks = record {
  ptrace = λ request pid w. (success, w);
  waitpid = λ pid options w. (record { progeny = pid; status = stop_status 5 0; errno = 0 }, w);
  raise_signal = λ signum w. w;
  getpid = λ w. pos 1;
  strerror = λ errno. [];
  now = λ w. (w, w);
  sleep_for = λ ns w. w + ns;
  open_output = λ path w. (true, w);
  write_output = λ path t w. w;
  list_task = λ pid w. some [];
}

-- Numbers of microseconds as the type `double`.
abbrev pub micro : Doubles ℤ
micro = record {
  one = pos 1000000;
  hundredth = pos 10000;
  minus_one = negsuc 999999;
  stod = λ t. some (strtol t);
  to_microseconds = λ d. d;
  is_nonneg = λ d. elim d [ pos n ↦ true | negsuc n ↦ false ];
}

abbrev pub prober : Prober ℤ
prober = record (new_prober micro) { pid = pos 2; interval = pos 10000; seconds = pos 20000 }

abbrev pub start : State ℕ
start = record { world = 5; probe = 0; cout = []; cerr = [] }

abbrev pub main_frame : Frame
main_frame = record { file = codes "a.py"; name = codes "main"; line = 3 }

abbrev leaf_frame : Frame
leaf_frame = record { file = codes "a.py"; name = codes "leaf"; line = 7 }

-- `leaf_frame` by another name.
abbrev same_frame : Frame
same_frame = record { file = codes "a.py"; name = codes "f"; line = 7 }

abbrev sampled_stacks : List FrameTs
sampled_stacks =
    record { ts = 0; frames = leaf_frame ∷ main_frame ∷ [] }
    ∷ record { ts = 1; frames = main_frame ∷ [] }
    ∷ record { ts = 2; frames = same_frame ∷ main_frame ∷ [] }
    ∷ []

computed : Unit {0}
unfolding request frames_eq new_prober pause ptrace_cont ptrace_interrupt do_wait nanoseconds
    wifstopped wstopsig
computed = tt

abbrev unreadable : Cmd ℕ (List Thread)
unreadable u = throw (ptrace_exception (codes "gone")) u

probe_loop-failing_example :
    probe_loop ticks micro 1 prober unreadable (λ b. b) 5 start ≡ out_of_fuel
probe_loop-failing_example =
    probe_loop-failing ticks micro 1 prober unreadable (λ b. b) 5 start
      (λ u. (codes "gone", u, refl))

abbrev sleeping : Cmd ℕ (List Thread)
sleeping u = ok (record { id = 7; is_current = true; frames = main_frame ∷ [] } ∷ []) u

paused : (u : State ℕ) → pause ticks 1 prober u ≡ ok tt (record u { world = u.world + 10000000 })
unfolding computed
paused u = refl

rests : (u : State ℕ) → Proceeds ticks micro 1 prober sleeping (λ w. w) 1 u (pause ticks 1 prober u)
unfolding computed
rests u = returned tt (record u { world = u.world + 10000000 }) (paused u) (omega arith)

probe_loop-ends_example :
    (r : ℤ × Text) × (t : State ℕ) × (probe_loop ticks micro 1 prober sleeping
        (λ b. b)
        20000001
        start
      ≡ ok r t)
probe_loop-ends_example =
    probe_loop-ends ticks micro 1 prober sleeping (λ w. w) 10000 refl
      (record { value = λ w. refl; later = λ w. omega arith })
      (λ u. returned _ u refl (omega arith)) rests (λ b. b) 20000001 start refl
      (unfold computed in omega arith)

fill_buckets-sampled_example :
    IsDistinct (fill_buckets [] sampled_stacks)
    × ((q : Frames) → counted q (fill_buckets [] sampled_stacks) ≡ sampled q sampled_stacks)
fill_buckets-sampled_example = fill_buckets-sampled sampled_stacks

frames_eq_iff_example :
    (frames_eq (leaf_frame ∷ []) (same_frame ∷ []) ≡ true)
    ↔ (places (leaf_frame ∷ []) ≡ places (same_frame ∷ []))
frames_eq_iff_example = frames_eq_iff (leaf_frame ∷ []) (same_frame ∷ [])

abbrev std : StdHash
std = record { hash_size = λ n. n + 1; hash_text = λ t. elim t [ [] ↦ 0 | c ∷ cs ↦ c ] }

parse_pid-decimal_example : parse_pid (decimal 1234) start ≡ ok (pos 1234) start
parse_pid-decimal_example = parse_pid-decimal 1234 start (omega arith) (omega arith)

parse_pid-IsPid_example : Ensures IsPid (parse_pid (codes "12x") start)
parse_pid-IsPid_example = parse_pid-IsPid (codes "12x") start

abbrev argv : List Text
argv = codes "pyflame" ∷ codes "-p" ∷ decimal 42 ∷ []

abbrev pub build : Build
build = record { version = codes "1.6.7"; abis = 26 ∷ 34 ∷ [] }

abbrev event : Event
event = record { flag = pid; optarg = decimal 42; optind = 3 }

abbrev parsed_prober : Prober ℤ
parsed_prober = record (new_prober micro) { pid = pos 42; interval = pos 10000 }

parses :
    parse_opts micro build argv (event ∷ []) 3 (new_prober micro) start
    ≡ ok (negsuc 0, parsed_prober) start
unfolding parse_opts parse_events parse_event finish_attach new_prober
parses = rw (parse_pid-decimal 42 start (omega arith) (omega arith))

parse_opts-IsReady_example :
    IsReady argv (record (new_prober micro) { pid = pos 42; interval = pos 10000 })
parse_opts-IsReady_example =
    parse_opts-IsReady micro build argv (event ∷ []) 3 (new_prober micro) parsed_prober start start
      (unfold computed in refl) (unfold computed in refl) parses

-- A search that succeeds when the count is 0.
abbrev countdown : PyAbi → ℕ → Cmd ℕ (ℤ × ℕ)
countdown abi n u = ok (if n == 0 then pos 0 else pos 1, n - 1) u

abbrev tracing : Prober ℤ
tracing = record prober { trace = true }

find_symbols-found_example :
    find_symbols ticks 1 tracing countdown 1 start
    ≡ ok (pos 0, 0) (record start { world = 10000005 })
find_symbols-found_example =
    find_symbols-found ticks 1 tracing countdown 1 start (record start { world = 10000005 })
      (record start { world = 10000005 }) 1 0 0
      (failure {u = start} {v = record start { world = 10000005 }} (pos 1) refl refl
        (unfold computed in paused start) none_yet)
      (omega arith) refl

find_symbols-timeout_example :
    find_symbols ticks 1 prober countdown 3 start ≡ ok (pos 1, 2) (record start { cerr = late })
find_symbols-timeout_example =
    find_symbols-timeout ticks 1 prober countdown 0 start start start 3 3 2 (pos 1) none_yet
      (unfold computed in refl) refl refl

-- ===== src/Prober/Loop.antt =====
-- ProbeLoop, DumpStacks, Run and FindSymbols of src/prober.cc.
pub mod Ending
pub mod Retries
pub mod Dumped
pub mod Sampled
use pyflame.Common.Int.{ℤ, pos, negsuc, int_eq}
use pyflame.Common.{
  ℕ, zero, suc, ◌+◌, ◌*◌, Text, codes, Bool, true, false, not, ◌&&◌, ◌||◌, List, [], ◌∷◌, ◌++◌, map,
  leb, ◌==◌, if◌then◌else◌,
}
use pyflame.Exc.{
  Exception, terminate_exception, fatal_exception, symbol_exception, ptrace_exception,
  generic_exception, what, is_fatal, Cmd, pure, raise, no_fuel, ◌>>=◌, ◌>>◌, print_out, print_err,
  try,
}
use pyflame.Frame.{Frame}
use pyflame.Os.{Os, sys}
use pyflame.Prober.Report.{FrameTs, Buckets, no_stacks, print_frames, print_frames_ts}
use pyflame.Prober.{Doubles, Prober}
use pyflame.Ptrace.{ptrace_cont, ptrace_interrupt}
use pyflame.Symbol.Addresses.{PyAbi}
use pyflame.Thread.{Thread, newline, print_thread}

-- The variables of ProbeLoop.
pub record Samples : Type 0 where
  pub call_stacks : List FrameTs
  pub idle_count : ℕ
  pub failed_count : ℕ

abbrev pub no_samples : Samples
no_samples = record { call_stacks = []; idle_count = 0; failed_count = 0 }

-- A statement of the `try` block ends, or an exception leaves it.
pub data Caught (A : Type 0) : Type 0 where
  normal : A → Caught A
  caught : Exception → Caught A

abbrev pub attempt : {W A : Type 0} → Cmd W A → Cmd W (Caught A)
attempt c = try (do a ← c; pure (normal a)) (λ e. pure (caught e))

-- A handler goes round again, or leaves the loop with a return code.
pub data Handled : Type 0 where
  again : Samples → Handled
  finish : ℤ → Samples → Handled

-- Nanoseconds of a number of microseconds; a negative time to sleep is none, and a negative time to
-- run for is not looked at.
unfoldable pub nanoseconds : ℤ → ℕ
nanoseconds (pos n) = n * 1000
nanoseconds (negsuc n) = 0

-- `now + interval_ >= end`
unfoldable pub reaches : ℤ → ℕ → ℕ → Bool
reaches (pos n) now end = leb end (now + n * 1000)
reaches (negsuc n) now end = leb (end + suc n * 1000) now

-- The stack that stands for a failed sample.
unfoldable pub failed_frame : Text → Frame
failed_frame message = record { file = codes "(failed)"; name = message; line = 0 }

module _ {D : Type 0} (p : Prober D) where
  -- The part of the `try` block up to the test of the end.
  unfoldable pub record_threads : ℕ → List Thread → Samples → Samples
  record_threads now [] samples =
      if p.include_idle
      then record samples {
        idle_count = samples.idle_count + 1;
        call_stacks =
            if p.include_ts
            then samples.call_stacks ++ (record { ts = now; frames = [] } ∷ [])
            else samples.call_stacks;
      }
      else samples
  record_threads now (t ∷ threads) samples = record samples {
    call_stacks =
        samples.call_stacks
        ++ map (λ (u : Thread). record { ts = now; frames = u.frames }) (t ∷ threads);
  }

  unfoldable pub record_failure : ℕ → Text → Samples → Samples
  record_failure now message samples = record samples {
    failed_count = samples.failed_count + 1;
    call_stacks =
        if p.include_ts
        then samples.call_stacks ++ (record { ts = now; frames = failed_frame message ∷ [] } ∷ [])
        else samples.call_stacks;
  }

  -- The three handlers.
  handle : {W : Type 0} → ℕ → Samples → Exception → Cmd W Handled
  handle now samples e = elim e [
    | terminate_exception t ↦ pure (finish (pos 0) samples)
    | ptrace_exception t ↦ do
      print_err (codes "Unexpected ptrace(2) exception: " ++ (t ++ codes "\n"))
      pure (again (record_failure now t samples))
    | other ↦ do
      print_err (codes "Unexpected generic exception: " ++ (what other ++ codes "\n"))
      pure (finish (pos 1) samples)
  ]

  -- What is printed behind `finish`.
  unfoldable pub report : (Buckets → Buckets) → Samples → Text × Text
  report order samples =
      if no_stacks samples.call_stacks && samples.idle_count == 0 && samples.failed_count == 0
      then ([], [])
      else if p.include_ts
      then (print_frames_ts samples.call_stacks p.include_line_number, [])
      else print_frames order samples.call_stacks samples.idle_count samples.failed_count
          p.include_line_number

-- The loop of DumpStacks.
print_threads : List Thread → Text
print_threads [] = []
print_threads (t ∷ []) = print_thread t
print_threads (t ∷ u ∷ threads) = print_thread t ++ (newline ∷ print_threads (u ∷ threads))

-- The three statements by which ProbeLoop and FindSymbols let the process run for an interval.
unfoldable pub pause : {W D : Type 0} → Os W → ℕ → Prober D → Cmd W (Unit {0})
pause os wait_fuel p = do
  ptrace_cont os p.pid
  sys (λ w. (tt, os.sleep_for (nanoseconds p.interval) w))
  ptrace_interrupt os wait_fuel p.pid

module _ {W D : Type 0} (os : Os W) (fl : Doubles D) (wait_fuel : ℕ) (p : Prober D)
    (get_threads : Cmd W (List Thread)) where
  -- One round, from `now` on; `check_end` and `end` are those of the loop.
  probe : Bool → ℕ → Samples → Cmd W Handled
  probe check_end end samples = do
    now ← sys os.now
    threads ← attempt get_threads
    elim threads [
      | caught e ↦ handle p now samples e
      | normal ts ↦
          if check_end && reaches p.interval now end
          then pure (finish (pos 0) (record_threads p now ts samples))
          else (do
            r ← attempt (pause os wait_fuel p)
            elim r [
              | normal _ ↦ pure (again (record_threads p now ts samples))
              | caught e ↦ handle p now (record_threads p now ts samples) e
            ])
    ]

  probe_rounds : ℕ → Bool → ℕ → Samples → Cmd W (ℤ × Samples)
  probe_rounds zero check_end end samples = no_fuel
  probe_rounds (suc fuel) check_end end samples = do
    r ← probe check_end end samples
    elim r [
      | again samples' ↦ probe_rounds fuel check_end end samples'
      | finish code samples' ↦ pure (code, samples')
    ]

  -- The return code and what is written to `out`.
  pub probe_loop : (Buckets → Buckets) → ℕ → Cmd W (ℤ × Text)
  probe_loop order fuel = do
    start ← sys os.now
    r ←
        probe_rounds fuel (fl.is_nonneg p.seconds)
          (start + nanoseconds (fl.to_microseconds p.seconds)) no_samples
    let printed = report p order r.1
    print_err printed.1
    pure (r.0, printed.0)

  pub dump_stacks : Cmd W (ℤ × Text)
  dump_stacks = do threads ← get_threads; pure (pos 0, print_threads threads)

  -- The body of Run with the stream chosen; an exception of DumpStacks leaves nothing written.
  output_to : (Text → Cmd W (Unit {0})) → (Buckets → Buckets) → ℕ → Cmd W ℤ
  output_to write order fuel = do
    r ← (if p.dump then dump_stacks else probe_loop order fuel)
    write r.1
    pure r.0

  pub run : (Buckets → Buckets) → ℕ → Cmd W ℤ
  run order fuel = elim p.output_file [
    | [] ↦ output_to print_out order fuel
    | c ∷ cs ↦ do
      is_open ← sys (os.open_output p.output_file)
      if is_open
          then output_to (λ t. sys (λ w. (tt, os.write_output p.output_file t w))) order fuel
          else print_err (codes "cannot open file \"" ++ (p.output_file ++ codes "\" as output\n"))
            >> pure (pos 1)
  ]

-- MAX_TRACE_RETRIES and MAX_ATTACH_RETRIES
abbrev pub max_retries : {D : Type 0} → Prober D → ℕ
max_retries p = if p.trace then 50 else 1

-- `F` is the state of a `PyFrob`, and `detect` its DetectABI.
module _ {W D F : Type 0} (os : Os W) (wait_fuel : ℕ) (p : Prober D)
    (detect : PyAbi → F → Cmd W (ℤ × F)) where
  -- The loop, with `left` calls of DetectABI left. The first clause is out of reach, since there is
  -- at least one.
  unfoldable pub find_rounds : ℕ → F → Cmd W (ℤ × F)
  find_rounds zero frobber = no_fuel
  find_rounds (suc left) frobber = do
    r ← detect p.abi frobber
    if int_eq r.0 (pos 0)
        then pure (pos 0, r.1)
        else if left == 0
        then print_err (codes "Failed to locate libpython within timeout period.\n")
          >> pure (pos 1, r.1)
        else pause os wait_fuel p >> find_rounds left r.1

  -- The `frobber` of a failed search is not used again.
  unfoldable pub find_symbols : F → Cmd W (ℤ × F)
  find_symbols frobber = try (find_rounds (max_retries p) frobber) λ e.
      if is_fatal e then (do print_err (what e ++ codes "\n"); pure (pos 1, frobber)) else raise e

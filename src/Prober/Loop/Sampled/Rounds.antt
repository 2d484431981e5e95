-- ===== src/Prober/Loop/Sampled/Rounds.antt =====
-- What ProbeLoop of src/prober.cc returns and prints, from what its rounds do.
use pyflame.Common.Int.{ℤ, pos}
use pyflame.Common.{
  ℕ, zero, suc, ◌+◌, ◌<◌, Text, Bool, true, false, ◌&&◌, Option, none, some, List, [], ◌∷◌, ◌≡◌,
  codes, ◌++◌, arith, length,
}
use pyflame.Exc.{
  State, Exception, ptrace_exception, terminate_exception, fatal_exception, symbol_exception,
  generic_exception, what, Cmd, Run, ok, throw,
}
use pyflame.Os.{Os}
use pyflame.Prober.Loop.Sampled.{
  Event, seen, failure, tally, combine, combine-no_samples, combine-seen, combine-failure,
  combine-nil,
}
use pyflame.Prober.Loop.{
  Samples, finish, nanoseconds, reaches, record_threads, record_failure, handle, pause, probe,
  probe_rounds, no_samples, report, probe_loop,
}
use pyflame.Prober.Report.{Buckets}
use pyflame.Prober.{Doubles, Prober}
use pyflame.Thread.{Thread}

-- How an exception leaves the loop: the return code, and the state with what was written to
-- `std::cerr`.
abbrev pub leaves : {W : Type 0} → Exception → State W → Option (ℤ × State W)
leaves (terminate_exception m) u = some (pos 0, u)
leaves (ptrace_exception m) u = none
leaves other u = some (
  pos 1,
  record u {
    cerr = u.cerr ++ (codes "Unexpected generic exception: " ++ (what other ++ codes "\n"));
  },
)

-- The state behind a PtraceException.
abbrev pub warned : {W : Type 0} → Text → State W → State W
warned m u = record u {
  cerr = u.cerr ++ (codes "Unexpected ptrace(2) exception: " ++ (m ++ codes "\n"));
}

module _ {W D : Type 0} (os : Os W) (fl : Doubles D) (wait_fuel : ℕ) (p : Prober D)
    (get_threads : Cmd W (List Thread)) (check_end : Bool) (end : ℕ) where
  -- The time at which a round begins, and the state behind the look at the clock.
  abbrev pub clock : State W → ℕ
  clock s = (os.now s.world).0

  abbrev pub ticked : State W → State W
  ticked s = record s { world = (os.now s.world).1 }

  abbrev pub is_over : State W → Bool
  is_over s = check_end && reaches p.interval (clock s) end

  -- The rounds of a loop that starts in the first state and is left in the last, with the code that
  -- it is left with and what was sampled.
  pub data Rounds : State W → ℤ → List Event → State W → Type 0 where
    -- Threads, and a pause.
    sampled :
        {s u v t : State W} {code : ℤ} {es : List Event} (ts : List Thread)
        → get_threads (ticked s) ≡ ok ts u
        → is_over s ≡ false
        → pause os wait_fuel p u ≡ ok tt v
        → Rounds v code es t
        → Rounds s code (seen (clock s) ts ∷ es) t
    -- No threads, or no pause, by a PtraceException.
    unread :
        {s u t : State W} {code : ℤ} {es : List Event} (m : Text)
        → get_threads (ticked s) ≡ throw (ptrace_exception m) u
        → Rounds (warned m u) code es t
        → Rounds s code (failure (clock s) m ∷ es) t
    unpaused :
        {s u v t : State W} {code : ℤ} {es : List Event} (ts : List Thread) (m : Text)
        → get_threads (ticked s) ≡ ok ts u
        → is_over s ≡ false
        → pause os wait_fuel p u ≡ throw (ptrace_exception m) v
        → Rounds (warned m v) code es t
        → Rounds s code (seen (clock s) ts ∷ failure (clock s) m ∷ es) t
    -- Threads, and the end of the time.
    timed_out :
        {s u : State W} (ts : List Thread)
        → get_threads (ticked s) ≡ ok ts u
        → is_over s ≡ true
        → Rounds s (pos 0) (seen (clock s) ts ∷ []) u
    -- Another exception.
    left :
        {s u t : State W} {code : ℤ} (e : Exception)
        → get_threads (ticked s) ≡ throw e u
        → leaves e u ≡ some (code, t)
        → Rounds s code [] t
    left_later :
        {s u v t : State W} {code : ℤ} (ts : List Thread) (e : Exception)
        → get_threads (ticked s) ≡ ok ts u
        → is_over s ≡ false
        → pause os wait_fuel p u ≡ throw e v
        → leaves e v ≡ some (code, t)
        → Rounds s code (seen (clock s) ts ∷ []) t

  handle-leaves :
      (now : ℕ) (samples : Samples) (e : Exception) (u : State W) (code : ℤ) (t : State W)
      → leaves e u ≡ some (code, t)
      → handle p now samples e u ≡ ok (finish code samples) t
  unfolding handle
  handle-leaves now samples (terminate_exception m) u code t h = ground arith
  handle-leaves now samples (fatal_exception m) u code t h = ground arith
  handle-leaves now samples (symbol_exception m) u code t h = ground arith
  handle-leaves now samples (generic_exception m) u code t h = ground arith
  handle-leaves now samples (ptrace_exception m) u code t h = cc

  probe_rounds-Rounds :
      (fuel : ℕ) (samples : Samples) (s : State W) (code : ℤ) (es : List Event) (t : State W)
      → Rounds s code es t
      → length es < fuel
      → probe_rounds os fl wait_fuel p get_threads fuel check_end end samples s
        ≡ ok (code, combine p samples es) t
  unfolding probe_rounds probe handle
  probe_rounds-Rounds zero samples s code es t r enough = absurd (omega arith)
  probe_rounds-Rounds (suc fuel) samples s code _ t (sampled {v} {es} ts g o z rest) enough =
      rw (g, o, z)
        (rw (← combine-seen p (clock s) ts samples es) (
          probe_rounds-Rounds fuel (record_threads p (clock s) ts samples) v code es t rest
            (omega arith)))
  probe_rounds-Rounds (suc fuel) samples s code _ t (unread {u} {es} m g rest) enough = rw g (
      rw (← combine-failure p (clock s) m samples es) (
        probe_rounds-Rounds fuel (record_failure p (clock s) m samples) (warned m u) code es t rest
          (omega arith)))
  probe_rounds-Rounds (suc fuel) samples s code _ t (unpaused {v} {es} ts m g o z rest) enough =
      rw (g, o, z)
        (rw (← combine-seen p (clock s) ts samples (failure (clock s) m ∷ es)) (
          rw (← combine-failure p (clock s) m (record_threads p (clock s) ts samples) es) (
            probe_rounds-Rounds fuel
              (record_failure p (clock s) m (record_threads p (clock s) ts samples)) (warned m v)
              code es t rest (omega arith))))
  probe_rounds-Rounds (suc fuel) samples s code _ t (timed_out ts g o) enough =
      rw (g, o, ← combine-seen p (clock s) ts samples [], combine-nil)
  probe_rounds-Rounds (suc fuel) samples s code _ t (left {u} e g l) enough =
      rw (g, handle-leaves (clock s) samples e u code t l, combine-nil)
  probe_rounds-Rounds (suc fuel) samples s code _ t (left_later {v} ts e g o z l) enough = rw (
    g,
    o,
    z,
    handle-leaves (clock s) (record_threads p (clock s) ts samples) e v code t l,
    ← combine-seen p (clock s) ts samples [],
    combine-nil,
  )

module _ {W D : Type 0} (os : Os W) (fl : Doubles D) (wait_fuel : ℕ) (p : Prober D)
    (get_threads : Cmd W (List Thread)) where
  -- The rounds of ProbeLoop from a state on: the end is that of the loop.
  abbrev pub LoopRounds : State W → ℤ → List Event → State W → Type 0
  LoopRounds s code es t =
      Rounds os fl wait_fuel p get_threads (fl.is_nonneg p.seconds)
        ((os.now s.world).0 + nanoseconds (fl.to_microseconds p.seconds))
        (record s { world = (os.now s.world).1 }) code es t

  -- What ProbeLoop has done behind its rounds.
  abbrev pub outcome : (Buckets → Buckets) → ℤ → List Event → State W → Run W (ℤ × Text)
  outcome order code es t =
      ok (code, (report p order (tally p es)).0)
        (record t { cerr = t.cerr ++ (report p order (tally p es)).1 })

  pub probe_loop-Rounds :
      (order : Buckets → Buckets) (fuel : ℕ) (s : State W) (code : ℤ) (es : List Event)
      (t : State W)
      → LoopRounds s code es t
      → length es < fuel
      → probe_loop os fl wait_fuel p get_threads order fuel s ≡ outcome order code es t
  unfolding probe_loop
  probe_loop-Rounds order fuel s code es t rounds enough = rw (
    probe_rounds-Rounds os fl wait_fuel p get_threads _ _ fuel no_samples _ code es t rounds enough,
    combine-no_samples,
  )

-- ===== src/Prober/Loop/Ending.antt =====
-- When ProbeLoop ends, and when it does not.
use pyflame.Common.Int.{ℤ, pos}
use pyflame.Common.{
  ℕ, zero, suc, ◌+◌, ◌≤◌, ◌<◌, Text, Bool, true, false, List, ◌≡◌, refl, codes, ◌++◌, arith,
  Bool-cases, inl, inr,
}
use pyflame.Exc.{
  State, Exception, ptrace_exception, is_ptrace, terminate_exception, fatal_exception,
  symbol_exception, generic_exception, Run, Cmd, ok, throw, out_of_fuel,
}
use pyflame.Os.{Os}
use pyflame.Prober.Loop.{
  Samples, Handled, again, finish, nanoseconds, reaches, record_threads, record_failure, handle,
  pause, probe, probe_rounds, no_samples, report, probe_loop,
}
use pyflame.Prober.Report.{Buckets}
use pyflame.Prober.{Doubles, Prober}
use pyflame.Thread.{Thread}

module _ {W D : Type 0} (os : Os W) (fl : Doubles D) (wait_fuel : ℕ) (p : Prober D)
    (get_threads : Cmd W (List Thread)) where
  -- A round in which the threads cannot be read by a PtraceException goes round again, at once and
  -- whatever the time.
  probe-failure :
      (check_end : Bool) (end : ℕ) (samples : Samples) (s : State W) (m : Text) (t : State W)
      → get_threads (record s { world = (os.now s.world).1 }) ≡ throw (ptrace_exception m) t
      → probe os fl wait_fuel p get_threads check_end end samples s
        ≡ ok (again (record_failure p (os.now s.world).0 m samples)) (record t {
          cerr = t.cerr ++ (codes "Unexpected ptrace(2) exception: " ++ (m ++ codes "\n"));
        })
  unfolding probe handle
  probe-failure check_end end samples s m t e = rw e

  probe_rounds-failing :
      (fuel : ℕ) (check_end : Bool) (end : ℕ) (samples : Samples) (s : State W)
      → ((u : State W)
          → (m : Text) × (t : State W) × (get_threads u ≡ throw (ptrace_exception m) t))
      → probe_rounds os fl wait_fuel p get_threads fuel check_end end samples s ≡ out_of_fuel
  unfolding probe_rounds
  probe_rounds-failing zero check_end end samples s fails = refl
  probe_rounds-failing (suc fuel) check_end end samples s fails =
      let (m, t, e) = fails (record s { world = (os.now s.world).1 }) in
      rw (probe-failure check_end end samples s m t e, probe_rounds)
        (probe_rounds-failing fuel check_end end (record_failure p (os.now s.world).0 m samples)
          (record t { cerr = _ }) fails)

  -- While reading the threads always raises a PtraceException, ProbeLoop does not end: no number of
  -- rounds is enough, also where a time to run for was given.
  pub probe_loop-failing :
      (order : Buckets → Buckets) (fuel : ℕ) (s : State W)
      → ((u : State W)
          → (m : Text) × (t : State W) × (get_threads u ≡ throw (ptrace_exception m) t))
      → probe_loop os fl wait_fuel p get_threads order fuel s ≡ out_of_fuel
  unfolding probe_loop
  probe_loop-failing order fuel s fails = rw (probe_rounds-failing fuel _ _ no_samples _ fails)

  module _ (clock : W → ℕ) where
    -- A run that returns, `d` nanoseconds later at least, or that throws no PtraceException.
    pub data Proceeds {A : Type 0} (d : ℕ) (s : State W) (r : Run W A) : Type 0 where
      returned :
          (a : A) (t : State W) → r ≡ ok a t → clock s.world + d ≤ clock t.world → Proceeds d s r
      ended : (e : Exception) (t : State W) → r ≡ throw e t → is_ptrace e ≡ false → Proceeds d s r

    -- The clock is read as it stands, and does not run backwards.
    pub record Reads : Type 0 where
      pub value : (w : W) → (os.now w).0 ≡ clock w
      pub later : (w : W) → clock w ≤ clock (os.now w).1

    -- A handler that ends the loop.
    Finishes : Run W Handled → Type 0
    Finishes r = (code : ℤ) × (samples : Samples) × (t : State W) × (r ≡ ok (finish code samples) t)

    handle-Finishes :
        (now : ℕ) (samples : Samples) (e : Exception) (s : State W)
        → is_ptrace e ≡ false
        → Finishes (handle p now samples e s)
    unfolding handle is_ptrace Finishes
    handle-Finishes now samples (terminate_exception t) s h = (pos 0, samples, s, refl)
    handle-Finishes now samples (fatal_exception t) s h =
        (pos 1, samples, record s { cerr = _ }, refl)
    handle-Finishes now samples (symbol_exception t) s h =
        (pos 1, samples, record s { cerr = _ }, refl)
    handle-Finishes now samples (generic_exception t) s h =
        (pos 1, samples, record s { cerr = _ }, refl)
    handle-Finishes now samples (ptrace_exception t) s h = cc

    -- A round ends the loop, or goes round again before the end, a nanosecond later at least.
    data Round (end : ℕ) (s : State W) (r : Run W Handled) : Type 0 where
      ends : Finishes r → Round end s r
      goes_on :
          (samples : Samples) (t : State W)
          → r ≡ ok (again samples) t
          → clock s.world + 1 ≤ clock t.world
          → clock s.world < end
          → Round end s r

    module _ (interval : ℕ) (is_interval : p.interval ≡ pos interval) (reads : Reads)
        (g : (u : State W) → Proceeds 0 u (get_threads u))
        (q : (u : State W) → Proceeds 1 u (pause os wait_fuel p u)) where
      early : (end : ℕ) (w : W) → reaches p.interval (os.now w).0 end ≡ false → clock w < end
      unfolding reaches
      early end w h = let e = reads.value w in let late = rw is_interval at h in ground arith

      probe-Round :
          (end : ℕ) (samples : Samples) (s : State W)
          → Round end s (probe os fl wait_fuel p get_threads true end samples s)
      unfolding probe Finishes
      probe-Round end samples s = threads (g (record s { world = (os.now s.world).1 }))
        where
          paused :
              (ts : List Thread) (t : State W)
              → get_threads (record s { world = (os.now s.world).1 }) ≡ ok ts t
              → clock (os.now s.world).1 + 0 ≤ clock t.world
              → reaches p.interval (os.now s.world).0 end ≡ false
              → Proceeds 1 t (pause os wait_fuel p t)
              → Round end s (probe os fl wait_fuel p get_threads true end samples s)
          paused ts t e l h (returned z v e' l') =
              let k = reads.later s.world in
              goes_on (record_threads p (os.now s.world).0 ts samples) v (rw (e, h, e'))
                (omega (arith, k)) (early end s.world h)
          paused ts t e l h (ended x v e' np) =
              rw (e, h, e')
                (ends (
                  handle-Finishes (os.now s.world).0
                    (record_threads p (os.now s.world).0 ts samples) x v np))

          threads :
              Proceeds 0
                (record s { world = (os.now s.world).1 })
                (get_threads (record s { world = (os.now s.world).1 }))
              → Round end s (probe os fl wait_fuel p get_threads true end samples s)
          threads (returned ts t e l) =
              elim (Bool-cases (reaches p.interval (os.now s.world).0 end)) [
                | inl h ↦ ends (pos 0, record_threads p (os.now s.world).0 ts samples, t, rw (e, h))
                | inr h ↦ paused ts t e l h (q t)
              ]
          threads (ended x t e np) = rw e (ends (handle-Finishes (os.now s.world).0 samples x t np))

      probe_rounds-ends :
          (fuel end : ℕ) (samples : Samples) (s : State W)
          → end < clock s.world + fuel
          → 0 < fuel
          → (r : ℤ × Samples) × (t : State W) × (probe_rounds os fl wait_fuel p get_threads fuel
                true end samples s
              ≡ ok r t)
      unfolding probe_rounds Finishes
      probe_rounds-ends zero end samples s enough more = absurd (omega arith)
      probe_rounds-ends (suc fuel) end samples s enough more =
          after (probe-Round end samples s) (λ samples' t. probe_rounds-ends fuel end samples' t)
        where
          after :
              Round end s (probe os fl wait_fuel p get_threads true end samples s)
              → ((samples' : Samples) (t : State W)
                  → end < clock t.world + fuel
                  → 0 < fuel
                  → (r : ℤ × Samples) × (u : State W) × (probe_rounds os fl wait_fuel p get_threads
                        fuel true end samples' t
                      ≡ ok r u))
              → (r : ℤ × Samples) × (t : State W) × (probe_rounds os fl wait_fuel p get_threads
                    (suc fuel)
                    true
                    end
                    samples
                    s
                  ≡ ok r t)
          after (ends (code, samples', t, e)) rec = ((code, samples'), t, rw (e, probe_rounds))
          after (goes_on samples' t e late early) rec =
              rw (e, probe_rounds) (rec samples' t (omega arith) (omega arith))

      -- Where the interval is not negative, the clock does not run backwards, reading the threads
      -- and the pause raise no PtraceException, and the pause takes a nanosecond at least,
      -- ProbeLoop with a time to run for that is not negative returns: more rounds than that time
      -- has nanoseconds are enough.
      pub probe_loop-ends :
          (order : Buckets → Buckets) (fuel : ℕ) (s : State W)
          → fl.is_nonneg p.seconds ≡ true
          → nanoseconds (fl.to_microseconds p.seconds) < fuel
          → (r : ℤ × Text) × (t : State W) × (probe_loop os fl wait_fuel p get_threads order fuel s
              ≡ ok r t)
      unfolding probe_loop
      probe_loop-ends order fuel s timed enough =
          let w = (os.now s.world).1 in
          let end = (os.now s.world).0 + nanoseconds (fl.to_microseconds p.seconds) in
          let (r, t, e) =
            probe_rounds-ends fuel end no_samples (record s { world = w })
              (omega (arith, reads.value s.world, reads.later s.world)) (omega arith) in
          (
            (r.0, (report p order r.1).0),
            record t { cerr = t.cerr ++ (report p order r.1).1 },
            rw (timed, e),
          )

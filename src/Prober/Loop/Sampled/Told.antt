-- ===== src/Prober/Loop/Sampled/Told.antt =====
-- What ProbeLoop of src/prober.cc reports when it returns.
use pyflame.Common.Int.{ℤ}
use pyflame.Common.{
  ℕ, zero, suc, ◌+◌, Text, Bool, false, ◌&&◌, some, List, [], ◌∷◌, ◌≡◌, refl, sym, ◌∙◌, Bool-cases,
  inl, inr,
}
use pyflame.Exc.Post.{Ends}
use pyflame.Exc.{
  State, Exception, ptrace_exception, terminate_exception, fatal_exception, symbol_exception,
  generic_exception, Cmd, Run, ok, throw, undefined, out_of_fuel, resume, pure, print_err, ◌>>◌,
}
use pyflame.Os.{Os}
use pyflame.Prober.Loop.Sampled.{
  Event, seen, failure, combine, combine-no_samples, combine-seen, combine-failure, combine-nil,
}
use pyflame.Prober.Loop.Sampled.Rounds.{
  Rounds, sampled, unread, unpaused, timed_out, left, left_later, leaves, warned, LoopRounds,
  outcome,
}
use pyflame.Prober.Loop.{
  Samples, again, finish, nanoseconds, reaches, record_threads, record_failure, handle, pause,
  probe, probe_rounds, no_samples, report, probe_loop,
}
use pyflame.Prober.Report.{Buckets}
use pyflame.Prober.{Doubles, Prober}
use pyflame.Thread.{Thread}

module _ {W D : Type 0} (os : Os W) (fl : Doubles D) (wait_fuel : ℕ) (p : Prober D)
    (get_threads : Cmd W (List Thread)) (check_end : Bool) (end : ℕ) where
  abbrev clock : State W → ℕ
  clock s = (os.now s.world).0

  abbrev ticked : State W → State W
  ticked s = record s { world = (os.now s.world).1 }

  abbrev is_end : State W → Bool
  is_end s = check_end && reaches p.interval (clock s) end

  abbrev History : State W → ℤ → List Event → State W → Type 0
  History = Rounds os fl wait_fuel p get_threads check_end end

  -- What a loop that returns has done: it has a history of rounds, and its variables are the tally.
  Told : State W → Samples → ℤ × Samples → State W → Type 0
  Told s samples r t = (es : List Event) × History s r.0 es t × (r.1 ≡ combine p samples es)

  Tells : State W → Samples → Run W (ℤ × Samples) → Type 0
  Tells s samples r = Ends (Unit {0}) (Told s samples) (λ _. Unit {0}) r

  -- What the rounds behind the first one tell, they tell of all with the first one's events.
  Tells-more :
      (s u : State W) (samples samples' : Samples) (r : Run W (ℤ × Samples))
      → ((code : ℤ) (es : List Event) (t : State W)
          → History u code es t
          → (es' : List Event) × History s code es' t
            × (combine p samples' es ≡ combine p samples es'))
      → Tells u samples' r
      → Tells s samples r
  unfolding Tells Told
  Tells-more s u samples samples' (ok r t) more (es, rounds, e) =
      let (es', rounds', e') = more r.0 es t rounds in (es', rounds', e ∙ e')
  Tells-more s u samples samples' (throw x t) more h = tt
  Tells-more s u samples samples' undefined more h = tt
  Tells-more s u samples samples' out_of_fuel more h = tt

  data Handling (now : ℕ) (samples : Samples) (e : Exception) (u : State W) : Type 0 where
    goes_round :
        (m : Text)
        → e ≡ ptrace_exception m
        → handle p now samples e u ≡ ok (again (record_failure p now m samples)) (warned m u)
        → Handling now samples e u
    goes_out :
        (code : ℤ) (t : State W)
        → leaves e u ≡ some (code, t)
        → handle p now samples e u ≡ ok (finish code samples) t
        → Handling now samples e u

  handle-Handling :
      (now : ℕ) (samples : Samples) (e : Exception) (u : State W) → Handling now samples e u
  unfolding handle
  handle-Handling now samples (ptrace_exception m) u = goes_round m refl refl
  handle-Handling now samples (terminate_exception m) u = goes_out _ _ refl refl
  handle-Handling now samples (fatal_exception m) u = goes_out _ _ refl refl
  handle-Handling now samples (symbol_exception m) u = goes_out _ _ refl refl
  handle-Handling now samples (generic_exception m) u = goes_out _ _ refl refl

  probe_rounds-Tells :
      (fuel : ℕ) (samples : Samples) (s : State W)
      → Tells s samples (probe_rounds os fl wait_fuel p get_threads fuel check_end end samples s)
  unfolding probe_rounds probe Tells Told
  probe_rounds-Tells zero samples s = tt
  probe_rounds-Tells (suc fuel) samples s =
      read (get_threads (ticked s)) refl (λ samples' u. probe_rounds-Tells fuel samples' u)
    where
      All_told : Type 0
      All_told =
          (samples' : Samples) (v : State W)
          → Tells v samples'
              (probe_rounds os fl wait_fuel p get_threads fuel check_end end samples' v)

      paused :
          (ts : List Thread) (u : State W) (r : Run W (Unit {0}))
          → get_threads (ticked s) ≡ ok ts u
          → is_end s ≡ false
          → pause os wait_fuel p u ≡ r
          → All_told
          → Tells s samples
              (probe_rounds os fl wait_fuel p get_threads (suc fuel) check_end end samples s)
      paused ts u (ok _ v) g o z rec =
          rw (g, o, z)
            (Tells-more s v samples (record_threads p (clock s) ts samples) _
              (λ code es t r. (
                seen (clock s) ts ∷ es,
                sampled ts g o z r,
                combine-seen p (clock s) ts samples es,
              ))
              (rec (record_threads p (clock s) ts samples) v))
      paused ts u (throw e v) g o z rec =
          elim (handle-Handling (clock s) (record_threads p (clock s) ts samples) e v) [
            | goes_round m x h ↦
                rw (g, o, z, h)
                  (Tells-more s (warned m v) samples
                    (record_failure p (clock s) m (record_threads p (clock s) ts samples)) _
                    (λ code es t r. (
                      seen (clock s) ts ∷ failure (clock s) m ∷ es,
                      unpaused ts m g o (z ∙ rw x) r,
                      combine-failure p (clock s) m (record_threads p (clock s) ts samples) es
                          ∙ combine-seen p (clock s) ts samples (failure (clock s) m ∷ es),
                    ))
                    (rec (record_failure p (clock s) m (record_threads p (clock s) ts samples))
                      (warned m v)))
            | goes_out code t l h ↦
                rw (g, o, z, h)
                  (
                    seen (clock s) ts ∷ [],
                    left_later ts e g o z l,
                    sym (combine-nil p _) ∙ combine-seen p (clock s) ts samples [],
                  )
          ]
      paused ts u undefined g o z rec = rw (g, o, z) tt
      paused ts u out_of_fuel g o z rec = rw (g, o, z) tt

      read :
          (r : Run W (List Thread))
          → get_threads (ticked s) ≡ r
          → All_told
          → Tells s samples
              (probe_rounds os fl wait_fuel p get_threads (suc fuel) check_end end samples s)
      read (ok ts u) g rec = elim (Bool-cases (is_end s)) [
        | inl o ↦
            rw (g, o)
              (
                seen (clock s) ts ∷ [],
                timed_out ts g o,
                sym (combine-nil p _) ∙ combine-seen p (clock s) ts samples [],
              )
        | inr o ↦ paused ts u (pause os wait_fuel p u) g o refl rec
      ]
      read (throw e u) g rec = elim (handle-Handling (clock s) samples e u) [
        | goes_round m x h ↦
            rw (g, h)
              (Tells-more s (warned m u) samples (record_failure p (clock s) m samples) _
                (λ code es t r. (
                  failure (clock s) m ∷ es,
                  unread m (g ∙ rw x) r,
                  combine-failure p (clock s) m samples es,
                ))
                (rec (record_failure p (clock s) m samples) (warned m u)))
        | goes_out code t l h ↦ rw (g, h) ([], left e g l, sym (combine-nil p samples))
      ]
      read undefined g rec = rw g tt
      read out_of_fuel g rec = rw g tt

module _ {W D : Type 0} (os : Os W) (fl : Doubles D) (wait_fuel : ℕ) (p : Prober D)
    (get_threads : Cmd W (List Thread)) where
  -- A run of ProbeLoop that returns has a history of rounds, whose report it printed, and whose code
  -- it returns.
  abbrev pub Reports : (Buckets → Buckets) → State W → Run W (ℤ × Text) → Type 0
  Reports order s r =
      Ends (Unit {0})
        (λ a u.
          (es : List Event) × (t : State W) × LoopRounds os fl wait_fuel p get_threads s a.0 es t
          × (outcome os fl wait_fuel p get_threads order a.0 es t ≡ ok a u))
        (λ _. Unit {0}) r

  told-Reports :
      (order : Buckets → Buckets) (s : State W) (r : Run W (ℤ × Samples))
      → Tells os fl wait_fuel p get_threads
          (fl.is_nonneg p.seconds)
          ((os.now s.world).0 + nanoseconds (fl.to_microseconds p.seconds))
          (record s { world = (os.now s.world).1 })
          no_samples
          r
      → Reports order s
          (resume r λ a. do print_err (report p order a.1).1; pure (a.0, (report p order a.1).0))
  unfolding Tells Told
  told-Reports order s (ok a t) (es, rounds, e) = (es, t, rounds, rw (e, combine-no_samples p es))
  told-Reports order s (throw e t) told = tt
  told-Reports order s undefined told = tt
  told-Reports order s out_of_fuel told = tt

  -- Whatever the process does, when ProbeLoop returns there is a history of rounds, each with its
  -- threads, its PtraceException or its end, such that ProbeLoop has returned the code of the last
  -- round and printed the report on exactly the samples and failures of the history, with time
  -- stamps or without.
  pub probe_loop-Reports :
      (order : Buckets → Buckets) (fuel : ℕ) (s : State W)
      → Reports order s (probe_loop os fl wait_fuel p get_threads order fuel s)
  unfolding probe_loop
  probe_loop-Reports order fuel s = told-Reports order s _ (
      probe_rounds-Tells os fl wait_fuel p get_threads _ _ fuel no_samples
        (record s { world = (os.now s.world).1 }))

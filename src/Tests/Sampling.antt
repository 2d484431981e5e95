-- ===== src/Tests/Sampling.antt =====
-- Three rounds of the sampling loop: a failure, an idle sample, and a thread at the end of the time.
use mathlib.Core.List.Permᴰ
use pyflame.Common.Int.{ℤ, pos}
use pyflame.Common.{ℕ, codes, true, List, [], ◌∷◌, ◌≡◌, refl, arith, ◌==◌, if◌then◌else◌}
use pyflame.Exc.{State, Cmd, ok, throw, ptrace_exception}
use pyflame.Prober.Loop.Sampled.Printed.{printed, probe_loop-printed}
use pyflame.Prober.Loop.Sampled.Rounds.{LoopRounds, sampled, unread, timed_out, warned}
use pyflame.Prober.Loop.Sampled.Timed.{chart, probe_loop-chart}
use pyflame.Prober.Loop.Sampled.Told.{Reports, probe_loop-Reports}
use pyflame.Prober.Loop.Sampled.{Event, seen, failure}
use pyflame.Prober.Loop.{pause, probe_loop, nanoseconds, reaches}
use pyflame.Ptrace.{do_wait, ptrace_cont, ptrace_interrupt, request, wifstopped, wstopsig}
use pyflame.Prober.{Prober, new_prober}
use pyflame.Tests.Probing.{ticks, micro, prober, start, main_frame}
use pyflame.Thread.{Thread}

abbrev thread : Thread
thread = record { id = 7; is_current = true; frames = main_frame ∷ [] }

-- The first call fails, the second finds no thread.
abbrev changing : Cmd ℕ (List Thread)
changing u =
    if u.world == 5
    then throw (ptrace_exception (codes "gone")) (record u { world = 6 })
    else if u.world == 6
    then ok [] u
    else ok (thread ∷ []) u

abbrev events : List Event
events = failure 5 (codes "gone") ∷ seen 6 [] ∷ seen 10000006 (thread ∷ []) ∷ []

abbrev last_state : State ℕ
last_state = record (warned (codes "gone") start) { world = 10000006 }

rounds : LoopRounds ticks micro 1 prober changing start (pos 0) events last_state
unfolding reaches request new_prober pause ptrace_cont ptrace_interrupt do_wait nanoseconds
    wifstopped wstopsig
rounds = unread (codes "gone") refl (sampled [] refl refl refl (timed_out (thread ∷ []) refl refl))

probe_loop-printed_example :
    probe_loop ticks micro 1 prober changing (λ b. b) 4 start
    ≡ ok (pos 0, printed (λ b. b) prober events) last_state
unfolding new_prober
probe_loop-printed_example =
    probe_loop-printed prober (λ b. b) Permᴰ.refl ticks micro 1 changing 4 start (pos 0) events
      last_state rounds (omega arith) refl (tt, ((tt, tt), tt))

probe_loop-Reports_example :
    Reports ticks micro 1 prober changing
      (λ b. b)
      start
      (probe_loop ticks micro 1 prober changing (λ b. b) 4 start)
probe_loop-Reports_example = probe_loop-Reports ticks micro 1 prober changing (λ b. b) 4 start

abbrev timed : Prober ℤ
timed = record prober { include_ts = true }

timed_rounds : LoopRounds ticks micro 1 timed changing start (pos 0) events last_state
unfolding reaches request new_prober pause ptrace_cont ptrace_interrupt do_wait nanoseconds
    wifstopped wstopsig
timed_rounds =
    unread (codes "gone") refl (sampled [] refl refl refl (timed_out (thread ∷ []) refl refl))

named : ¬ (main_frame.file ≡ codes "(failed)")
unfolding codes
named e = cc

probe_loop-chart_example :
    probe_loop ticks micro 1 timed changing (λ b. b) 4 start
    ≡ ok (pos 0, chart timed.include_idle timed.include_line_number events) last_state
probe_loop-chart_example =
    probe_loop-chart timed (λ b. b) ticks micro 1 changing 4 start (pos 0) events last_state
      timed_rounds (omega arith) refl (tt, ((named, tt), tt))

-- ===== src/Prober/Loop/Sampled.antt =====
-- What ProbeLoop of src/prober.cc reports: the samples of its rounds.
pub mod Rounds
pub mod Told
pub mod Printed
pub mod Clean
pub mod Timed
use mathlib.Core.List.{append_assoc, append-nil}
use pyflame.Common.Int.{ℤ, pos}
use pyflame.Common.{
  ℕ, zero, suc, ◌+◌, ◌<◌, Text, Bool, true, false, ◌&&◌, Option, none, some, List, [], ◌∷◌, map,
  ◌≡◌, refl, codes, ◌++◌, arith, Bool-cases, inl, inr, if◌then◌else◌, length,
}
use pyflame.Exc.{
  State, Exception, ptrace_exception, terminate_exception, fatal_exception, symbol_exception,
  generic_exception, what, Cmd, Run, ok, throw, undefined, out_of_fuel, resume,
}
use pyflame.Os.{Os}
use pyflame.Prober.Loop.{
  Samples, Handled, again, finish, nanoseconds, reaches, failed_frame, record_threads,
  record_failure, handle, pause, probe, probe_rounds, no_samples, report, probe_loop,
}
use pyflame.Prober.Report.{Buckets, FrameTs}
use pyflame.Prober.{Doubles, Prober}
use pyflame.Thread.{Thread}

-- What a round may sample, with the time at which it began: the threads, or a failure.
pub data Event : Type 0 where
  seen : ℕ → List Thread → Event
  failure : ℕ → Text → Event

-- The samples without a thread, and the failures.
pub idle_samples : List Event → ℕ
idle_samples [] = 0
idle_samples (seen now [] ∷ es) = 1 + idle_samples es
idle_samples (seen now (t ∷ ts) ∷ es) = idle_samples es
idle_samples (failure now m ∷ es) = idle_samples es

pub failures : List Event → ℕ
failures [] = 0
failures (seen now ts ∷ es) = failures es
failures (failure now m ∷ es) = 1 + failures es

-- The stack of each thread, with the time of its round.
pub stamped : ℕ → List Thread → List FrameTs
stamped now [] = []
stamped now (t ∷ ts) = record { ts = now; frames = t.frames } ∷ stamped now ts

-- The stacks without time stamps, and those with, where an idle sample that counts has an empty
-- stack and a failure has a stack of its own.
pub plain_stacks : List Event → List FrameTs
plain_stacks [] = []
plain_stacks (seen now ts ∷ es) = stamped now ts ++ plain_stacks es
plain_stacks (failure now m ∷ es) = plain_stacks es

pub timed_stacks : Bool → List Event → List FrameTs
timed_stacks with_idle [] = []
timed_stacks with_idle (seen now [] ∷ es) =
    if with_idle
    then record { ts = now; frames = [] } ∷ timed_stacks with_idle es
    else timed_stacks with_idle es
timed_stacks with_idle (seen now (t ∷ ts) ∷ es) = stamped now (t ∷ ts) ++ timed_stacks with_idle es
timed_stacks with_idle (failure now m ∷ es) =
    record { ts = now; frames = failed_frame m ∷ [] } ∷ timed_stacks with_idle es

map-stamped :
    (now : ℕ) (ts : List Thread)
    → map (λ (u : Thread). record { ts = now; frames = u.frames }) ts ≡ stamped now ts
unfolding stamped
map-stamped now [] = refl
map-stamped now (t ∷ ts) = rw (map-stamped now ts)

module _ {D : Type 0} (p : Prober D) where
  pub stacks : List Event → List FrameTs
  stacks es = if p.include_ts then timed_stacks p.include_idle es else plain_stacks es

  -- What the variables of the loop hold behind the events.
  pub tally : List Event → Samples
  tally es = record {
    call_stacks = stacks es;
    idle_count = if p.include_idle then idle_samples es else 0;
    failed_count = failures es;
  }

  -- The same on top of what they held before.
  pub combine : Samples → List Event → Samples
  combine samples es = record {
    call_stacks = samples.call_stacks ++ (tally es).call_stacks;
    idle_count = samples.idle_count + (tally es).idle_count;
    failed_count = samples.failed_count + (tally es).failed_count;
  }

  pub combine-no_samples : (es : List Event) → combine no_samples es ≡ tally es
  unfolding combine tally
  combine-no_samples es = ground arith

  pub combine-seen :
      (now : ℕ) (ts : List Thread) (samples : Samples) (es : List Event)
      → combine (record_threads p now ts samples) es ≡ combine samples (seen now ts ∷ es)
  unfolding combine tally record_threads stacks idle_samples failures plain_stacks timed_stacks
      stamped
  combine-seen now [] samples es = ground (
    arith,
    append_assoc samples.call_stacks (record { ts = now; frames = [] } ∷ [])
        (timed_stacks p.include_idle es),
  )
  combine-seen now (t ∷ ts) samples es = ground (
    arith,
    map-stamped now ts,
    append_assoc samples.call_stacks (stamped now (t ∷ ts)) (stacks es),
  )

  pub combine-failure :
      (now : ℕ) (m : Text) (samples : Samples) (es : List Event)
      → combine (record_failure p now m samples) es ≡ combine samples (failure now m ∷ es)
  unfolding combine tally record_failure stacks idle_samples failures plain_stacks timed_stacks
  combine-failure now m samples es = ground (
    arith,
    append_assoc samples.call_stacks (record { ts = now; frames = failed_frame m ∷ [] } ∷ [])
        (timed_stacks p.include_idle es),
  )

  pub combine-nil : (samples : Samples) → combine samples [] ≡ samples
  unfolding combine tally stacks idle_samples failures plain_stacks timed_stacks
  combine-nil samples = ground (arith, append-nil samples.call_stacks)

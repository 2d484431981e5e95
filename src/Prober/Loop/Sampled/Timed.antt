-- ===== src/Prober/Loop/Sampled/Timed.antt =====
-- What ProbeLoop of src/prober.cc prints of its samples with `include_ts_`: the flame chart.
use mathlib.Core.List.{append_assoc, append-nil}
use pyflame.Common.Int.{ℤ}
use pyflame.Common.{
  ℕ, ◌/◌, ◌<◌, Text, Bool, true, false, List, [], ◌∷◌, All, ◌≡◌, refl, ◌∙◌, codes, ◌++◌, decimal,
  text_eq, text_eq→eq, reverse, map, if◌then◌else◌, length, arith, Bool-cases, inl, inr,
}
use pyflame.Exc.{State, Cmd, ok}
use pyflame.Frame.{Frames}
use pyflame.Frame.Printed.{terminated, frame_text}
use pyflame.Os.{Os}
use pyflame.Prober.Loop.Sampled.Rounds.{LoopRounds, probe_loop-Rounds}
use pyflame.Prober.Loop.Sampled.{Event, seen, failure, stamped, timed_stacks, stacks, tally}
use pyflame.Prober.Loop.{Samples, failed_frame, report, probe_loop}
use pyflame.Prober.Report.Printed.{print_function-frame_text, with_semicolons-terminated}
use pyflame.Prober.Report.{
  Buckets, FrameTs, is_failed, no_stacks, print_frames_ts, print_function, print_stack_ts,
}
use pyflame.Prober.{Doubles, Prober}
use pyflame.Thread.{Thread}

-- A line with the time in microseconds, and the line behind it.
abbrev pub entry : ℕ → Text → Text
entry now line = decimal (now / 1000) ++ (b'\n' ∷ line)

-- The frames of a thread from the outermost, a semicolon behind each of them.
abbrev pub stack_line : Bool → Frames → Text
stack_line with_lines frames =
    terminated (b';' ∷ []) (map (frame_text with_lines) (reverse frames)) ++ (b'\n' ∷ [])

pub thread_entries : Bool → ℕ → List Thread → Text
thread_entries with_lines now [] = []
thread_entries with_lines now (t ∷ ts) =
    entry now (stack_line with_lines t.frames) ++ thread_entries with_lines now ts

-- The flame chart of the events.
pub chart : Bool → Bool → List Event → Text
chart with_idle with_lines [] = []
chart with_idle with_lines (seen now [] ∷ es) =
    (if with_idle then entry now (codes "(idle)\n") else []) ++ chart with_idle with_lines es
chart with_idle with_lines (seen now (t ∷ ts) ∷ es) =
    thread_entries with_lines now (t ∷ ts) ++ chart with_idle with_lines es
chart with_idle with_lines (failure now m ∷ es) =
    entry now (codes "(failed)\n") ++ chart with_idle with_lines es

-- A stack with a frame that is not the frame of a failure alone.
abbrev pub IsPlain : Frames → Type 0
IsPlain [] = ⊥
IsPlain (f ∷ []) = ¬ (f.file ≡ codes "(failed)")
IsPlain (f ∷ g ∷ fs) = Unit

abbrev pub ArePlain : List Event → Type 0
ArePlain [] = Unit
ArePlain (seen now ts ∷ es) = All (λ (t : Thread). IsPlain t.frames) ts × ArePlain es
ArePlain (failure now m ∷ es) = ArePlain es

is_failed-IsPlain : (fs : Frames) → IsPlain fs → is_failed fs ≡ false
unfolding is_failed
is_failed-IsPlain [] h = elim h [ ]
is_failed-IsPlain (f ∷ []) h = elim (Bool-cases (text_eq f.file (codes "(failed)"))) [
  | inl e ↦ absurd (h (text_eq→eq f.file (codes "(failed)") e))
  | inr e ↦ e
]
is_failed-IsPlain (f ∷ g ∷ fs) h = refl

print_stack_ts-plain :
    (with_lines : Bool) (frames : Frames)
    → IsPlain frames
    → print_stack_ts (print_function with_lines) frames ≡ stack_line with_lines frames
unfolding print_stack_ts
print_stack_ts-plain with_lines [] h = elim h [ ]
print_stack_ts-plain with_lines (f ∷ fs) h = rw (
  is_failed-IsPlain (f ∷ fs) h,
  with_semicolons-terminated (print_function with_lines) (reverse (f ∷ fs)),
  print_function-frame_text with_lines,
)

entry-append : (now : ℕ) (line rest : Text) → entry now line ++ rest ≡ entry now (line ++ rest)
entry-append now line rest = append_assoc (decimal (now / 1000)) (b'\n' ∷ line) rest

print_frames_ts-stamped :
    (with_lines : Bool) (now : ℕ) (ts : List Thread) (cs : List FrameTs)
    → All (λ (t : Thread). IsPlain t.frames) ts
    → print_frames_ts (stamped now ts ++ cs) with_lines
      ≡ thread_entries with_lines now ts ++ print_frames_ts cs with_lines
unfolding print_frames_ts stamped thread_entries
print_frames_ts-stamped with_lines now [] cs h = refl
print_frames_ts-stamped with_lines now (t ∷ ts) cs h =
    let line = stack_line with_lines t.frames in
    rw (
      print_stack_ts-plain with_lines t.frames h.0,
      print_frames_ts-stamped with_lines now ts cs h.1,
      append_assoc (entry now line) (thread_entries with_lines now ts)
          (print_frames_ts cs with_lines),
      entry-append now line,
    )

print_frames_ts-timed_stacks :
    (with_idle with_lines : Bool) (es : List Event)
    → ArePlain es
    → print_frames_ts (timed_stacks with_idle es) with_lines ≡ chart with_idle with_lines es
unfolding print_frames_ts timed_stacks chart print_stack_ts failed_frame is_failed codes text_eq
print_frames_ts-timed_stacks with_idle with_lines [] h = refl
print_frames_ts-timed_stacks true with_lines (seen now [] ∷ es) h =
    rw (print_frames_ts-timed_stacks true with_lines es h.1, append_assoc)
print_frames_ts-timed_stacks false with_lines (seen now [] ∷ es) h =
    print_frames_ts-timed_stacks false with_lines es h.1
print_frames_ts-timed_stacks with_idle with_lines (seen now (t ∷ ts) ∷ es) h =
    print_frames_ts-stamped with_lines now (t ∷ ts) (timed_stacks with_idle es) h.0
    ∙ rw (print_frames_ts-timed_stacks with_idle with_lines es h.1)
print_frames_ts-timed_stacks with_idle with_lines (failure now m ∷ es) h =
    rw (print_frames_ts-timed_stacks with_idle with_lines es h, append_assoc)

no_stacks-empty : (cs : List FrameTs) → no_stacks cs ≡ true → cs ≡ []
no_stacks-empty [] e = refl
no_stacks-empty (c ∷ cs) e = cc

module _ {D : Type 0} (p : Prober D) (order : Buckets → Buckets) where
  report-timed_stacks :
      (samples : Samples)
      → p.include_ts ≡ true
      → report p order samples ≡ (print_frames_ts samples.call_stacks p.include_line_number, [])
  unfolding report print_frames_ts
  report-timed_stacks samples timed = elim (Bool-cases (no_stacks samples.call_stacks)) [
    | inl e ↦ rw (timed, no_stacks-empty samples.call_stacks e) ground arith
    | inr e ↦ rw (e, timed)
  ]

  pub report-chart :
      (es : List Event)
      → p.include_ts ≡ true
      → ArePlain es
      → report p order (tally p es) ≡ (chart p.include_idle p.include_line_number es, [])
  unfolding tally stacks
  report-chart es timed plain =
      report-timed_stacks (tally p es) timed
      ∙ rw (timed, print_frames_ts-timed_stacks p.include_idle p.include_line_number es plain)

  -- Where the rounds of ProbeLoop end, by the end of the time, by a TerminateException (code 0) or
  -- by another exception that is no PtraceException (code 1), the threads that were seen have
  -- frames, none of them has the file `(failed)` as the only frame, and time stamps are asked for,
  -- ProbeLoop returns that code and writes an entry for each thread that was seen, for each round
  -- without a thread, if idle rounds are asked for, and for each PtraceException, in the order of
  -- the rounds: a line with the time of the round in microseconds, and a line with the frames from
  -- the outermost and a semicolon behind each, with `(idle)`, or with `(failed)`, without the
  -- message of the exception; to `std::cerr` it writes only the messages. More rounds than events
  -- are enough.
  pub probe_loop-chart :
      {W : Type 0} (os : Os W) (fl : Doubles D) (wait_fuel : ℕ) (get_threads : Cmd W (List Thread))
      (fuel : ℕ) (s : State W) (code : ℤ) (es : List Event) (t : State W)
      → LoopRounds os fl wait_fuel p get_threads s code es t
      → length es < fuel
      → p.include_ts ≡ true
      → ArePlain es
      → probe_loop os fl wait_fuel p get_threads order fuel s
        ≡ ok (code, chart p.include_idle p.include_line_number es) t
  probe_loop-chart os fl wait_fuel get_threads fuel s code es t rounds enough timed plain =
      probe_loop-Rounds os fl wait_fuel p get_threads order fuel s code es t rounds enough
      ∙ rw (report-chart es timed plain, append-nil)

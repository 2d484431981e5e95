-- ===== src/Prober/Loop/Sampled/Printed.antt =====
-- What ProbeLoop of src/prober.cc prints of its samples.
use mathlib.Core.List.{Permᴰ, append-nil}
use mathlib.Core.Path.{subst}
use pyflame.Common.Int.{ℤ}
use pyflame.Common.{
  ℕ, ◌<◌, Text, false, List, [], ◌∷◌, All, All-append, ◌≡◌, refl, ◌∙◌, codes, ◌++◌, if◌then◌else◌,
  length,
}
use pyflame.Exc.{State, Cmd, ok}
use pyflame.Frame.Printed.{frame_text}
use pyflame.Os.{Os}
use pyflame.Prober.Loop.Sampled.Rounds.{LoopRounds, probe_loop-Rounds}
use pyflame.Prober.Loop.Sampled.{
  Event, seen, failure, idle_samples, failures, stamped, plain_stacks, stacks, tally,
}
use pyflame.Prober.Loop.{report, probe_loop}
use pyflame.Prober.Report.Buckets.{HasFrames, AreFull}
use pyflame.Prober.Report.Printed.{
  bucket_lines, count_line, print_frames-lines, print_frames-nothing,
}
use pyflame.Prober.Report.{Buckets, FrameTs, fill_buckets}
use pyflame.Prober.{Doubles, Prober}
use pyflame.Thread.{Thread}

-- Every bucket is gone through once.
All-Permᴰ {ℓ κ} : {A : Type ℓ} (P : A → Type κ) (xs ys : List A) → Permᴰ xs ys → All P xs → All P ys
All-Permᴰ P _ _ Permᴰ.nil h = h
All-Permᴰ P _ _ (Permᴰ.cons {l₁} {l₂} e d) h = (subst P e h.0, All-Permᴰ P l₁ l₂ d h.1)
All-Permᴰ P _ _ (Permᴰ.swap e e') h = (subst P e' h.1.0, (subst P e h.0, h.1.1))
All-Permᴰ P xs zs (Permᴰ.trans {l₂ = ys} d d') h = All-Permᴰ P ys zs d' (All-Permᴰ P xs ys d h)

Permᴰ-nil {ℓ} : {A : Type ℓ} (xs ys : List A) → Permᴰ xs ys → xs ≡ [] → ys ≡ []
Permᴰ-nil _ _ Permᴰ.nil e = refl
Permᴰ-nil _ _ (Permᴰ.cons h d) e = cc
Permᴰ-nil _ _ (Permᴰ.swap h h') e = cc
Permᴰ-nil xs zs (Permᴰ.trans {l₂ = ys} d d') e = Permᴰ-nil ys zs d' (Permᴰ-nil xs ys d e)

-- The threads that were seen have frames.
abbrev pub HaveFrames : List Event → Type 0
HaveFrames [] = Unit
HaveFrames (seen now ts ∷ es) = All (λ (t : Thread). HasFrames t.frames) ts × HaveFrames es
HaveFrames (failure now m ∷ es) = HaveFrames es

stamped-HasFrames :
    (now : ℕ) (ts : List Thread)
    → All (λ (t : Thread). HasFrames t.frames) ts
    → All (λ (c : FrameTs). HasFrames c.frames) (stamped now ts)
unfolding stamped
stamped-HasFrames now [] h = tt
stamped-HasFrames now (t ∷ ts) h = (h.0, stamped-HasFrames now ts h.1)

plain_stacks-HaveFrames :
    (es : List Event) → HaveFrames es → All (λ (c : FrameTs). HasFrames c.frames) (plain_stacks es)
unfolding plain_stacks
plain_stacks-HaveFrames [] h = tt
plain_stacks-HaveFrames (seen now ts ∷ es) h =
    All-append _ (stamped now ts) (plain_stacks es) (stamped-HasFrames now ts h.0)
      (plain_stacks-HaveFrames es h.1)
plain_stacks-HaveFrames (failure now m ∷ es) h = plain_stacks-HaveFrames es h

-- What PrintFrames writes of the events.
pub printed : {D : Type 0} → (Buckets → Buckets) → Prober D → List Event → Text
printed order p es =
    count_line (codes "(idle) ") (if p.include_idle then idle_samples es else 0)
    ++ (count_line (codes "(failed) ") (failures es)
        ++ bucket_lines (frame_text p.include_line_number)
            (order (fill_buckets [] (plain_stacks es))))

module _ {D : Type 0} (p : Prober D) (order : Buckets → Buckets)
    (permutes : (buckets : Buckets) → Permᴰ buckets (order buckets)) where
  keeps : (buckets : Buckets) → AreFull buckets → AreFull (order buckets)
  keeps buckets full = All-Permᴰ _ buckets (order buckets) (permutes buckets) full

  pub report-printed :
      (es : List Event)
      → p.include_ts ≡ false
      → HaveFrames es
      → report p order (tally p es) ≡ (printed order p es, [])
  unfolding report tally stacks printed
  report-printed es plain full = rw plain (
      print_frames-nothing order (Permᴰ-nil [] (order []) (permutes []) refl) (plain_stacks es)
        (if p.include_idle then idle_samples es else 0) (failures es) p.include_line_number
      ∙ print_frames-lines order (plain_stacks es) (if p.include_idle then idle_samples es else 0)
          (failures es) p.include_line_number keeps (plain_stacks-HaveFrames es full))

  -- Where the rounds of ProbeLoop end, by the end of the time, by a TerminateException (code 0) or
  -- by another exception that is no PtraceException (code 1), the threads that were seen have
  -- frames, no time stamps are asked for, and the table is gone through in some order, ProbeLoop
  -- returns that code, and writes the number of rounds without a thread, if idle rounds are asked
  -- for, and of PtraceExceptions, where these are not 0, and a line for each bucket of the stacks
  -- that were seen, the frames from the outermost with semicolons between them, each with its file,
  -- its name and, if asked for, its line number, and then the count; to `std::cerr` it writes only
  -- the messages of the exceptions. More rounds than events are enough.
  pub probe_loop-printed :
      {W : Type 0} (os : Os W) (fl : Doubles D) (wait_fuel : ℕ) (get_threads : Cmd W (List Thread))
      (fuel : ℕ) (s : State W) (code : ℤ) (es : List Event) (t : State W)
      → LoopRounds os fl wait_fuel p get_threads s code es t
      → length es < fuel
      → p.include_ts ≡ false
      → HaveFrames es
      → probe_loop os fl wait_fuel p get_threads order fuel s ≡ ok (code, printed order p es) t
  probe_loop-printed os fl wait_fuel get_threads fuel s code es t rounds enough plain full =
      probe_loop-Rounds os fl wait_fuel p get_threads order fuel s code es t rounds enough
      ∙ rw (report-printed es plain full, append-nil)

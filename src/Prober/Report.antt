-- ===== src/Prober/Report.antt =====
-- PrintFrames and PrintFramesTS of src/prober.cc.
pub mod Buckets
pub mod Printed
use pyflame.Common.{
  ℕ, ◌+◌, ◌/◌, ◌^◌, Text, codes, decimal, text_eq, Bool, true, false, not, ◌&&◌, List, [], ◌∷◌,
  ◌++◌, reverse, map, ◌==◌, if◌then◌else◌,
}
use pyflame.Frame.{Frame, Frames, frames_eq, print_frame, print_frame_without_line_number}
use pyflame.Thread.{newline}

-- `FrameTS`; the time is in nanoseconds since the epoch.
pub record FrameTs : Type 0 where
  pub ts : ℕ
  pub frames : Frames

-- `call_stacks.empty()`
abbrev pub no_stacks : List FrameTs → Bool
no_stacks [] = true
no_stacks (c ∷ cs) = false

-- `buckets_t`, one entry for each stack up to `operator==`.
abbrev pub Buckets : Type 0
Buckets = List (Frames × ℕ)

-- `find`, then `insert` with the count 1, or `second++`. A new entry stands last here; the order in
-- which the table is gone through is `order` below.
pub count_stack : Frames → Buckets → Buckets
count_stack frames [] = (frames, 1) ∷ []
count_stack frames ((key, n) ∷ buckets) =
    if frames_eq key frames then (key, n + 1) ∷ buckets else (key, n) ∷ count_stack frames buckets

pub fill_buckets : Buckets → List FrameTs → Buckets
fill_buckets buckets [] = buckets
fill_buckets buckets (c ∷ call_stacks) = fill_buckets (count_stack c.frames buckets) call_stacks

-- Each frame of a list with a semicolon behind it.
pub with_semicolons : (Frame → Text) → Frames → Text
with_semicolons print [] = []
with_semicolons print (f ∷ fs) = print f ++ (b';' ∷ with_semicolons print fs)

-- The frames from the outermost, semicolons between them.
pub print_call_stack : (Frame → Text) → Frame → Frames → Text
print_call_stack print first others = with_semicolons print (reverse others) ++ print first

-- The lines for the buckets, and what goes to `std::cerr`.
pub print_buckets : (Frame → Text) → Buckets → Text × Text
print_buckets print [] = ([], [])
print_buckets print (([], n) ∷ buckets) = ([], codes "fatal error\n")
print_buckets print ((f ∷ fs, n) ∷ buckets) =
    let rest = print_buckets print buckets in
    (print_call_stack print f fs ++ (b' ' ∷ (decimal n ++ (newline ∷ rest.0))), rest.1)

-- `print_frame_`
abbrev pub print_function : Bool → Frame → Text
print_function include_line_number =
    if include_line_number then print_frame else print_frame_without_line_number

pub print_count : Text → ℕ → Text
print_count label n = if n == 0 then [] else label ++ (decimal n ++ (newline ∷ []))

-- `order` is the order in which `std::unordered_map` is gone through.
pub print_frames : (Buckets → Buckets) → List FrameTs → ℕ → ℕ → Bool → Text × Text
unfolding print_count
print_frames order call_stacks idle_count failed_count include_line_number =
    let lines =
      print_buckets (print_function include_line_number) (order (fill_buckets [] call_stacks)) in
    (
      print_count (codes "(idle) ") idle_count
          ++ (print_count (codes "(failed) ") failed_count ++ lines.0),
      lines.1,
    )

-- `size() == 1 && front().file() == "(failed)"`
unfoldable pub is_failed : Frames → Bool
is_failed [] = false
is_failed (f ∷ []) = text_eq f.file (codes "(failed)")
is_failed (f ∷ g ∷ fs) = false

unfoldable pub print_stack_ts : (Frame → Text) → Frames → Text
unfolding is_failed
print_stack_ts print [] = codes "(idle)\n"
print_stack_ts print (f ∷ fs) =
    if is_failed (f ∷ fs)
    then codes "(failed)\n"
    else with_semicolons print (reverse (f ∷ fs)) ++ (newline ∷ [])

-- Time points are printed in microseconds.
unfoldable pub print_frames_ts : List FrameTs → Bool → Text
unfolding print_stack_ts
print_frames_ts [] include_line_number = []
print_frames_ts (c ∷ call_stacks) include_line_number =
    decimal (c.ts / 1000)
    ++ (newline
        ∷ (print_stack_ts (print_function include_line_number) c.frames
            ++ print_frames_ts call_stacks include_line_number))

-- ===== src/Prober/Report/Printed.antt =====
-- What the reports print.
use mathlib.Core.List.{append_assoc, reverse-cons}
use pyflame.Common.{
  ℕ, Text, Bool, true, false, List, [], ◌∷◌, ◌++◌, reverse, map, All, codes, decimal, ◌≡◌, refl,
  sym, ◌∙◌, ap, zero, suc, ◌==◌, ◌&&◌, if◌then◌else◌, arith,
}
use pyflame.Frame.{Frame, Frames}
use pyflame.Frame.Printed.{
  join, terminated, frame_text, print_frame-frame_text, print_frame_without_line_number-frame_text,
}
use pyflame.Prober.Report.Buckets.{HasFrames, AreFull, AreFull-fill_buckets}
use pyflame.Prober.Report.{
  FrameTs, Buckets, fill_buckets, with_semicolons, print_call_stack, print_buckets, print_function,
  print_count, print_frames, no_stacks,
}
use pyflame.Thread.{newline}

-- A label and a number that is not 0, on a line.
pub count_line : Text → ℕ → Text
count_line label zero = []
count_line label (suc n) = label ++ (decimal (suc n) ++ (b'\n' ∷ []))

print_count-count_line : (label : Text) (n : ℕ) → print_count label n ≡ count_line label n
unfolding print_count count_line
print_count-count_line label zero = refl
print_count-count_line label (suc n) = ground arith

pub print_function-frame_text : (with_line : Bool) → print_function with_line ≡ frame_text with_line
print_function-frame_text true = print_frame-frame_text
print_function-frame_text false = print_frame_without_line_number-frame_text

pub with_semicolons-terminated :
    (print : Frame → Text) (fs : Frames)
    → with_semicolons print fs ≡ terminated (b';' ∷ []) (map print fs)
unfolding with_semicolons terminated
with_semicolons-terminated print [] = refl
with_semicolons-terminated print (f ∷ fs) = rw (with_semicolons-terminated print fs)

-- The line that a bucket has in the report.
pub bucket_line : (Frame → Text) → Frames × ℕ → Text
bucket_line print (fs, n) =
    join (b';' ∷ []) (map print (reverse fs)) ++ (b' ' ∷ (decimal n ++ (b'\n' ∷ [])))

pub bucket_lines : (Frame → Text) → Buckets → Text
bucket_lines print [] = []
bucket_lines print (b ∷ buckets) = bucket_line print b ++ bucket_lines print buckets

with_semicolons-join :
    (print : Frame → Text) (gs : Frames) (f : Frame)
    → with_semicolons print gs ++ print f ≡ join (b';' ∷ []) (map print (gs ++ f ∷ []))
unfolding with_semicolons join
with_semicolons-join print [] f = refl
with_semicolons-join print (g ∷ []) f = append_assoc (print g) (b';' ∷ []) (print f)
with_semicolons-join print (g ∷ h ∷ gs) f =
    append_assoc (print g) (b';' ∷ with_semicolons print (h ∷ gs)) (print f)
    ∙ ap (λ t. print g ++ (b';' ∷ t)) (with_semicolons-join print (h ∷ gs) f)

-- For every way to print a frame, the stack of a bucket is printed outermost frame first, with a
-- semicolon between two frames and none at the end.
print_call_stack-join :
    (print : Frame → Text) (f : Frame) (fs : Frames)
    → print_call_stack print f fs ≡ join (b';' ∷ []) (map print (reverse (f ∷ fs)))
unfolding print_call_stack
print_call_stack-join print f fs =
    with_semicolons-join print (reverse fs) f
    ∙ ap (λ gs. join (b';' ∷ []) (map print gs)) (sym (reverse-cons f fs))

print_buckets-lines :
    (print : Frame → Text) (buckets : Buckets)
    → AreFull buckets
    → print_buckets print buckets ≡ (bucket_lines print buckets, [])
unfolding print_buckets bucket_lines bucket_line
print_buckets-lines print [] full = refl
print_buckets-lines print (([], n) ∷ buckets) full = absurd full.0
print_buckets-lines print ((f ∷ fs, n) ∷ buckets) full =
    let ih = print_buckets-lines print buckets full.1 in
    rw (ih, print_call_stack-join print f fs)
      (λ i. (regroup (join (b';' ∷ []) (map print (reverse (f ∷ fs)))) i, []))
  where
    regroup :
        (t : Text)
        → t ++ (b' ' ∷ (decimal n ++ (newline ∷ bucket_lines print buckets)))
          ≡ (t ++ (b' ' ∷ (decimal n ++ (newline ∷ [])))) ++ bucket_lines print buckets
    regroup t = simp append_assoc

-- Where every sample has a frame, and the order in which the table is gone through keeps that of
-- the buckets, PrintFrames writes the counts of idle and failed samples that are not 0 and then a
-- line for each bucket, in the order of the table, and nothing to `std::cerr`.
pub print_frames-lines :
    (order : Buckets → Buckets) (call_stacks : List FrameTs) (idle failed : ℕ) (with_lines : Bool)
    → ((buckets : Buckets) → AreFull buckets → AreFull (order buckets))
    → All (λ (c : FrameTs). HasFrames c.frames) call_stacks
    → print_frames order call_stacks idle failed with_lines ≡ (
      count_line (codes "(idle) ") idle
          ++ (count_line (codes "(failed) ") failed
              ++ bucket_lines (frame_text with_lines) (order (fill_buckets [] call_stacks))),
      [],
    )
unfolding print_frames
print_frames-lines order call_stacks idle failed with_lines keeps full = rw (
  print_count-count_line (codes "(idle) ") idle,
  print_count-count_line (codes "(failed) ") failed,
  ← print_function-frame_text with_lines,
  print_buckets-lines (print_function with_lines) (order (fill_buckets [] call_stacks))
      (keeps _ (AreFull-fill_buckets [] call_stacks tt full)),
)

-- PrintFrames of nothing prints nothing, so that it does not matter whether it is called.
pub print_frames-nothing :
    (order : Buckets → Buckets)
    → order [] ≡ []
    → (call_stacks : List FrameTs) (idle failed : ℕ) (with_lines : Bool)
    → (if no_stacks call_stacks && idle == 0 && failed == 0
        then ([], [])
        else print_frames order call_stacks idle failed with_lines)
      ≡ print_frames order call_stacks idle failed with_lines
unfolding print_frames print_count fill_buckets print_buckets
print_frames-nothing order nil [] zero zero with_lines = rw nil
print_frames-nothing order nil [] zero (suc failed) with_lines = ground arith
print_frames-nothing order nil [] (suc idle) failed with_lines = ground arith
print_frames-nothing order nil (c ∷ cs) idle failed with_lines = refl

-- ===== src/Thread.antt =====
-- src/thread.h and src/thread.cc: a Python thread with its stack, and its printed form.
pub mod Printed
use pyflame.Common.{ℕ, Text, decimal, Bool, [], ◌∷◌, ◌++◌, if◌then◌else◌}
use pyflame.Frame.{Frames, print_frame}

pub record Thread : Type 0 where
  pub id : ℕ
  pub is_current : Bool
  pub frames : Frames

abbrev pub newline : ℕ
newline = 10

pub print_lines : Frames → Text
print_lines [] = []
print_lines (f ∷ fs) = print_frame f ++ (newline ∷ print_lines fs)

-- `operator<<` of Thread
unfoldable pub print_thread : Thread → Text
unfolding print_lines
print_thread t =
    decimal t.id
    ++ ((if t.is_current then b'*' ∷ [] else []) ++ (b':' ∷ newline ∷ print_lines t.frames))

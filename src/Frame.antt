-- ===== src/Frame.antt =====
-- src/frame.h and src/frame.cc: a stack frame, its equality, its hash and its printed forms.
pub mod Equality
pub mod Printed
use Prim.Native.Nat.{bit_xor}
use pyflame.Common.{
  ℕ, zero, suc, ◌+◌, Text, text_eq, text_eq_refl, text_eq→eq, decimal, Bool, true, false, ◌&&◌,
  List, [], ◌∷◌, ◌++◌, ◌==◌, ==_iff, ◌≡◌, refl, arith,
}

pub record Frame : Type 0 where
  pub file : Text
  pub name : Text
  pub line : ℕ

abbrev pub Frames : Type 0
Frames = List Frame

-- `operator==` of Frame: the name is not compared.
pub frame_eq : Frame → Frame → Bool
frame_eq a b = text_eq a.file b.file && a.line == b.line

-- `operator==` of `std::vector<Frame>`
unfoldable pub frames_eq : Frames → Frames → Bool
unfolding frame_eq
frames_eq [] [] = true
frames_eq [] (b ∷ bs) = false
frames_eq (a ∷ as') [] = false
frames_eq (a ∷ as') (b ∷ bs) = frame_eq a b && frames_eq as' bs

-- The printed forms, with a line number and without one.
unfoldable pub print_frame : Frame → Text
print_frame f = f.file ++ (b':' ∷ (f.name ++ (b':' ∷ decimal f.line)))

unfoldable pub print_frame_without_line_number : Frame → Text
print_frame_without_line_number f = f.file ++ (b':' ∷ f.name)

-- `std::hash` of a number and of a string, which the standard library leaves open.
pub record StdHash : Type 0 where
  pub hash_size : ℕ → ℕ
  pub hash_text : Text → ℕ

module _ (std : StdHash) where
  hash_from : ℕ → ℕ → Frames → ℕ
  hash_from hash i [] = hash
  hash_from hash i (f ∷ fs) =
      hash_from (bit_xor (bit_xor hash (std.hash_size i)) (std.hash_text f.file)) (i + 1) fs

  -- `FrameHash`
  pub frame_hash : Frames → ℕ
  unfolding hash_from
  frame_hash frames = hash_from 0 0 frames

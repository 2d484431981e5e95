-- ===== src/Frame/Printed.antt =====
-- The texts of frames, as lists of texts with separators.
use pyflame.Common.{Text, decimal, Bool, true, false, List, [], ◌∷◌, ◌++◌, ◌≡◌, refl, if◌then◌else◌}
use pyflame.Frame.{Frame, print_frame, print_frame_without_line_number}

-- Texts joined by a separator.
unfoldable pub join : Text → List Text → Text
join sep [] = []
join sep (t ∷ []) = t
join sep (t ∷ u ∷ ts) = t ++ (sep ++ join sep (u ∷ ts))

-- Texts with a mark behind each.
unfoldable pub terminated : Text → List Text → Text
terminated mark [] = []
terminated mark (t ∷ ts) = t ++ (mark ++ terminated mark ts)

-- The file, the name, and the line if it is asked for.
pub frame_text : Bool → Frame → Text
unfolding join
frame_text with_line f =
    join (b':' ∷ []) (f.file ∷ f.name ∷ (if with_line then decimal f.line ∷ [] else []))

pub print_frame-frame_text : print_frame ≡ frame_text true
unfolding print_frame frame_text join
print_frame-frame_text = refl

pub print_frame_without_line_number-frame_text : print_frame_without_line_number ≡ frame_text false
unfolding print_frame_without_line_number frame_text join
print_frame_without_line_number-frame_text = refl

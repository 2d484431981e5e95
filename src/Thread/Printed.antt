-- ===== src/Thread/Printed.antt =====
-- The text of a thread: its id, a mark for the current one, and a line for each frame.
use pyflame.Common.{Text, decimal, true, [], ◌∷◌, ◌++◌, map, ◌≡◌, refl, arith, if◌then◌else◌}
use pyflame.Frame.Printed.{terminated, frame_text, print_frame-frame_text}
use pyflame.Frame.{Frames}
use pyflame.Thread.{Thread, print_lines, print_thread}

pub thread_text : Thread → Text
thread_text t =
    decimal t.id
    ++ ((if t.is_current then b'*' ∷ b':' ∷ b'\n' ∷ [] else b':' ∷ b'\n' ∷ [])
        ++ terminated (b'\n' ∷ []) (map (frame_text true) t.frames))

print_lines-terminated :
    (fs : Frames) → print_lines fs ≡ terminated (b'\n' ∷ []) (map (frame_text true) fs)
unfolding print_lines terminated
print_lines-terminated [] = refl
print_lines-terminated (f ∷ fs) = rw (print_lines-terminated fs, print_frame-frame_text)

pub print_thread-thread_text : (t : Thread) → print_thread t ≡ thread_text t
unfolding print_thread thread_text
print_thread-thread_text t = rw (print_lines-terminated t.frames) (ground arith)

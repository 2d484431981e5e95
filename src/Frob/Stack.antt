-- ===== src/Frob/Stack.antt =====
-- FollowFrame of src/frob.cc: the stack from a frame outwards.
pub mod Chain
pub mod Untouched
pub mod Full
use pyflame.Common.{ℕ, zero, suc, [], ◌∷◌, ◌++◌, ◌==◌, if◌then◌else◌}
use pyflame.Exc.{Cmd, pure, no_fuel, ◌>>=◌}
use pyflame.Frame.{Frame, Frames}
use pyflame.Frob.Layout.{Version, Layout, member}
use pyflame.Frob.Lines.{get_line}
use pyflame.Frob.Strings.{string_data}
use pyflame.Os.{Pid, Os}
use pyflame.Ptrace.{ptrace_peek}

module _ {W : Type 0} (os : Os W) (v : Version) (l : Layout) where
  -- The frame at an address, and the address of the frame that called it.
  read_frame : ℕ → Pid → ℕ → Cmd W (Frame × ℕ)
  read_frame fuel pid frame = do
    f_code ← ptrace_peek os pid (member frame l.f_code)
    co_filename ← ptrace_peek os pid (member f_code l.co_filename)
    filename ← string_data os v l fuel pid co_filename
    co_name ← ptrace_peek os pid (member f_code l.co_name)
    name ← string_data os v l fuel pid co_name
    line ← get_line os l pid frame f_code
    f_back ← ptrace_peek os pid (member frame l.f_back)
    pure (record { file = filename; name = name; line = line }, f_back)

  -- `depth` bounds the calls, and `fuel` the rounds that read one string. The vector `stack` grows
  -- at its end.
  pub follow_frame : ℕ → ℕ → Pid → ℕ → Frames → Cmd W Frames
  follow_frame zero fuel pid frame stack = no_fuel
  follow_frame (suc depth) fuel pid frame stack = do
    r ← read_frame fuel pid frame
    if r.1 == 0
        then pure (stack ++ (r.0 ∷ []))
        else follow_frame depth fuel pid r.1 (stack ++ (r.0 ∷ []))

-- ===== src/Frob/Stack/Untouched.antt =====
-- Following the frames changes no more than PTRACE_PEEKDATA does.
use pyflame.Common.{ℕ, zero, suc}
use pyflame.Exc.Keeps.{Keeps, keeps_rules}
use pyflame.Exc.{State}
use pyflame.Os.{Os, Pid, peekdata}
use pyflame.Frame.{Frames}
use pyflame.Frob.Layout.{Version, Layout}
use pyflame.Frob.Lines.Untouched.{get_line-Keeps}
use pyflame.Frob.Strings.Untouched.{string_data-Keeps}
use pyflame.Frob.Stack.{read_frame, follow_frame}
use pyflame.Ptrace.Untouched.{peek-Keeps}

-- PTRACE_PEEKDATA keeps `P`.
module _ {W : Type 0} (os : Os W) (pid : Pid) (P : State W → Type 0)
    (peeks : (a : ℕ) (s : State W)
      → P s
      → P (record s { world = (os.ptrace (peekdata a) pid s.world).1 }))
    (v : Version) (l : Layout) where
  read_frame-Keeps : (fuel frame : ℕ) → Keeps P (read_frame os v l fuel pid frame)
  unfolding read_frame
  read_frame-Keeps fuel frame =
      search
        (
          keeps_rules,
          peek-Keeps os pid P peeks,
          string_data-Keeps os pid P peeks v l,
          get_line-Keeps os pid P peeks l,
        )
        depth 16

  pub follow_frame-Keeps :
      (depth fuel frame : ℕ) (stack : Frames)
      → Keeps P (follow_frame os v l depth fuel pid frame stack)
  unfolding follow_frame
  follow_frame-Keeps zero fuel frame stack = search keeps_rules
  follow_frame-Keeps (suc depth) fuel frame stack =
      let ih = λ (f : ℕ) (st : Frames). follow_frame-Keeps depth fuel f st in
      search (keeps_rules, read_frame-Keeps) depth 12

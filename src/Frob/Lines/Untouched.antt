-- ===== src/Frob/Lines/Untouched.antt =====
-- Reading a line number changes no more than PTRACE_PEEKDATA does.
use pyflame.Common.{ℕ, Option, none, some}
use pyflame.Exc.Keeps.{Keeps, keeps_rules}
use pyflame.Exc.{State}
use pyflame.Os.{Os, Pid, peekdata}
use pyflame.Frob.Layout.{Layout}
use pyflame.Frob.Lines.{or_stuck, get_line}
use pyflame.Ptrace.Untouched.{peek-Keeps, bytes-Keeps}

pub or_stuck-Keeps :
    {W A : Type 0} (P : State W → Type 0) (o : Option A) → Keeps P (or_stuck {W = W} o)
or_stuck-Keeps P none = search keeps_rules
or_stuck-Keeps P (some a) = search keeps_rules

-- PTRACE_PEEKDATA keeps `P`.
module _ {W : Type 0} (os : Os W) (pid : Pid) (P : State W → Type 0)
    (peeks : (a : ℕ) (s : State W)
      → P s
      → P (record s { world = (os.ptrace (peekdata a) pid s.world).1 }))
    (l : Layout) where
  pub get_line-Keeps : (frame f_code : ℕ) → Keeps P (get_line os l pid frame f_code)
  unfolding get_line
  get_line-Keeps frame f_code =
      search (keeps_rules, peek-Keeps os pid P peeks, bytes-Keeps os pid P peeks, or_stuck-Keeps)
        depth 16

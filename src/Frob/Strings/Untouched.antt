-- ===== src/Frob/Strings/Untouched.antt =====
-- Reading a string changes no more than PTRACE_PEEKDATA does.
use pyflame.Common.{ℕ, Text}
use pyflame.Exc.Keeps.{Keeps, keeps_rules}
use pyflame.Exc.{State, Cmd}
use pyflame.Os.{Os, Pid, peekdata}
use pyflame.Frob.Layout.{Version, py26, py34, py36, Layout, byte_data}
use pyflame.Frob.Lines.Untouched.{or_stuck-Keeps}
use pyflame.Frob.Strings.{string_data_python3, string_data}
use pyflame.Ptrace.{ptrace_peek_string}
use pyflame.Ptrace.Untouched.{string-Keeps, bytes-Keeps}

-- PTRACE_PEEKDATA keeps `P`.
module _ {W : Type 0} (os : Os W) (pid : Pid) (P : State W → Type 0)
    (peeks : (a : ℕ) (s : State W)
      → P s
      → P (record s { world = (os.ptrace (peekdata a) pid s.world).1 }))
    (v : Version) (l : Layout) where
  python3-Keeps : (a : ℕ) → Keeps P (string_data_python3 os v l pid a)
  unfolding string_data_python3
  python3-Keeps a = search (keeps_rules, bytes-Keeps os pid P peeks, or_stuck-Keeps) depth 12

  pub string_data-Keeps : (fuel a : ℕ) → Keeps P (string_data os v l fuel pid a)
  unfolding string_data
  string_data-Keeps fuel a =
      elim v
        as (λ b. Keeps P (elim b as (λ _. Cmd W Text) [
          | py26 ↦ ptrace_peek_string os fuel pid (byte_data l a)
          | py34 ↦ string_data_python3 os v l pid a
          | py36 ↦ string_data_python3 os v l pid a
        ])) [
          | py26 ↦ string-Keeps os pid P peeks fuel (byte_data l a)
          | py34 ↦ python3-Keeps a
          | py36 ↦ python3-Keeps a
        ]

-- ===== src/Ptrace/Untouched.antt =====
-- Reading the memory of the process changes no more than PTRACE_PEEKDATA does.
use pyflame.Common.{ℕ, zero, suc, ◌+◌, Text, List, []}
use pyflame.Exc.Keeps.{Keeps, Keeps-sys, keeps_rules}
use pyflame.Exc.{State}
use pyflame.Os.{Os, Pid, peekdata, sys}
use pyflame.Ptrace.{
  ptrace_peek, peek_string_loop, ptrace_peek_string, peek_bytes_loop, ptrace_peek_bytes,
}

-- PTRACE_PEEKDATA keeps `P`.
module _ {W : Type 0} (os : Os W) (pid : Pid) (P : State W → Type 0)
    (peeks : (a : ℕ) (s : State W)
      → P s
      → P (record s { world = (os.ptrace (peekdata a) pid s.world).1 })) where
  request-Keeps : (a : ℕ) → Keeps P (sys (os.ptrace (peekdata a) pid))
  request-Keeps a = Keeps-sys P (os.ptrace (peekdata a) pid) (peeks a)

  pub peek-Keeps : (a : ℕ) → Keeps P (ptrace_peek os pid a)
  unfolding ptrace_peek
  peek-Keeps a = search (keeps_rules, request-Keeps)

  string_loop-Keeps :
      (fuel addr off : ℕ) (dump : Text) → Keeps P (peek_string_loop os fuel pid addr off dump)
  unfolding peek_string_loop
  string_loop-Keeps zero addr off dump = search keeps_rules
  string_loop-Keeps (suc fuel) addr off dump =
      let ih = λ (t : Text). string_loop-Keeps fuel addr (off + 8) t in
      search (keeps_rules, peek-Keeps)

  bytes_loop-Keeps :
      (words addr off : ℕ) (bytes : List ℕ) → Keeps P (peek_bytes_loop os words pid addr off bytes)
  unfolding peek_bytes_loop
  bytes_loop-Keeps zero addr off bytes = search keeps_rules
  bytes_loop-Keeps (suc words) addr off bytes =
      let ih = λ (t : List ℕ). bytes_loop-Keeps words addr (off + 8) t in
      search (keeps_rules, peek-Keeps)

  pub string-Keeps : (fuel a : ℕ) → Keeps P (ptrace_peek_string os fuel pid a)
  unfolding ptrace_peek_string
  string-Keeps fuel a = string_loop-Keeps fuel a 0 []

  pub bytes-Keeps : (a n : ℕ) → Keeps P (ptrace_peek_bytes os pid a n)
  unfolding ptrace_peek_bytes
  bytes-Keeps a n = bytes_loop-Keeps _ a 0 []

-- ===== src/Frob/Lines.antt =====
-- GetLine of src/frob.cc: the line number of a frame by the table `co_lnotab`.
pub mod Read
pub mod Table
pub mod Untouched
use pyflame.Common.{
  ℕ, zero, suc, ◌+◌, ◌/◌, ◌^◌, true, false, Option, none, some, List, [], ◌∷◌, ltb, ◌==◌,
  if◌then◌else◌, low_bits,
}
use pyflame.Exc.{Cmd, pure, stuck, ◌>>=◌}
use pyflame.Frob.Layout.{Layout, member, string_size, byte_data}
use pyflame.Os.{Pid, Os}
use pyflame.Ptrace.{ptrace_peek, ptrace_peek_bytes}

-- An addition on `int`; `none` is the overflow that C++ leaves undefined.
pub int_add : ℕ → ℕ → Option ℕ
int_add a b = if ltb (a + b) (2 ^ 31) then some (a + b) else none

-- `size` rounds are left, `addr` and `line` are the sums so far, and the table stands at `p`.
pub line_loop : ℕ → List ℕ → ℕ → ℕ → ℕ → Option ℕ
line_loop zero p addr line f_lasti = some line
line_loop (suc size) (da ∷ dl ∷ p) addr line f_lasti = elim (int_add addr da) [
  | none ↦ none
  | some addr' ↦ elim (ltb f_lasti addr') [
    | true ↦ some line
    | false ↦ elim (int_add line dl) [
      | none ↦ none
      | some line' ↦ line_loop size p addr' line' f_lasti
    ]
  ]
]
line_loop (suc size) _ addr line f_lasti = none

abbrev pub or_stuck : {W A : Type 0} → Option A → Cmd W A
or_stuck none = stuck
or_stuck (some a) = pure a

module _ {W : Type 0} (os : Os W) (l : Layout) where
  -- `& std::numeric_limits<int>::max()` keeps the low 31 bits.
  pub get_line : Pid → ℕ → ℕ → Cmd W ℕ
  get_line pid frame f_code = do
    f_trace ← ptrace_peek os pid (member frame l.f_trace)
    if f_trace == 0
        then (do
          f_lasti ← ptrace_peek os pid (member frame l.f_lasti)
          co_lnotab ← ptrace_peek os pid (member f_code l.co_lnotab)
          size ← ptrace_peek os pid (string_size l co_lnotab)
          line ← ptrace_peek os pid (member f_code l.co_firstlineno)
          tbl ← ptrace_peek_bytes os pid (byte_data l co_lnotab) (low_bits size 31)
          or_stuck
              (line_loop (low_bits size 31 / 2) tbl 0 (low_bits line 31) (low_bits f_lasti 31)))
        else (do
          f_lineno ← ptrace_peek os pid (member frame l.f_lineno)
          pure (low_bits f_lineno 31))

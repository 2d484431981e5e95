-- ===== src/Frob/Lines/Read.antt =====
-- GetLine on the memory of a stopped interpreter.
use pyflame.Common.{
  ℕ, ◌+◌, ◌*◌, ◌/◌, ◌^◌, ◌≤◌, ◌<◌, List, ◌++◌, some, false, ◌==◌, ◌≡◌, arith, low_bits, length,
}
use pyflame.Exc.{State, ok}
use pyflame.Frob.Layout.{Layout, member, string_size, byte_data}
use pyflame.Frob.Lines.Table.{Steps, SmallSteps, flat, lines_until, line_loop-lines_until}
use pyflame.Frob.Lines.{get_line}
use pyflame.Os.{Pid, Os, Memory, Snapshot, word_of}
use pyflame.Ptrace.Memory.{Holds, ptrace_peek-word, ptrace_peek_bytes-Holds}

-- The word at `offset` of the structure at `addr` is `v`.
abbrev pub Field : Memory → ℕ → ℕ → ℕ → Type 0
Field mem addr offset v = word_of 8 mem (member addr offset) ≡ some v

-- A frame that runs the code at `f_code`, without a trace function, whose line table is `es`.
pub record LineTable (l : Layout) (mem : Memory) (frame f_code first lasti : ℕ) (es : Steps)
    : Type 0 where
  pub lasti_word : ℕ
  pub lnotab : ℕ
  pub size_word : ℕ
  pub first_word : ℕ
  pub rest : List ℕ
  pub untraced : Field mem frame l.f_trace 0
  pub at_lasti : Field mem frame l.f_lasti lasti_word
  pub at_lnotab : Field mem f_code l.co_lnotab lnotab
  pub at_size : word_of 8 mem (string_size l lnotab) ≡ some size_word
  pub at_first : Field mem f_code l.co_firstlineno first_word
  pub lasti_is : low_bits lasti_word 31 ≡ lasti
  pub first_is : low_bits first_word 31 ≡ first
  pub pairs : low_bits size_word 31 / 2 ≡ length es
  pub whole : length (flat es ++ rest) ≡ 8 * ((low_bits size_word 31 + 7) / 8)
  pub fits : byte_data l lnotab + length (flat es ++ rest) ≤ 2 ^ 64
  pub table : Holds mem (byte_data l lnotab) (flat es ++ rest)
  pub small : SmallSteps es
  pub in_range : first + 255 * length es < 2 ^ 31

module _ {W : Type 0} (os : Os W) (pid : Pid) (l : Layout) (s : State W) {mem : Memory}
    (snap : Snapshot os pid s.world mem) where
  -- On a stopped process whose memory holds a frame without a trace function, and a line table of
  -- steps below 256 that keeps the line in the range of `int`, GetLine returns the first line and
  -- the line steps of the table at addresses up to the last instruction, and changes nothing.
  pub get_line-lines_until :
      {frame f_code first lasti : ℕ} {es : Steps}
      → LineTable l mem frame f_code first lasti es
      → get_line os l pid frame f_code s ≡ ok (first + lines_until lasti 0 es) s
  unfolding get_line
  get_line-lines_until {es} t = rw (
    ptrace_peek-word os pid s snap _ _ t.untraced,
    ptrace_peek-word os pid s snap _ _ t.at_lasti,
    ptrace_peek-word os pid s snap _ _ t.at_lnotab,
    ptrace_peek-word os pid s snap _ _ t.at_size,
    ptrace_peek-word os pid s snap _ _ t.at_first,
    ptrace_peek_bytes-Holds os pid s snap _ _ _ t.whole t.fits t.table,
    t.pairs,
    t.first_is,
    t.lasti_is,
    line_loop-lines_until es t.rest 0 _ _ t.small (omega (arith, t.in_range)) t.in_range,
  )

  -- With a trace function it is the `int` that the frame holds.
  pub get_line-traced :
      (frame f_code trace lineno : ℕ)
      → Field mem frame l.f_trace trace
      → trace == 0 ≡ false
      → Field mem frame l.f_lineno lineno
      → get_line os l pid frame f_code s ≡ ok (low_bits lineno 31) s
  unfolding get_line
  get_line-traced frame f_code trace lineno a ne b =
      rw (ptrace_peek-word os pid s snap _ _ a, ne, ptrace_peek-word os pid s snap _ _ b)

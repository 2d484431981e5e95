-- ===== src/Frob/Stack/Chain.antt =====
-- FollowFrame on a chain of frames in the memory of a stopped interpreter.
use mathlib.Core.List.{append_assoc}
use pyflame.Common.{
  ℕ, zero, suc, ◌+◌, ◌≤◌, [], ◌∷◌, ◌++◌, true, false, ◌==◌, ◌≡◌, ap, ◌∙◌, arith, length, low_bits,
}
use pyflame.Exc.{State, ok}
use pyflame.Frame.{Frame, Frames}
use pyflame.Frob.Layout.{Version, Layout}
use pyflame.Frob.Lines.Read.{Field, LineTable, get_line-lines_until, get_line-traced}
use pyflame.Frob.Lines.{get_line}
use pyflame.Frob.Lines.Table.{Steps, lines_until}
use pyflame.Frob.Stack.{read_frame, follow_frame}
use pyflame.Frob.Strings.Read.{HasString, string_data-HasString}
use pyflame.Os.{Pid, Os, Memory, Snapshot}
use pyflame.Ptrace.Memory.{ptrace_peek-word}

-- The line of the frame at `addr` that runs `code`: that of the table where no trace function is
-- set, and otherwise the one that the frame holds.
pub data HasLine (l : Layout) (mem : Memory) (addr code line : ℕ) : Type 0 where
  untraced :
      {first lasti : ℕ} {steps : Steps}
      → LineTable l mem addr code first lasti steps
      → line ≡ first + lines_until lasti 0 steps
      → HasLine l mem addr code line
  traced :
      {trace lineno : ℕ}
      → Field mem addr l.f_trace trace
      → trace == 0 ≡ false
      → Field mem addr l.f_lineno lineno
      → line ≡ low_bits lineno 31
      → HasLine l mem addr code line

-- The frame object at `addr` stands for `f`, and its caller's frame is at `back`.
pub record FrameObject (v : Version) (l : Layout) (mem : Memory) (fuel addr : ℕ) (f : Frame)
    (back : ℕ) : Type 0 where
  pub code : ℕ
  pub filename : ℕ
  pub co_name : ℕ
  pub at_code : Field mem addr l.f_code code
  pub at_filename : Field mem code l.co_filename filename
  pub at_name : Field mem code l.co_name co_name
  pub at_back : Field mem addr l.f_back back
  pub file : HasString v l mem fuel filename f.file
  pub name : HasString v l mem fuel co_name f.name
  pub line : HasLine l mem addr code f.line

-- From `addr` the frames lead out to one that nothing called; `fs` is the innermost first.
pub data FrameChain (v : Version) (l : Layout) (mem : Memory) (fuel : ℕ) : ℕ → Frames → Type 0 where
  outermost :
      {addr back : ℕ} {f : Frame}
      → FrameObject v l mem fuel addr f back
      → (back == 0) ≡ true
      → FrameChain v l mem fuel addr (f ∷ [])
  called :
      {addr back : ℕ} {f : Frame} {fs : Frames}
      → FrameObject v l mem fuel addr f back
      → (back == 0) ≡ false
      → FrameChain v l mem fuel back fs
      → FrameChain v l mem fuel addr (f ∷ fs)

module _ {W : Type 0} (os : Os W) (pid : Pid) (v : Version) (l : Layout) (s : State W)
    {mem : Memory} (snap : Snapshot os pid s.world mem) (fuel : ℕ) where
  get_line-HasLine :
      (addr code line : ℕ)
      → HasLine l mem addr code line
      → get_line os l pid addr code s ≡ ok line s
  get_line-HasLine addr code line (untraced t e) = rw (get_line-lines_until os pid l s snap t, e)
  get_line-HasLine addr code line (traced {trace} {lineno} a set b e) =
      rw (get_line-traced os pid l s snap addr code trace lineno a set b, e)

  read_frame-FrameObject :
      (addr back : ℕ) (f : Frame)
      → FrameObject v l mem fuel addr f back
      → read_frame os v l fuel pid addr s ≡ ok (f, back) s
  unfolding read_frame
  read_frame-FrameObject addr back f o = rw (
    ptrace_peek-word os pid s snap _ _ o.at_code,
    ptrace_peek-word os pid s snap _ _ o.at_filename,
    string_data-HasString os pid v l s snap fuel _ _ o.file,
    ptrace_peek-word os pid s snap _ _ o.at_name,
    string_data-HasString os pid v l s snap fuel _ _ o.name,
    get_line-HasLine addr o.code f.line o.line,
    ptrace_peek-word os pid s snap _ _ o.at_back,
  )

  -- On a stopped process whose memory holds a chain of frame objects, FollowFrame appends their
  -- file names, function names and lines to the stack, the innermost first, and changes nothing; a
  -- depth that is no less than the number of frames is enough. The line of a frame is the one that
  -- it holds where a trace function is set, and otherwise that of a table of line steps that keeps
  -- the line in the range of `int`; its texts are string objects whose bytes end in a NUL, or
  -- compact ones of a known kind.
  pub follow_frame-FrameChain :
      (depth addr : ℕ) (stack fs : Frames)
      → FrameChain v l mem fuel addr fs
      → length fs ≤ depth
      → follow_frame os v l depth fuel pid addr stack s ≡ ok (stack ++ fs) s
  unfolding follow_frame
  follow_frame-FrameChain zero addr stack _ (outermost o top) enough = absurd (omega arith)
  follow_frame-FrameChain zero addr stack _ (called o more rest) enough = absurd (omega arith)
  follow_frame-FrameChain (suc depth) addr stack _ (outermost {back} {f} o top) enough =
      rw (read_frame-FrameObject addr back f o, top)
  follow_frame-FrameChain (suc depth) addr stack _ (called {back} {f} {fs} o more rest) enough =
      rw (read_frame-FrameObject addr back f o, more)
        (follow_frame-FrameChain depth back (stack ++ (f ∷ [])) fs rest (omega arith)
          ∙ ap (λ r. ok r s) (append_assoc stack (f ∷ []) fs))

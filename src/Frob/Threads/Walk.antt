-- ===== src/Frob/Threads/Walk.antt =====
-- GetThreads on the memory of a stopped interpreter.
use mathlib.Core.List.{append-nil, append_assoc}
use pyflame.Common.{
  ℕ, zero, suc, ◌<◌, ◌≤◌, true, false, List, [], ◌∷◌, ◌++◌, some, ◌==◌, ◌≡◌, ap, ◌∙◌, arith, length,
}
use pyflame.Exc.{State, ok}
use pyflame.Frob.Layout.{Version, Layout}
use pyflame.Frob.Lines.Read.{Field}
use pyflame.Frob.Stack.Chain.{FrameChain, follow_frame-FrameChain}
use pyflame.Frob.Threads.{find_istate, first_tstate, visit, walk, get_threads}
use pyflame.Os.{Pid, Os, Memory, Snapshot, word_of}
use pyflame.Ptrace.Memory.{ptrace_peek-word}
use pyflame.Symbol.Addresses.{PyAddresses}
use pyflame.Thread.{Thread}

module _ (v : Version) (l : Layout) (mem : Memory) (depth fuel current : ℕ) where
  -- The thread state at `addr` runs Python code, with the stack `fs`.
  pub record Running (addr : ℕ) (t : Thread) : Type 0 where
    pub frame_addr : ℕ
    pub at_id : Field mem addr l.thread_id t.id
    pub at_frame : Field mem addr l.frame frame_addr
    pub some_frame : frame_addr == 0 ≡ false
    pub chain : FrameChain v l mem fuel frame_addr t.frames
    pub shallow : length t.frames ≤ depth
    pub is_current : t.is_current ≡ (addr == current)

  -- From `addr` on the list has `n` thread states; `ts` are those that run Python code, in order.
  pub data ThreadList : ℕ → ℕ → List Thread → Type 0 where
    done : {addr : ℕ} → addr == 0 ≡ true → ThreadList zero addr []
    running :
        {n addr next : ℕ} {t : Thread} {ts : List Thread}
        → addr == 0 ≡ false
        → Running addr t
        → Field mem addr l.next next
        → ThreadList n next ts
        → ThreadList (suc n) addr (t ∷ ts)
    bare :
        {n addr next id : ℕ} {ts : List Thread}
        → addr == 0 ≡ false
        → Field mem addr l.thread_id id
        → Field mem addr l.frame 0
        → Field mem addr l.next next
        → ThreadList n next ts
        → ThreadList (suc n) addr ts

module _ (l : Layout) (mem : Memory) (current : ℕ) where
  -- How the interpreter state `istate` is known.
  pub data Known (addrs : PyAddresses) (istate : ℕ) : Type 0 where
    by_thread : current == 0 ≡ false → Field mem current l.interp istate → Known addrs istate
    by_head :
        current == 0 ≡ true
        → addrs.interp_head_addr == 0 ≡ false
        → word_of 8 mem addrs.interp_head_addr ≡ some istate
        → Known addrs istate
    by_hint :
        current == 0 ≡ true
        → addrs.interp_head_addr == 0 ≡ true
        → addrs.interp_head_hint ≡ istate
        → Known addrs istate

module _ {W : Type 0} (os : Os W) (pid : Pid) (v : Version) (l : Layout) (s : State W)
    {mem : Memory} (snap : Snapshot os pid s.world mem) (depth fuel current : ℕ) where
  visit-Running :
      (addr : ℕ) (t : Thread) (acc : List Thread)
      → Running v l mem depth fuel current addr t
      → visit os v l depth fuel pid current addr acc s ≡ ok (acc ++ (t ∷ [])) s
  unfolding visit
  visit-Running addr t acc r = rw (
    ptrace_peek-word os pid s snap _ _ r.at_id,
    ptrace_peek-word os pid s snap _ _ r.at_frame,
    r.some_frame,
    follow_frame-FrameChain os pid v l s snap fuel depth _ [] _ r.chain r.shallow,
    ← r.is_current,
  )

  visit-bare :
      (addr id : ℕ) (acc : List Thread)
      → Field mem addr l.thread_id id
      → Field mem addr l.frame 0
      → visit os v l depth fuel pid current addr acc s ≡ ok acc s
  unfolding visit
  visit-bare addr id acc a b =
      rw (ptrace_peek-word os pid s snap _ _ a, ptrace_peek-word os pid s snap _ _ b)

  walk-ThreadList :
      (rounds n addr : ℕ) (acc ts : List Thread)
      → ThreadList v l mem depth fuel current n addr ts
      → n < rounds
      → walk os v l depth fuel pid rounds true current addr acc s ≡ ok (acc ++ ts) s
  unfolding walk
  walk-ThreadList zero n addr acc ts list enough = absurd (omega arith)
  walk-ThreadList (suc rounds) _ addr acc _ (done e) enough = rw (e, append-nil acc)
  walk-ThreadList (suc rounds) _ addr acc _ (running {n} {next} {t} {ts} e r a rest) enough =
      rw (e, visit-Running addr t acc r, ptrace_peek-word os pid s snap _ _ a)
        (walk-ThreadList rounds n next (acc ++ (t ∷ [])) ts rest (omega arith)
          ∙ ap (λ r. ok r s) (append_assoc acc (t ∷ []) ts))
  walk-ThreadList (suc rounds) _ addr acc _ (bare {n} {next} {id} {ts} e a b c rest) enough =
      rw (e, visit-bare addr id acc a b, ptrace_peek-word os pid s snap _ _ c)
        (walk-ThreadList rounds n next acc ts rest (omega arith))

  find_istate-Known :
      (addrs : PyAddresses) (istate : ℕ)
      → Known l mem current addrs istate
      → find_istate os v l depth fuel pid addrs current s ≡ ok istate s
  unfolding find_istate
  find_istate-Known addrs istate (by_thread a b) = rw (a, ptrace_peek-word os pid s snap _ _ b)
  find_istate-Known addrs istate (by_head a b c) = rw (a, b, ptrace_peek-word os pid s snap _ _ c)
  find_istate-Known addrs istate (by_hint a b c) = rw (a, b, ← c) (ground arith)

  module _ (addrs : PyAddresses) (at_current : word_of 8 mem addrs.tstate_addr ≡ some current) where
    -- On a stopped process whose memory holds a list of `n` thread states, reached from the current
    -- thread state, from `interp_head` or from the hint, and whose frame chains are no longer than
    -- `depth`, GetThreads with --threads returns the threads that have a frame, in the order of the
    -- list, each with its id, its whole stack and the mark of the current thread, and changes
    -- nothing; more than `n` rounds are enough. The line of a frame is the one that it holds where
    -- a trace function is set, and otherwise that of a table of line steps that keeps the line in
    -- the range of `int`; its texts are string objects whose bytes end in a NUL, or compact ones of
    -- a known kind.
    pub get_threads-all :
        (rounds n istate head : ℕ) (ts : List Thread)
        → Known l mem current addrs istate
        → istate == 0 ≡ false
        → Field mem istate l.tstate_head head
        → ThreadList v l mem depth fuel current n head ts
        → n < rounds
        → get_threads os v l depth fuel pid rounds addrs true s ≡ ok ts s
    unfolding get_threads first_tstate
    get_threads-all rounds n istate head ts k some_istate a list enough = rw (
      ptrace_peek-word os pid s snap _ _ at_current,
      find_istate-Known addrs istate k,
      some_istate,
      ptrace_peek-word os pid s snap _ _ a,
      walk-ThreadList rounds n head [] ts list enough,
    )

    -- On a stopped process whose current thread state is not null and has a frame chain no longer
    -- than `depth`, GetThreads without --threads returns that thread only, and changes nothing.
    pub get_threads-current :
        (rounds : ℕ) (t : Thread)
        → current == 0 ≡ false
        → Running v l mem depth fuel current current t
        → get_threads os v l depth fuel pid (suc (suc rounds)) addrs false s ≡ ok (t ∷ []) s
    unfolding get_threads first_tstate walk
    get_threads-current rounds t e r =
        rw (ptrace_peek-word os pid s snap _ _ at_current, e, visit-Running current t [] r)

    -- On a stopped process whose current thread state is null, GetThreads without --threads returns
    -- no thread, and changes nothing.
    get_threads-idle :
        (rounds : ℕ)
        → current == 0 ≡ true
        → get_threads os v l depth fuel pid (suc rounds) addrs false s ≡ ok [] s
    unfolding get_threads first_tstate walk
    get_threads-idle rounds e = rw (ptrace_peek-word os pid s snap _ _ at_current, e)

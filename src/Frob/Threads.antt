-- ===== src/Frob/Threads.antt =====
-- GetThreads of src/frob.cc: the threads of the interpreter with their stacks.
pub mod Walk
pub mod Untouched
pub mod Full
use pyflame.Common.{ℕ, zero, suc, Bool, true, false, List, [], ◌∷◌, ◌++◌, not, ◌==◌, if◌then◌else◌}
use pyflame.Exc.{Cmd, pure, no_fuel, ◌>>=◌}
use pyflame.Frob.Layout.{Version, Layout, member}
use pyflame.Frob.Stack.{follow_frame}
use pyflame.Os.{Pid, Os}
use pyflame.Ptrace.{ptrace_peek}
use pyflame.Symbol.Addresses.{PyAddresses}
use pyflame.Thread.{Thread}

-- `rounds` bounds the threads, `depth` the frames of a stack, and `fuel` the words of a string.
module _ {W : Type 0} (os : Os W) (v : Version) (l : Layout) (depth fuel : ℕ) (pid : Pid) where
  -- The interpreter state, by the current thread, by `interp_head`, or by the hint; 0 if unknown.
  find_istate : PyAddresses → ℕ → Cmd W ℕ
  find_istate addrs tstate =
      if not (tstate == 0)
      then ptrace_peek os pid (member tstate l.interp)
      else if not (addrs.interp_head_addr == 0)
      then ptrace_peek os pid addrs.interp_head_addr
      else if not (addrs.interp_head_hint == 0)
      then pure addrs.interp_head_hint
      else pure 0

  -- The thread state from which the walk starts.
  first_tstate : PyAddresses → Bool → ℕ → Cmd W ℕ
  first_tstate addrs enable_threads tstate =
      if enable_threads
      then (do
        istate ← find_istate addrs tstate
        if not (istate == 0) then ptrace_peek os pid (member istate l.tstate_head) else pure tstate)
      else pure tstate

  -- The body of the loop up to `threads.push_back`.
  visit : ℕ → ℕ → List Thread → Cmd W (List Thread)
  visit current_tstate tstate threads = do
    id ← ptrace_peek os pid (member tstate l.thread_id)
    frame_addr ← ptrace_peek os pid (member tstate l.frame)
    if frame_addr == 0 then pure threads else (do
      stack ← follow_frame os v l depth fuel pid frame_addr []
      pure (
          threads
          ++ (record { id = id; is_current = tstate == current_tstate; frames = stack } ∷ [])))

  walk : ℕ → Bool → ℕ → ℕ → List Thread → Cmd W (List Thread)
  walk zero enable_threads current_tstate tstate threads = no_fuel
  walk (suc rounds) enable_threads current_tstate tstate threads =
      if tstate == 0 then pure threads else (do
        threads' ← visit current_tstate tstate threads
        next ← (if enable_threads then ptrace_peek os pid (member tstate l.next) else pure 0)
        walk rounds enable_threads current_tstate next threads')

  pub get_threads : ℕ → PyAddresses → Bool → Cmd W (List Thread)
  get_threads rounds addrs enable_threads = do
    tstate ← ptrace_peek os pid addrs.tstate_addr
    first ← first_tstate addrs enable_threads tstate
    walk rounds enable_threads tstate first []

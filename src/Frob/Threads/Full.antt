-- ===== src/Frob/Threads/Full.antt =====
-- The threads that GetThreads returns have a stack, whatever the memory holds.
use pyflame.Common.{ℕ, zero, suc, Bool, List, [], ◌==◌, All, All-append, if◌then◌else◌}
use pyflame.Exc.Post.{Ensures, Ensures-resume, Ensures-if, Ensures-any}
use pyflame.Exc.{State, pure}
use pyflame.Frob.Layout.{Version, Layout, member}
use pyflame.Frob.Stack.Full.{follow_frame-HasFrames}
use pyflame.Frob.Stack.{follow_frame}
use pyflame.Frob.Threads.{first_tstate, visit, walk, get_threads}
use pyflame.Os.{Os, Pid}
use pyflame.Prober.Report.Buckets.{HasFrames}
use pyflame.Ptrace.{ptrace_peek}
use pyflame.Symbol.Addresses.{PyAddresses}
use pyflame.Thread.{Thread}

abbrev pub AllFull : List Thread → Type 0
AllFull = All (λ (t : Thread). HasFrames t.frames)

module _ {W : Type 0} (os : Os W) (v : Version) (l : Layout) (depth fuel : ℕ) (pid : Pid) where
  visit-AllFull :
      (c t : ℕ) (threads : List Thread) (s : State W)
      → AllFull threads
      → Ensures AllFull (visit os v l depth fuel pid c t threads s)
  unfolding visit
  visit-AllFull c t threads s full =
      Ensures-resume (λ _. Unit) AllFull (ptrace_peek os pid (member t l.thread_id) s) _
        (Ensures-any (ptrace_peek os pid (member t l.thread_id) s))
        (λ id u _.
          Ensures-resume (λ _. Unit) AllFull (ptrace_peek os pid (member t l.frame) u) _
            (Ensures-any (ptrace_peek os pid (member t l.frame) u))
            (λ frame x _.
              Ensures-if AllFull (frame == 0) _ _ x (λ _. full)
                (λ _.
                  Ensures-resume HasFrames AllFull (follow_frame os v l depth fuel pid frame [] x) _
                    (follow_frame-HasFrames os v l depth fuel pid frame [] x)
                    (λ stack y h. All-append _ threads _ full (h, tt)))))

  walk-AllFull :
      (rounds : ℕ) (b : Bool) (c t : ℕ) (threads : List Thread) (s : State W)
      → AllFull threads
      → Ensures AllFull (walk os v l depth fuel pid rounds b c t threads s)
  unfolding walk
  walk-AllFull zero b c t threads s full = tt
  walk-AllFull (suc rounds) b c t threads s full =
      let ih = λ (n : ℕ) (ts : List Thread) (u : State W) (h : AllFull ts).
        walk-AllFull rounds b c n ts u h in
      Ensures-if AllFull (t == 0) _ _ s (λ _. full)
        (λ _.
          Ensures-resume AllFull AllFull (visit os v l depth fuel pid c t threads s) _
            (visit-AllFull c t threads s full)
            (λ ts u h.
              Ensures-resume (λ _. Unit) AllFull
                ((if b then ptrace_peek os pid (member t l.next) else pure 0) u) _ (Ensures-any _)
                (λ n x _. ih n ts x h)))

  -- comment
  pub get_threads-AllFull :
      (rounds : ℕ) (addrs : PyAddresses) (enable_threads : Bool) (s : State W)
      → Ensures AllFull (get_threads os v l depth fuel pid rounds addrs enable_threads s)
  unfolding get_threads
  get_threads-AllFull rounds addrs b s =
      Ensures-resume (λ _. Unit) AllFull (ptrace_peek os pid addrs.tstate_addr s) _
        (Ensures-any (ptrace_peek os pid addrs.tstate_addr s))
        (λ t u _.
          Ensures-resume (λ _. Unit) AllFull (first_tstate os v l depth fuel pid addrs b t u) _
            (Ensures-any (first_tstate os v l depth fuel pid addrs b t u))
            (λ first x _. walk-AllFull rounds b t first [] x tt))

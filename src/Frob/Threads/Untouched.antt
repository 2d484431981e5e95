-- ===== src/Frob/Threads/Untouched.antt =====
-- Reading the threads of a stopped process changes nothing, whatever its memory holds.
use pyflame.Common.{ℕ, zero, suc, Bool, List, ◌≡◌, refl, ap, ◌∙◌}
use pyflame.Exc.Keeps.{Keeps, keeps_rules}
use pyflame.Exc.{State}
use pyflame.Os.{Os, Pid, Memory, Snapshot, peekdata}
use pyflame.Exc.Post.{Ends}
use pyflame.Frob.Layout.{Version, Layout}
use pyflame.Frob.Stack.Untouched.{follow_frame-Keeps}
use pyflame.Frob.Threads.{find_istate, first_tstate, visit, walk, get_threads}
use pyflame.Ptrace.Untouched.{peek-Keeps}
use pyflame.Symbol.Addresses.{PyAddresses}
use pyflame.Thread.{Thread}

-- PTRACE_PEEKDATA keeps `P`.
module _ {W : Type 0} (os : Os W) (pid : Pid) (P : State W → Type 0)
    (peeks : (a : ℕ) (s : State W)
      → P s
      → P (record s { world = (os.ptrace (peekdata a) pid s.world).1 }))
    (v : Version) (l : Layout) (depth fuel : ℕ) where
  find_istate-Keeps :
      (addrs : PyAddresses) (t : ℕ) → Keeps P (find_istate os v l depth fuel pid addrs t)
  unfolding find_istate
  find_istate-Keeps addrs t = search (keeps_rules, peek-Keeps os pid P peeks) depth 12

  first_tstate-Keeps :
      (addrs : PyAddresses) (b : Bool) (t : ℕ)
      → Keeps P (first_tstate os v l depth fuel pid addrs b t)
  unfolding first_tstate
  first_tstate-Keeps addrs b t =
      search (keeps_rules, peek-Keeps os pid P peeks, find_istate-Keeps) depth 12

  visit-Keeps :
      (c t : ℕ) (threads : List Thread) → Keeps P (visit os v l depth fuel pid c t threads)
  unfolding visit
  visit-Keeps c t threads =
      search (keeps_rules, peek-Keeps os pid P peeks, follow_frame-Keeps os pid P peeks v l) depth
        12

  walk-Keeps :
      (rounds : ℕ) (b : Bool) (c t : ℕ) (threads : List Thread)
      → Keeps P (walk os v l depth fuel pid rounds b c t threads)
  unfolding walk
  walk-Keeps zero b c t threads = search keeps_rules
  walk-Keeps (suc rounds) b c t threads =
      let ih = λ (n : ℕ) (ts : List Thread). walk-Keeps rounds b c n ts in
      search (keeps_rules, peek-Keeps os pid P peeks, visit-Keeps) depth 12

  get_threads-Keeps :
      (rounds : ℕ) (addrs : PyAddresses) (b : Bool)
      → Keeps P (get_threads os v l depth fuel pid rounds addrs b)
  unfolding get_threads
  get_threads-Keeps rounds addrs b =
      search (keeps_rules, peek-Keeps os pid P peeks, first_tstate-Keeps, walk-Keeps) depth 12

module _ {W : Type 0} (os : Os W) (v : Version) (l : Layout) (depth fuel : ℕ) (pid : Pid)
    (mem : Memory) (s : State W) (snapshot : Snapshot os pid s.world mem) where
  -- On a stopped process, whatever its memory holds, when GetThreads returns or throws, the state
  -- of the process, of the operating system and of Pyflame is the one from before.
  pub get_threads-untouched :
      (rounds : ℕ) (addrs : PyAddresses) (enable_threads : Bool)
      → Ends
          (Unit {0})
          (λ _ t. t ≡ s)
          (λ t. t ≡ s)
          (get_threads os v l depth fuel pid rounds addrs enable_threads s)
  get_threads-untouched rounds addrs enable_threads =
      (get_threads-Keeps os pid (λ t. t ≡ s) same v l depth fuel rounds addrs enable_threads).at s
        refl
    where
      same :
          (a : ℕ) (t : State W)
          → t ≡ s
          → record t { world = (os.ptrace (peekdata a) pid t.world).1 } ≡ s
      same a t e =
          ap (λ (u : State W). record u { world = (os.ptrace (peekdata a) pid u.world).1 }) e
          ∙ ap (λ w. record s { world = w }) (snapshot.same a)

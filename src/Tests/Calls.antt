-- ===== src/Tests/Calls.antt =====
-- Calls in a traced process that lives: its registers, and its memory by the word.
use pyflame.Common.Int.{pos, int_eq, int_eq_refl}
use pyflame.Common.{
  ℕ, ◌+◌, Bool, true, false, List, arith, text_eq, stoi, some, [], ◌∷◌, ◌≡◌, refl, ◌==◌,
  if◌then◌else◌, codes, ==_iff,
}
use pyflame.Exc.Post.{Returns}
use pyflame.Exc.{State}
use pyflame.Os.{
  Regs, Request, setregs, getregs, peekdata, pokedata, attach, detach, singlestep, cont, Pid, Reply,
  Os,
}
use pyflame.Ptrace.Call.Restores.{
  Live, Detaches, alloc_page-Live, ptrace_call_function-Live, ptrace_cleanup-Detaches,
}
use pyflame.Ptrace.Call.Restores.First.{OthersAre, ptrace_call_function-Resumed}
use pyflame.Ptrace.Call.Restores.Threads.{Threads, Others}
use pyflame.Ptrace.Call.{task_ids, alloc_page, ptrace_call_function, ptrace_cleanup}
use pyflame.Ptrace.Wait.{stop_status}
use pyflame.Ptrace.{wifstopped, wstopsig}
use pyflame.Tests.Sim.{no_regs}

pub record Machine : Type 0 where
  pub registers : Regs
  pub words : ℕ → ℕ
  -- The threads that are attached.
  pub held : Pid → Bool

abbrev pub reply : ℕ → Regs → Reply
reply v r = record { ret = v; errno = 0; regs = r }

abbrev pub act : Request → Pid → Machine → Reply × Machine
act getregs pid m = (reply 0 m.registers, m)
act (setregs r) pid m = (reply 0 no_regs, record m { registers = r })
act (peekdata a) pid m = (reply (m.words a) no_regs, m)
act (pokedata a v) pid m =
    (reply 0 no_regs, record m { words = λ b. if b == a then v else m.words b })
act singlestep pid m =
    (reply 0 no_regs, record m { registers = record m.registers { rax = 0x9000 } })
act cont pid m = (reply 0 no_regs, record m { registers = record m.registers { rax = 42 } })
act attach pid m =
    (reply 0 no_regs, record m { held = λ t. if int_eq t pid then true else m.held t })
act detach pid m =
    (reply 0 no_regs, record m { held = λ t. if int_eq t pid then false else m.held t })
act _ pid m = (reply 0 no_regs, m)

abbrev pub machine : Os Machine
machine = record {
  ptrace = act;
  waitpid = λ pid options m. (record { progeny = pid; status = stop_status 5 0; errno = 0 }, m);
  raise_signal = λ signum m. m;
  getpid = λ m. pos 1;
  strerror = λ errno. [];
  now = λ m. (0, m);
  sleep_for = λ ns m. m;
  open_output = λ path m. (true, m);
  write_output = λ path t m. m;
  list_task = λ pid m. some (codes "." ∷ codes ".." ∷ codes "2" ∷ codes "3" ∷ []);
}

abbrev pub running : ℕ → State Machine
running probe = record {
  world = record {
    registers = record no_regs { rip = 0x400 };
    words = λ a. a + 1;
    held = λ t. false;
  };
  probe = probe;
  cout = [];
  cerr = [];
}

read_back : (a v w : ℕ) → (if a == a then v else w) ≡ v
read_back a v w = rw ((==_iff a a).1 refl)

lives :
    (quiet : Machine → Type 0)
    → ((r : Regs) (m : Machine) → quiet m → quiet (act (setregs r) (pos 2) m).1)
    → ((a v : ℕ) (m : Machine) → quiet m → quiet (act (pokedata a v) (pos 2) m).1)
    → Live machine (pos 2) (λ m. m.registers) (λ m. m.words) quiet
unfolding wifstopped wstopsig
lives quiet set poke = record {
  get_ret = λ w. refl;
  get_regs = λ w. refl;
  get_same = λ w. refl;
  set_ret = λ r w. refl;
  set_regs = λ r w. refl;
  set_word = λ r w a. refl;
  peek_ret = λ a w. refl;
  peek_errno = λ a w. refl;
  peek_same = λ a w. refl;
  poke_ret = λ a v w. refl;
  poke_word = λ a v w. read_back a v (w.words a);
  poke_regs = λ a v w. refl;
  step_ret = λ w q. refl;
  set_quiet = set;
  poke_quiet = poke;
  cont_ret = λ w. refl;
  stops = λ w. record { progeny = refl; stopped = refl; signal = refl };
}

live : Live machine (pos 2) (λ m. m.registers) (λ m. m.words) (λ m. Unit)
live = lives (λ m. Unit) (λ r m q. tt) (λ a v m q. tt)

alloc_page-Live_example :
    Returns
      (λ _ t.
        (t.world.registers ≡ (running 0).world.registers)
        × (t.world.words 0x400 ≡ (running 0).world.words 0x400)
        × (t.probe ≡ 0))
      (alloc_page machine 4096 1 (pos 2) (running 0))
alloc_page-Live_example =
    alloc_page-Live machine (pos 2) (λ m. m.registers) (λ m. m.words) (λ m. Unit) live refl 4096 0
      (running 0) tt

ptrace_call_function-Live_example :
    Returns
      (λ _ t. (t.world.registers ≡ (running 0x9000).world.registers) × (t.probe ≡ 0x9000))
      (ptrace_call_function machine 4096 1 (pos 2) 0x5000 (running 0x9000))
ptrace_call_function-Live_example =
    ptrace_call_function-Live machine (pos 2) (λ m. m.registers) (λ m. m.words) (λ m. Unit) live
      refl 4096 0 0x5000 (running 0x9000) refl

ptrace_cleanup-Detaches_example :
    Detaches machine (pos 2) (ptrace_cleanup machine 4096 1 3 (pos 2) (running 0x9000))
ptrace_cleanup-Detaches_example = ptrace_cleanup-Detaches machine (pos 2) 4096 1 3 (running 0x9000)

-- The threads of the process, the first of which is its own.
abbrev tids : List Pid
tids = pos 2 ∷ pos 3 ∷ []

threads : Threads machine (pos 2) (λ m. m.registers) tids (λ m. m.held)
unfolding task_ids text_eq codes stoi wifstopped
threads = record {
  names = codes "." ∷ codes ".." ∷ codes "2" ∷ codes "3" ∷ [];
  listed = λ w. refl;
  numbers = refl;
  attach_ret = λ t w. refl;
  attach_progeny = λ t w. int_eq_refl t;
  attach_stopped = λ t w. refl;
  attach_pauses = λ t w. rw (int_eq_refl t);
  attach_others = λ t u w h. ground arith;
  attach_regs = λ t w. refl;
  detach_ret = λ t w. refl;
  detach_frees = λ t w. rw (int_eq_refl t);
  detach_others = λ t u w h. ground arith;
  detach_regs = λ t w. refl;
  set_others = λ r u w. refl;
  poke_others = λ a v u w. refl;
  cont_others = λ u w. refl;
  wait_others = λ u w. refl;
}

ptrace_call_function-Resumed_example :
    Returns
      (λ _ t.
        (t.world.registers ≡ (running 0).world.registers)
        × Others machine (pos 2) (λ m. m.registers) tids (λ m. m.held) false tids t.world)
      (ptrace_call_function machine 4096 1 (pos 2) 0x5000 (running 0))
ptrace_call_function-Resumed_example =
    ptrace_call_function-Resumed machine (pos 2) (λ m. m.registers) tids (λ m. m.held) threads
      (λ m. m.words)
      (lives (OthersAre machine (pos 2) (λ m. m.registers) tids (λ m. m.held) true) (λ r m q. q)
        (λ a v m q. q))
      refl 4096 0 0x5000 (running 0) refl

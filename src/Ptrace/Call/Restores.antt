-- ===== src/Ptrace/Call/Restores.antt =====
-- What the functions that run code in the traced process leave behind.
pub mod Threads
pub mod First
use pyflame.Common.Int.{negsuc, int_eq, int_eq_refl}
use pyflame.Common.{ℕ, suc, Bool, true, false, ◌&&◌, ◌≡◌, refl, ◌∙◌, ◌==◌, Bool-cases, inl, inr}
use pyflame.Exc.Post.{Returns}
use pyflame.Exc.{State, Run, ok, throw, undefined, out_of_fuel, resume, catch_run}
use pyflame.Os.{
  Pid, Regs, Request, Os, getregs, setregs, peekdata, pokedata, singlestep, cont, detach,
}
use pyflame.Ptrace.Call.{
  alloc_page, call_probe, ptrace_call_function, ptrace_cleanup, get_probe, free_page, mmap_regs,
  syscall_x86,
}
use pyflame.Ptrace.Wait.{Stops}
use pyflame.Ptrace.{
  request, sigtrap, ptrace_get_regs, ptrace_set_regs, ptrace_peek, ptrace_poke, ptrace_cont,
  ptrace_single_step, safe_detach, do_wait,
}

and_false : (b : Bool) → (b && false) ≡ false
and_false true = refl
and_false false = refl

module _ {W : Type 0} (os : Os W) (pid : Pid) (regs : W → Regs) (word : W → ℕ → ℕ)
    (quiet : W → Type 0) where
  -- The documented behaviour of the requests on a process that lives, with its registers and its
  -- memory by the word: they succeed, and each wait finds it stopped by SIGTRAP; a single step only
  -- where the process is `quiet`, which other requests leave it.
  pub record Live : Type 0 where
    pub get_ret : (w : W) → (os.ptrace getregs pid w).0.ret ≡ 0
    pub get_regs : (w : W) → (os.ptrace getregs pid w).0.regs ≡ regs w
    pub get_same : (w : W) → (os.ptrace getregs pid w).1 ≡ w
    pub set_ret : (r : Regs) (w : W) → (os.ptrace (setregs r) pid w).0.ret ≡ 0
    pub set_regs : (r : Regs) (w : W) → regs (os.ptrace (setregs r) pid w).1 ≡ r
    pub set_word : (r : Regs) (w : W) (a : ℕ) → word (os.ptrace (setregs r) pid w).1 a ≡ word w a
    pub peek_ret : (a : ℕ) (w : W) → (os.ptrace (peekdata a) pid w).0.ret ≡ word w a
    pub peek_errno : (a : ℕ) (w : W) → (os.ptrace (peekdata a) pid w).0.errno ≡ 0
    pub peek_same : (a : ℕ) (w : W) → (os.ptrace (peekdata a) pid w).1 ≡ w
    pub poke_ret : (a v : ℕ) (w : W) → (os.ptrace (pokedata a v) pid w).0.ret ≡ 0
    pub poke_word : (a v : ℕ) (w : W) → word (os.ptrace (pokedata a v) pid w).1 a ≡ v
    pub poke_regs : (a v : ℕ) (w : W) → regs (os.ptrace (pokedata a v) pid w).1 ≡ regs w
    pub step_ret : (w : W) → quiet w → (os.ptrace singlestep pid w).0.ret ≡ 0
    pub set_quiet : (r : Regs) (w : W) → quiet w → quiet (os.ptrace (setregs r) pid w).1
    pub poke_quiet : (a v : ℕ) (w : W) → quiet w → quiet (os.ptrace (pokedata a v) pid w).1
    pub cont_ret : (w : W) → (os.ptrace cont pid w).0.ret ≡ 0
    pub stops : (w : W) → Stops os pid 0 sigtrap (os.waitpid pid 0 w).0

  pub after : Request → W → W
  after r w = (os.ptrace r pid w).1

  module _ (live : Live) (real : int_eq pid (negsuc 0) ≡ false) where
    pub get_regs-Live : (s : State W) → ptrace_get_regs os pid s ≡ ok (regs s.world) s
    unfolding ptrace_get_regs
    get_regs-Live s =
        rw (live.get_ret s.world)
          (λ i. ok (live.get_regs s.world i) (record s { world = live.get_same s.world i }))

    peek-Live : (a : ℕ) (s : State W) → ptrace_peek os pid a s ≡ ok (word s.world a) s
    unfolding ptrace_peek
    peek-Live a s =
        rw (live.peek_errno a s.world, and_false)
          (λ i. ok (live.peek_ret a s.world i) (record s { world = live.peek_same a s.world i }))

    set_regs-Live :
        (r : Regs) (s : State W)
        → ptrace_set_regs os pid r s ≡ ok tt (record s { world = after (setregs r) s.world })
    unfolding ptrace_set_regs request after
    set_regs-Live r s = rw (live.set_ret r s.world)

    pub poke-Live :
        (a v : ℕ) (s : State W)
        → ptrace_poke os pid a v s ≡ ok tt (record s { world = after (pokedata a v) s.world })
    unfolding ptrace_poke request after
    poke-Live a v s = rw (live.poke_ret a v s.world)

    cont-Live :
        (s : State W) → ptrace_cont os pid s ≡ ok tt (record s { world = after cont s.world })
    unfolding ptrace_cont after
    cont-Live s = rw (live.cont_ret s.world)

    do_wait-Live :
        (fuel : ℕ) (s : State W)
        → do_wait os (suc fuel) pid 0 s
          ≡ ok
              (os.waitpid pid 0 s.world).0.status
              (record s { world = (os.waitpid pid 0 s.world).1 })
    unfolding do_wait
    do_wait-Live fuel s =
        let stop = live.stops s.world in
        rw (stop.progeny, real, int_eq_refl pid, stop.stopped, stop.signal)

    single_step-Live :
        (fuel : ℕ) (s : State W)
        → quiet s.world
        → ptrace_single_step os (suc fuel) pid s
          ≡ ok tt (record s { world = (os.waitpid pid 0 (after singlestep s.world)).1 })
    unfolding ptrace_single_step after
    single_step-Live fuel s q =
        rw (
          live.step_ret s.world q,
          do_wait-Live fuel (record s { world = after singlestep s.world }),
        )

    -- On a process that lives, so that every request succeeds and every wait finds a stop by
    -- SIGTRAP, whose PID is not -1, and that is in a condition under which a single step succeeds
    -- and which setting registers and writing words keep, AllocPage returns; the registers are then
    -- those from before, and so are the word at the instruction pointer and `probe_`; one round of
    -- waiting is enough.
    pub alloc_page-Live :
        (page_size fuel : ℕ) (s : State W)
        → quiet s.world
        → Returns
            (λ _ t.
              (regs t.world ≡ regs s.world)
              × (word t.world (regs s.world).rip ≡ word s.world (regs s.world).rip)
              × (t.probe ≡ s.probe))
            (alloc_page os page_size (suc fuel) pid s)
    unfolding alloc_page after
    alloc_page-Live page_size fuel s q =
        let rip = (regs s.world).rip in
        let w1 = after (pokedata rip syscall_x86) s.world in
        let w2 = after (setregs (mmap_regs page_size (regs s.world))) w1 in
        let w3 = (os.waitpid pid 0 (after singlestep w2)).1 in
        let w4 = after (setregs (regs s.world)) w3 in
        rw
          (
            get_regs-Live s,
            peek-Live rip s,
            poke-Live rip syscall_x86 s,
            set_regs-Live (mmap_regs page_size (regs s.world)) (record s { world = w1 }),
            single_step-Live fuel (record s { world = w2 })
                (live.set_quiet (mmap_regs page_size (regs s.world)) w1
                  (live.poke_quiet rip syscall_x86 s.world q)),
            get_regs-Live (record s { world = w3 }),
            set_regs-Live (regs s.world) (record s { world = w3 }),
            poke-Live rip (word s.world rip) (record s { world = w4 }),
          )
          (
            live.poke_regs rip (word s.world rip) w4 ∙ live.set_regs (regs s.world) w3,
            live.poke_word rip (word s.world rip) w4,
            refl,
          )

    -- The world behind a call of the function at `addr`, before the registers are set back.
    pub called : ℕ → State W → W
    called addr s =
        (os.waitpid pid 0 (
          after cont
            (after (setregs (record (regs s.world) { rax = addr; rip = s.probe })) s.world))).1

    pub call_probe-Live :
        (page_size fuel addr : ℕ) (s : State W)
        → call_probe os page_size (suc fuel) pid addr s
          ≡ ok
              (regs (called addr s)).rax
              (record s { world = after (setregs (regs s.world)) (called addr s) })
    unfolding call_probe get_probe after called
    call_probe-Live page_size fuel addr s =
        let call = record (regs s.world) { rax = addr; rip = s.probe } in
        let w1 = after (setregs call) s.world in
        let w2 = after cont w1 in
        let w3 = (os.waitpid pid 0 w2).1 in
        rw (
          get_regs-Live s,
          set_regs-Live call s,
          cont-Live (record s { world = w1 }),
          do_wait-Live fuel (record s { world = w2 }),
          get_regs-Live (record s { world = w3 }),
          set_regs-Live (regs s.world) (record s { world = w3 }),
        )

    -- On a process that lives, so that every request succeeds and every wait finds a stop by
    -- SIGTRAP, and whose PID is not -1, PtraceCallFunction returns where the trampoline is there
    -- already, and the registers are then those from before; one round of waiting is enough.
    pub ptrace_call_function-Live :
        (page_size fuel addr : ℕ) (s : State W)
        → s.probe == 0 ≡ false
        → Returns
            (λ _ t. (regs t.world ≡ regs s.world) × (t.probe ≡ s.probe))
            (ptrace_call_function os page_size (suc fuel) pid addr s)
    unfolding ptrace_call_function get_probe after
    ptrace_call_function-Live page_size fuel addr s ready =
        rw (ready, call_probe-Live page_size fuel addr s)
          (live.set_regs (regs s.world) (called addr s), refl)

module _ {W : Type 0} (os : Os W) (pid : Pid) where
  -- A run that throws nothing, and that returns by way of PTRACE_DETACH.
  unfoldable pub Detaches : Run W (Unit {0}) → Type 0
  Detaches (ok a t) = (s : State W) × (t ≡ record s { world = (os.ptrace detach pid s.world).1 })
  Detaches (throw e t) = ⊥
  Detaches undefined = Unit
  Detaches out_of_fuel = Unit

  caught :
      (r : Run W (Unit {0}))
      → Detaches (resume (catch_run r (λ e u. ok tt u)) (λ _. safe_detach os pid))
  unfolding Detaches safe_detach
  caught (ok a t) = (t, refl)
  caught (throw e t) = (t, refl)
  caught undefined = tt
  caught out_of_fuel = tt

  -- Whatever the process and the operating system do, PtraceCleanup throws nothing, and where it
  -- returns it has detached from the process last.
  pub ptrace_cleanup-Detaches :
      (page_size fuel rounds : ℕ) (s : State W)
      → Detaches (ptrace_cleanup os page_size fuel rounds pid s)
  unfolding ptrace_cleanup Detaches get_probe safe_detach
  ptrace_cleanup-Detaches page_size fuel rounds s = elim (Bool-cases (s.probe == 0)) [
    | inl e ↦ rw e (s, refl)
    | inr e ↦ rw e (caught (free_page os page_size fuel rounds pid s))
  ]

  -- Where no page was allocated, PtraceCleanup only detaches.
  pub ptrace_cleanup-unused :
      (page_size fuel rounds : ℕ) (s : State W)
      → s.probe ≡ 0
      → ptrace_cleanup os page_size fuel rounds pid s
        ≡ ok tt (record s { world = (os.ptrace detach pid s.world).1 })
  unfolding ptrace_cleanup get_probe safe_detach
  ptrace_cleanup-unused page_size fuel rounds s unused = rw unused

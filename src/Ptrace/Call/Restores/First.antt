-- ===== src/Ptrace/Call/Restores/First.antt =====
-- The first call in the traced process, for which the other threads are stopped.
use pyflame.Common.Int.{negsuc, int_eq}
use pyflame.Common.{
  ℕ, suc, Bool, true, false, List, ◌≡◌, ◌∙◌, ◌==◌, inl, inr, Bool-cases, if◌then◌else◌,
}
use pyflame.Exc.Post.{Returns, Returns-map, Returns-resume}
use pyflame.Exc.{State, pure, ◌>>◌}
use pyflame.Os.{Pid, Regs, Os, minus_one}
use pyflame.Ptrace.Call.Restores.{Live, after, poke-Live, alloc_page-Live, called, call_probe-Live}
use pyflame.Ptrace.Call.{
  pause_child_threads, resume_child_threads, alloc_page, set_probe, get_probe, prepare_probe,
  call_probe, ptrace_call_function, trampoline,
}
use pyflame.Ptrace.{ptrace_poke}
use pyflame.Ptrace.Call.Restores.Threads.{
  Others, Threads, Paused, Others-map, pause-Paused, resume-Paused,
}

module _ {W : Type 0} (os : Os W) (pid : Pid) (regs : W → Regs) (tids : List Pid)
    (paused : W → Pid → Bool) where
  -- Each other thread is paused, or none is.
  abbrev pub OthersAre : Bool → W → Type 0
  OthersAre b w = Others os pid regs tids paused b tids w

  module _ (threads : Threads os pid regs tids paused) (word : W → ℕ → ℕ)
      (live : Live os pid regs word (OthersAre true)) (real : int_eq pid (negsuc 0) ≡ false) where
    abbrev Left : Bool → State W → State W → Type 0
    Left b s t = Paused os pid regs tids paused threads b tids s t

    -- The registers are those of `s`, and the other threads run.
    Resumed : State W → State W → Type 0
    Resumed s t = (regs t.world ≡ regs s.world) × OthersAre false t.world

    same_others :
        (v w : W) → ((u : Pid) → paused w u ≡ paused v u) → OthersAre false v → OthersAre false w
    same_others v w e = Others-map os pid regs tids paused false tids v w (λ u h. e u ∙ h)

    poked-Resumed :
        (s t : State W) (page : ℕ)
        → Resumed s t
        → Returns
            (λ _ u. Resumed s u)
            (((if page == minus_one
                then pure true
                else (do ptrace_poke os pid page trampoline; pure false)))
              t)
    unfolding Resumed after
    poked-Resumed s t page h = elim (Bool-cases (page == minus_one)) [
      | inl e ↦ rw e h
      | inr e ↦
          rw (e, poke-Live os pid regs word (OthersAre true) live real page trampoline t)
            (
              live.poke_regs page trampoline t.world ∙ h.0,
              same_others t.world _ (λ u. threads.poke_others page trampoline u t.world) h.1,
            )
    ]

    prepare-Resumed :
        (page_size fuel : ℕ) (s : State W)
        → Returns (λ _ t. Resumed s t) (prepare_probe os page_size (suc fuel) pid s)
    unfolding prepare_probe set_probe
    prepare-Resumed page_size fuel s =
        Returns-resume (λ _ t. Left true s t) _ (pause_child_threads os page_size (suc fuel) pid s)
          _ (pause-Paused os pid regs tids paused threads page_size (suc fuel) s)
          (λ _ t h.
            Returns-resume (λ _ u. regs u.world ≡ regs t.world) _
              (alloc_page os page_size (suc fuel) pid t) _
              (Returns-map _ _ (alloc_page os page_size (suc fuel) pid t) (λ _ u k. k.0)
                (alloc_page-Live os pid regs word (OthersAre true) live real page_size fuel t h.0))
              (λ page u k.
                Returns-resume (λ _ v. Left false (record u { probe = page }) v) _
                  (resume_child_threads os page_size (suc fuel) pid (record u { probe = page })) _
                  (resume-Paused os pid regs tids paused threads page_size (suc fuel)
                    (record u { probe = page }))
                  (λ _ v r. poked-Resumed s v page (unfold Resumed in (r.2 ∙ k ∙ h.2, r.0)))))

    called-Resumed :
        (page_size fuel addr : ℕ) (s t : State W)
        → Resumed s t
        → Returns (λ _ u. Resumed s u) (call_probe os page_size (suc fuel) pid addr t)
    unfolding Resumed after called
    called-Resumed page_size fuel addr s t h =
        rw (call_probe-Live os pid regs word (OthersAre true) live real page_size fuel addr t) (
          live.set_regs (regs t.world) _ ∙ h.0,
          same_others t.world _
              (λ u.
                threads.set_others (regs t.world) u _
                ∙ threads.wait_others u _
                ∙ threads.cont_others u _
                ∙ threads.set_others _ u t.world)
              h.1,
        )

    -- On the first call, with a list of the threads of a process that lives, where waits find stops
    -- by SIGTRAP, PTRACE_ATTACH stops a thread and PTRACE_DETACH lets it run, and where a single
    -- step of the process is known to succeed only while every other thread is stopped,
    -- PtraceCallFunction returns; the registers are then those from before, and every other thread
    -- runs again; one round of waiting is enough. The PID is not -1.
    pub ptrace_call_function-Resumed :
        (page_size fuel addr : ℕ) (s : State W)
        → s.probe == 0 ≡ true
        → Returns
            (λ _ t. (regs t.world ≡ regs s.world) × OthersAre false t.world)
            (ptrace_call_function os page_size (suc fuel) pid addr s)
    unfolding ptrace_call_function get_probe Resumed
    ptrace_call_function-Resumed page_size fuel addr s first = rw first (
        Returns-resume (λ _ t. Resumed s t) _ (prepare_probe os page_size (suc fuel) pid s) _
          (prepare-Resumed page_size fuel s) (λ failed t h. behind failed t h))
      where
        behind :
            (failed : Bool) (t : State W)
            → Resumed s t
            → Returns
                (λ _ u. Resumed s u)
                ((if failed then pure minus_one else call_probe os page_size (suc fuel) pid addr) t)
        behind true t h = h
        behind false t h = called-Resumed page_size fuel addr s t h

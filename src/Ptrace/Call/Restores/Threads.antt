-- ===== src/Ptrace/Call/Restores/Threads.antt =====
-- The functions that stop the other threads of the traced process and let them run again.
use mathlib.Core.Path.{subst}
use pyflame.Common.Int.{int_eq}
use pyflame.Common.{
  ℕ, Text, Bool, true, false, some, List, [], ◌∷◌, All, ◌≡◌, refl, ◌∙◌, ◌⊎◌, inl, inr, Bool-cases,
}
use pyflame.Exc.Post.{Returns, Returns-map, Returns-resume}
use pyflame.Exc.{State, Cmd, ok, resume}
use pyflame.Os.{Pid, Regs, Os, attach, detach, setregs, pokedata, cont}
use pyflame.Ptrace.Call.{
  task_ids, list_threads, for_others, pause_child_threads, resume_child_threads,
}
use pyflame.Ptrace.{ptrace_attach, ptrace_detach, request, wall, wifstopped}

module _ {W : Type 0} (os : Os W) (pid : Pid) (regs : W → Regs) (tids : List Pid)
    (paused : W → Pid → Bool) where
  -- The worlds behind PtraceAttach and PtraceDetach.
  abbrev pub joined : Pid → W → W
  joined t w = (os.waitpid t wall (os.ptrace attach t w).1).1

  abbrev pub freed : Pid → W → W
  freed t w = (os.ptrace detach t w).1

  -- Every thread but `pid` is paused, or none is.
  abbrev pub Others : Bool → List Pid → W → Type 0
  Others b ts w = All (λ t. (int_eq t pid ≡ true) ⊎ (paused w t ≡ b)) ts

  -- The documented behaviour of the requests on the threads of the process, which are `tids`:
  -- PTRACE_ATTACH succeeds and stops a thread, PTRACE_DETACH lets it run, and neither changes another
  -- thread or the registers of `pid`; the requests on `pid` change no other thread.
  pub record Threads : Type 0 where
    pub names : List Text
    pub listed : (w : W) → os.list_task pid w ≡ some names
    pub numbers : task_ids names ≡ some tids
    pub attach_ret : (t : Pid) (w : W) → (os.ptrace attach t w).0.ret ≡ 0
    pub attach_progeny :
        (t : Pid) (w : W) → int_eq (os.waitpid t wall (os.ptrace attach t w).1).0.progeny t ≡ true
    pub attach_stopped :
        (t : Pid) (w : W) → wifstopped (os.waitpid t wall (os.ptrace attach t w).1).0.status ≡ true
    pub attach_pauses : (t : Pid) (w : W) → paused (joined t w) t ≡ true
    pub attach_others : (t u : Pid) (w : W) → paused w u ≡ true → paused (joined t w) u ≡ true
    pub attach_regs : (t : Pid) (w : W) → regs (joined t w) ≡ regs w
    pub detach_ret : (t : Pid) (w : W) → (os.ptrace detach t w).0.ret ≡ 0
    pub detach_frees : (t : Pid) (w : W) → paused (freed t w) t ≡ false
    pub detach_others : (t u : Pid) (w : W) → paused w u ≡ false → paused (freed t w) u ≡ false
    pub detach_regs : (t : Pid) (w : W) → regs (freed t w) ≡ regs w
    pub set_others :
        (r : Regs) (u : Pid) (w : W) → paused (os.ptrace (setregs r) pid w).1 u ≡ paused w u
    pub poke_others :
        (a v : ℕ) (u : Pid) (w : W) → paused (os.ptrace (pokedata a v) pid w).1 u ≡ paused w u
    pub cont_others : (u : Pid) (w : W) → paused (os.ptrace cont pid w).1 u ≡ paused w u
    pub wait_others : (u : Pid) (w : W) → paused (os.waitpid pid 0 w).1 u ≡ paused w u

  pub Others-map :
      (b : Bool) (ts : List Pid) (v w : W)
      → ((u : Pid) → paused v u ≡ b → paused w u ≡ b)
      → Others b ts v
      → Others b ts w
  Others-map b [] v w f h = tt
  Others-map b (t ∷ ts) v w f h =
      (elim (h.0) [ inl e ↦ inl e | inr e ↦ inr (f t e) ], Others-map b ts v w f h.1)

  module _ (threads : Threads) where
    list_threads-Threads :
        (page_size fuel : ℕ) (s : State W) → list_threads os page_size fuel pid s ≡ ok tids s
    unfolding list_threads
    list_threads-Threads page_size fuel s = rw (threads.listed s.world, threads.numbers)

    attach-Threads :
        (t : Pid) (s : State W)
        → ptrace_attach os t s ≡ ok tt (record s { world = joined t s.world })
    unfolding ptrace_attach request
    attach-Threads t s = rw (
      threads.attach_ret t s.world,
      threads.attach_progeny t s.world,
      threads.attach_stopped t s.world,
    )

    detach-Threads :
        (t : Pid) (s : State W)
        → ptrace_detach os t s ≡ ok tt (record s { world = freed t s.world })
    unfolding ptrace_detach request
    detach-Threads t s = rw (threads.detach_ret t s.world)

    -- What the loop over the threads leaves.
    abbrev pub Paused : Bool → List Pid → State W → State W → Type 0
    Paused b ts s t =
        Others b ts t.world
        × ((u : Pid) → paused s.world u ≡ b → paused t.world u ≡ b)
        × (regs t.world ≡ regs s.world)
        × (t.probe ≡ s.probe)

    for_others-same :
        (f : Pid → Cmd W (Unit {0})) (page_size fuel : ℕ) (t : Pid) (ts : List Pid) (s : State W)
        → int_eq t pid ≡ true
        → for_others os page_size fuel f pid ts s ≡ for_others os page_size fuel f pid (t ∷ ts) s
    unfolding for_others
    for_others-same f page_size fuel t ts s e = rw e refl

    for_others-other :
        (f : Pid → Cmd W (Unit {0})) (page_size fuel : ℕ) (t : Pid) (ts : List Pid) (s : State W)
        → int_eq t pid ≡ false
        → resume (f t s) (λ _. for_others os page_size fuel f pid ts)
          ≡ for_others os page_size fuel f pid (t ∷ ts) s
    unfolding for_others
    for_others-other f page_size fuel t ts s e = rw e refl

    for_others-Paused :
        (b : Bool) (f : Pid → Cmd W (Unit {0})) (page_size fuel : ℕ)
        → ((t : Pid) (s : State W)
            → Returns (λ _ u. (paused u.world t ≡ b) × Paused b [] s u) (f t s))
        → (ts : List Pid) (s : State W)
        → Returns (λ _ t. Paused b ts s t) (for_others os page_size fuel f pid ts s)
    for_others-Paused b f page_size fuel step [] s =
        unfold for_others in (tt, (λ u h. h), refl, refl)
    for_others-Paused b f page_size fuel step (t ∷ ts) s =
        let rest = λ (u : State W). for_others-Paused b f page_size fuel step ts u in
        elim (Bool-cases (int_eq t pid)) [
          | inl e ↦
              subst (Returns (λ _ u. Paused b (t ∷ ts) s u))
                (for_others-same f page_size fuel t ts s e)
                (Returns-map (λ _ u. Paused b ts s u) (λ _ u. Paused b (t ∷ ts) s u)
                  (for_others os page_size fuel f pid ts s) (λ _ u h. ((inl e, h.0), h.1, h.2, h.3))
                  (rest s))
          | inr e ↦
              subst (Returns (λ _ u. Paused b (t ∷ ts) s u))
                (for_others-other f page_size fuel t ts s e)
                (Returns-resume (λ _ u. (paused u.world t ≡ b) × Paused b [] s u)
                  (λ _ u. Paused b (t ∷ ts) s u) (f t s) _ (step t s)
                  (λ _ u h.
                    Returns-map (λ _ v. Paused b ts u v) (λ _ v. Paused b (t ∷ ts) s v)
                      (for_others os page_size fuel f pid ts u)
                      (λ _ v k. (
                        (inr (k.1 t h.0), k.0),
                        (λ x y. k.1 x (h.1.1 x y)),
                        k.2 ∙ h.1.2,
                        k.3 ∙ h.1.3,
                      ))
                      (rest u)))
        ]

    pub pause-Paused :
        (page_size fuel : ℕ) (s : State W)
        → Returns (λ _ t. Paused true tids s t) (pause_child_threads os page_size fuel pid s)
    unfolding pause_child_threads
    pause-Paused page_size fuel s = rw (list_threads-Threads page_size fuel s) (
        for_others-Paused true (ptrace_attach os) page_size fuel
          (λ t u. rw (attach-Threads t u) (
            threads.attach_pauses t u.world,
            (tt, (λ x h. threads.attach_others t x u.world h), threads.attach_regs t u.world, refl),
          ))
          tids s)

    pub resume-Paused :
        (page_size fuel : ℕ) (s : State W)
        → Returns (λ _ t. Paused false tids s t) (resume_child_threads os page_size fuel pid s)
    unfolding resume_child_threads
    resume-Paused page_size fuel s = rw (list_threads-Threads page_size fuel s) (
        for_others-Paused false (ptrace_detach os) page_size fuel
          (λ t u. rw (detach-Threads t u) (
            threads.detach_frees t u.world,
            (tt, (λ x h. threads.detach_others t x u.world h), threads.detach_regs t u.world, refl),
          ))
          tids s)

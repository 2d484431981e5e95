-- ===== src/Ptrace/Wait.antt =====
-- DoWait: what it returns and throws, for every sequence of stops that waitpid(2) may report.
use pyflame.Common.Int.{negsuc, decimal_ℤ, int_eq, int_eq_refl}
use pyflame.Common.{
  ℕ, zero, suc, ◌+◌, ◌*◌, ◌/◌, ◌%◌, ◌^◌, ◌<◌, Text, codes, decimal, ◌++◌, true, false, ◌==◌, ◌≡◌,
  refl, ◌↔◌, arith, ap, ◌∙◌,
}
use pyflame.Exc.{State, Run, terminate_exception, ptrace_exception, ok, throw}
use pyflame.Os.{Pid, Os, WaitReply, cont}
use pyflame.Ptrace.{
  sigtrap, sigchld, wifstopped, wstopsig, wifexited, wexitstatus, saw_event_exec, wait_message,
  stray_message, exit_message, code_message, ptrace_cont, do_wait,
}

-- A stop status carries 0x7f, the signal and an event; an exit status only the exit code.
abbrev pub stop_status : ℕ → ℕ → ℕ
stop_status signum event = 0x7f + 2 ^ 8 * signum + 2 ^ 16 * event

-- For every signal below 256 and every event, SawEventExec holds of the status of a stop by that
-- signal with that event exactly when they are SIGTRAP and PTRACE_EVENT_EXEC.
pub saw_event_exec_iff :
    (signum event : ℕ)
    → signum < 256
    → (saw_event_exec (stop_status signum event) ≡ true) ↔ ((signum ≡ sigtrap) × (event ≡ 4))
unfolding saw_event_exec
saw_event_exec_iff signum event h = (λ e. ground arith, λ e. ground arith)

-- What a TerminateException says of an exit: the process and the code.
pub exited_with : Pid → ℕ → Text
exited_with pid code =
    codes "Child process " ++ (decimal_ℤ pid ++ (codes " exited with status " ++ decimal code))

module _ {W : Type 0} (os : Os W) (pid : Pid) (options : ℕ) where
  -- The reply `r` is a stop of `pid` by the signal `signum`.
  pub record Stops (signum : ℕ) (r : WaitReply) : Type 0 where
    pub progeny : r.progeny ≡ pid
    pub stopped : wifstopped r.status ≡ true
    pub signal : wstopsig r.status ≡ signum

  -- From `w` on, `n` stops by SIGCHLD are reported and the process is continued from each; then
  -- waitpid(2) answers `r` and leaves `v`.
  pub data Waits : ℕ → W → WaitReply → W → Type 0 where
    answer :
        {w v : W} {r : WaitReply}
        → (os.waitpid pid options w).0 ≡ r
        → (os.waitpid pid options w).1 ≡ v
        → Waits zero w r v
    passed :
        {n : ℕ} {w u t v : W} {r : WaitReply}
        → Stops sigchld (os.waitpid pid options w).0
        → (os.waitpid pid options w).1 ≡ u
        → (os.ptrace cont pid u).0.ret ≡ 0
        → (os.ptrace cont pid u).1 ≡ t
        → Waits n t r v
        → Waits (suc n) w r v

  -- waitpid(2) failed, or `pid` stopped for another reason, or a signal ended it.
  pub data Unexpected (r : WaitReply) : Type 0 where
    failed : int_eq r.progeny (negsuc 0) ≡ true → Unexpected r
    stray :
        {signum : ℕ}
        → Stops signum r
        → signum == sigtrap ≡ false
        → signum == sigchld ≡ false
        → Unexpected r
    killed :
        r.progeny ≡ pid → wifstopped r.status ≡ false → wifexited r.status ≡ false → Unexpected r

  pub ptrace_cont-ok :
      (s : State W)
      → (os.ptrace cont pid s.world).0.ret ≡ 0
      → ptrace_cont os pid s ≡ ok tt (record s { world = (os.ptrace cont pid s.world).1 })
  unfolding ptrace_cont
  ptrace_cont-ok s e = rw e

  module _ (real : int_eq pid (negsuc 0) ≡ false) where
    -- The stops by SIGCHLD are passed over, and the last answer alone decides what `finish` is.
    do_wait-Waits :
        (finish : State W → Run W ℕ) (fuel n : ℕ) (s : State W) {w v : W} {r : WaitReply}
        → s.world ≡ w
        → Waits n w r v
        → n < fuel
        → ((f : ℕ) (t : State W)
            → (os.waitpid pid options t.world).0 ≡ r
            → do_wait os (suc f) pid options t
              ≡ finish (record t { world = (os.waitpid pid options t.world).1 }))
        → do_wait os fuel pid options s ≡ finish (record s { world = v })
    unfolding do_wait
    do_wait-Waits finish zero n s e w enough last = absurd (omega arith)
    do_wait-Waits finish (suc fuel) n s e (answer a b) enough last =
        last fuel s (rw e a) ∙ ap (λ w. finish (record s { world = w })) (rw e b)
    do_wait-Waits finish (suc fuel) _ s e (passed {n} {u} {t} chld b c d rest) enough last =
        rw
          (
            e,
            chld.progeny,
            real,
            int_eq_refl pid,
            chld.stopped,
            chld.signal,
            b,
            ptrace_cont-ok (record s { world = u }) c,
            d,
          )
          (do_wait-Waits finish fuel n (record s { world = t }) refl rest (omega arith) last)

    -- After any number of stops by SIGCHLD, each continued, a stop of the awaited process by
    -- SIGTRAP makes DoWait return its status, for a PID that is not -1; more rounds than stops by
    -- SIGCHLD are enough.
    pub do_wait-stop :
        (fuel n : ℕ) (s : State W) {v : W} {r : WaitReply}
        → Waits n s.world r v
        → n < fuel
        → Stops sigtrap r
        → do_wait os fuel pid options s ≡ ok r.status (record s { world = v })
    do_wait-stop fuel n s {r} waits enough stop =
        do_wait-Waits (ok r.status) fuel n s refl waits enough (last_stop stop)
      where
        last_stop :
            Stops sigtrap r
            → (f : ℕ) (t : State W) → (os.waitpid pid options t.world).0 ≡ r
            → do_wait os (suc f) pid options t
              ≡ ok r.status (record t { world = (os.waitpid pid options t.world).1 })
        last_stop stop f t a =
            unfold do_wait in rw (a, stop.progeny, real, int_eq_refl pid, stop.stopped, stop.signal)

    -- After any number of stops by SIGCHLD, each continued, the exit of the awaited process with a
    -- code below 256 makes DoWait throw a TerminateException that names the code, for a PID that is
    -- not -1; more rounds than stops by SIGCHLD are enough.
    pub do_wait-exit :
        (fuel n code : ℕ) (s : State W) {v : W} {r : WaitReply}
        → Waits n s.world r v
        → n < fuel
        → r.progeny ≡ pid
        → r.status ≡ 2 ^ 8 * code
        → code < 256
        → do_wait os fuel pid options s
          ≡ throw (terminate_exception (exited_with pid code)) (record s { world = v })
    unfolding do_wait exit_message exited_with wifstopped wifexited wexitstatus
    do_wait-exit fuel n code s waits enough same exited small =
        do_wait-Waits (throw (terminate_exception (exited_with pid code))) fuel n s refl waits
          enough (λ f t a. rw (a, same, exited, real, int_eq_refl pid, low, short, high))
      where
        low : (2 ^ 8 * code) % 2 ^ 8 ≡ 0
        low = omega arith

        short : (2 ^ 8 * code) % 2 ^ 7 ≡ 0
        short = omega arith

        high : (2 ^ 8 * code) / 2 ^ 8 % 2 ^ 8 ≡ code
        high = omega arith

    -- After any number of stops by SIGCHLD, each continued, a failure of waitpid(2), a stop by
    -- another signal or the death of the process by a signal makes DoWait throw a PtraceException,
    -- for a PID that is not -1; more rounds than stops by SIGCHLD are enough.
    pub do_wait-Unexpected :
        (fuel n : ℕ) (s : State W) {v : W} {r : WaitReply}
        → Waits n s.world r v
        → n < fuel
        → Unexpected r
        → (message : Text) × (do_wait os fuel pid options s
            ≡ throw (ptrace_exception message) (record s { world = v }))
    unfolding do_wait
    do_wait-Unexpected fuel n s {r} waits enough (failed a) = (
      wait_message os r.errno,
      do_wait-Waits (throw (ptrace_exception (wait_message os r.errno))) fuel n s refl waits enough
          (λ f t e. rw (e, a)),
    )
    do_wait-Unexpected fuel n s {r} waits enough (stray {signum} st a b) = (
      stray_message signum,
      do_wait-Waits (throw (ptrace_exception (stray_message signum))) fuel n s refl waits enough
          (λ f t e. rw (e, st.progeny, real, int_eq_refl pid, st.stopped, st.signal, a, b)),
    )
    do_wait-Unexpected fuel n s {r} waits enough (killed a b c) = (
      code_message pid r.status,
      do_wait-Waits (throw (ptrace_exception (code_message pid r.status))) fuel n s refl waits
          enough (λ f t e. rw (e, a, real, int_eq_refl pid, b, c)),
    )

  -- Whatever waitpid(2) reports, a status that DoWait returns is a stop by SIGTRAP.
  pub do_wait-ok :
      (fuel status : ℕ) (s t : State W)
      → do_wait os fuel pid options s ≡ ok status t
      → (wifstopped status ≡ true) × (wstopsig status ≡ sigtrap)
  unfolding do_wait ptrace_cont
  do_wait-ok zero status s t h = ground arith
  do_wait-ok (suc fuel) status s t h =
      let w = (os.waitpid pid options s.world).1 in
      ground (arith, do_wait-ok fuel status (record s { world = (os.ptrace cont pid w).1 }) t)

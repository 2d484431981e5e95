-- ===== src/Prober/Initiate/Followed.antt =====
-- How InitiatePtrace follows the child until execvp(3), by the replies of the operating system.
use mathlib.Core.List.{append-nil}
use pyflame.Common.Int.{ℤ, pos, negsuc, int_eq, int_eq_refl}
use pyflame.Common.{
  ℕ, zero, suc, ◌*◌, ◌<◌, Text, codes, decimal, true, false, none, some, List, [], ◌++◌, ◌≡◌, refl,
  ap, ◌∙◌, arith, Option, Bool, if◌then◌else◌, Bool-cases, inl, inr,
}
use pyflame.Exc.{State, Cmd, ok, pure, ◌>>=◌, ◌>>◌}
use pyflame.Os.{Os, Pid, WaitReply, setoptions, cont, detach, seize, interrupt}
use pyflame.Prober.Initiate.{
  Spawn, Initiated, returned, ends_with, wait_exec, perror, follow_child, initiate_ptrace,
}
use pyflame.Prober.{Prober}
use pyflame.Ptrace.Wait.{
  stop_status, Stops, Waits, do_wait-stop, ptrace_cont-ok, saw_event_exec_iff,
}
use pyflame.Ptrace.{
  sigtrap, wifexited, wexitstatus, saw_event_exec, request, ptrace_set_options, ptrace_detach,
  ptrace_seize, ptrace_interrupt,
}

module _ {W : Type 0} (os : Os W) (pid : Pid) where
  -- From `w` to `v` the child is detached, seized and interrupted, each with success, and after `k`
  -- stops by SIGCHLD it stops by SIGTRAP.
  pub record Reseized (k : ℕ) (w v : W) : Type 0 where
    pub reply : WaitReply
    pub detached : (os.ptrace detach pid w).0.ret ≡ 0
    pub seized : (os.ptrace seize pid (os.ptrace detach pid w).1).0.ret ≡ 0
    pub interrupted :
        (os.ptrace interrupt pid (os.ptrace seize pid (os.ptrace detach pid w).1).1).0.ret ≡ 0
    pub waits :
        Waits os pid 0 k
          (os.ptrace interrupt pid (os.ptrace seize pid (os.ptrace detach pid w).1).1).1
          reply
          v
    pub stops : Stops os pid 0 sigtrap reply

  -- From `w` on, waitpid(2) reports `n` stops with other events than that of execvp(3), and then
  -- that event, an error or an exit, which decides the return code, what is printed and how the
  -- operating system is left; `k` is as above.
  pub data Follows (k : ℕ) : ℕ → W → ℕ → Text → W → Type 0 where
    other :
        {n signum event code : ℕ} {w u v : W} {text : Text} {r : WaitReply}
        → (os.waitpid (negsuc 0) 0 w).0 ≡ r
        → (os.waitpid (negsuc 0) 0 w).1 ≡ u
        → int_eq r.progeny (negsuc 0) ≡ false
        → r.status ≡ stop_status signum event
        → signum < 256
        → ¬ ((signum ≡ 5) × (event ≡ 4))
        → Follows k n u code text v
        → Follows k (suc n) w code text v
    exec :
        {w u v : W} {r : WaitReply}
        → (os.waitpid (negsuc 0) 0 w).0 ≡ r
        → (os.waitpid (negsuc 0) 0 w).1 ≡ u
        → int_eq r.progeny (negsuc 0) ≡ false
        → r.status ≡ stop_status 5 4
        → Reseized k u v
        → Follows k zero w 0 [] v
    lost :
        {w v : W} {r : WaitReply}
        → (os.waitpid (negsuc 0) 0 w).0 ≡ r
        → (os.waitpid (negsuc 0) 0 w).1 ≡ v
        → int_eq r.progeny (negsuc 0) ≡ true
        → Follows k zero w 1 (codes "waitpid(): " ++ (os.strerror r.errno ++ codes "\n")) v
    exited :
        {status : ℕ} {w v : W} {r : WaitReply}
        → (os.waitpid (negsuc 0) 0 w).0 ≡ r
        → (os.waitpid (negsuc 0) 0 w).1 ≡ v
        → int_eq r.progeny (negsuc 0) ≡ false
        → r.status ≡ 256 * status
        → status < 256
        → Follows k zero w 1
            (codes "Child process exited with status: " ++ (decimal status ++ codes "\n"))
            v

-- The operating system behind the first wait and PTRACE_SETOPTIONS with PTRACE_O_TRACEEXEC, and
-- behind the PTRACE_CONT that follows.
abbrev pub configured : {W : Type 0} → Os W → Pid → W → W
configured os pid w = (os.ptrace (setoptions 0x10) pid (os.waitpid (pos 0) 0 w).1).1

abbrev pub let_go : {W : Type 0} → Os W → Pid → W → W
let_go os pid w = (os.ptrace cont pid (configured os pid w)).1

other-unseen :
    (signum event : ℕ)
    → signum < 256
    → ¬ ((signum ≡ 5) × (event ≡ 4))
    → saw_event_exec (stop_status signum event) ≡ false
other-unseen signum event small h = elim (Bool-cases (saw_event_exec (stop_status signum event))) [
  | inl e ↦ absurd (h ((saw_event_exec_iff signum event small).0 e))
  | inr e ↦ e
]

other-unexited : (signum event : ℕ) → wifexited (stop_status signum event) ≡ false
unfolding wifexited
other-unexited signum event = ground arith

zero-unseen : saw_event_exec 0 ≡ false
unfolding saw_event_exec
zero-unseen = refl

exec-seen : saw_event_exec (stop_status 5 4) ≡ true
unfolding saw_event_exec
exec-seen = refl

exit-exited : (code : ℕ) → wifexited (256 * code) ≡ true
unfolding wifexited
exit-exited code = ground arith

wexitstatus-exit : (code : ℕ) → code < 256 → wexitstatus (256 * code) ≡ code
unfolding wexitstatus
wexitstatus-exit code small = omega arith

module _ {W D : Type 0} (os : Os W) (wait_fuel k : ℕ) (p : Prober D)
    (real : int_eq p.pid (negsuc 0) ≡ false) (passes : k < wait_fuel) where
  -- The lines behind the loop.
  abbrev reseize : Option ℤ → Cmd W (Initiated D)
  reseize code = elim code [
    | some c ↦ pure (returned c p)
    | none ↦ do
      ptrace_detach os p.pid
      ptrace_seize os p.pid
      ptrace_interrupt os wait_fuel p.pid
      pure (returned (pos 0) p)
  ]

  reseize-Reseized :
      (s : State W) (v : W)
      → Reseized os p.pid k s.world v
      → reseize none s ≡ ok (returned (pos 0) p) (record s { world = v })
  unfolding ptrace_detach ptrace_seize ptrace_interrupt request
  reseize-Reseized s v r =
      let detached = (os.ptrace detach p.pid s.world).1 in
      let seized = (os.ptrace seize p.pid detached).1 in
      let interrupted = (os.ptrace interrupt p.pid seized).1 in
      rw (
        r.detached,
        r.seized,
        r.interrupted,
        do_wait-stop os p.pid 0 real wait_fuel k (record s { world = interrupted }) r.waits passes
            r.stops,
      )

  wait_exec-Follows :
      (fuel n status code : ℕ) (text : Text) (s : State W) (v : W)
      → saw_event_exec status ≡ false
      → Follows os p.pid k n s.world code text v
      → suc n < fuel
      → (wait_exec os fuel status >>= reseize) s
        ≡ ok (returned (pos code) p) (record s { world = v; cerr = s.cerr ++ text })
  unfolding wait_exec
  wait_exec-Follows zero n status code text s v unseen follows enough = absurd (omega arith)
  wait_exec-Follows (suc fuel) _ status code text s v unseen
        (other {n} {signum} {event} {u = u} {r = r} a b c d small e rest) enough =
      rw (unseen, a, b, c, d, other-unexited signum event)
        (wait_exec-Follows fuel n (stop_status signum event) code text (record s { world = u }) v
          (other-unseen signum event small e) rest (omega arith))
  wait_exec-Follows (suc zero) _ status _ _ s v unseen (exec a b c d r) enough =
      absurd (omega arith)
  wait_exec-Follows (suc (suc fuel)) _ status _ _ s v unseen (exec {u = u} a b c d r) enough =
      rw (unseen, a, b, c, d, other-unexited 5 4, exec-seen, append-nil)
        (reseize-Reseized (record s { world = u }) v r)
  wait_exec-Follows (suc fuel) _ status _ _ s v unseen (lost a b c) enough =
      unfold perror codes in rw (unseen, a, b, c)
  wait_exec-Follows (suc fuel) _ status _ _ s v unseen (exited {status = e} a b c d small) enough =
      rw (unseen, a, b, c, d, exit-exited e, wexitstatus-exit e small)

  follow_child-Follows :
      (spawn : Spawn W) (fuel n code : ℕ) (text : Text) (s : State W) (v : W)
      → (os.waitpid (pos 0) 0 s.world).0.progeny ≡ p.pid
      → (os.ptrace (setoptions 0x10) p.pid (os.waitpid (pos 0) 0 s.world).1).0.ret ≡ 0
      → (os.ptrace cont p.pid (configured os p.pid s.world)).0.ret ≡ 0
      → Follows os p.pid k n (let_go os p.pid s.world) code text v
      → suc n < fuel
      → follow_child os spawn wait_fuel fuel p s
        ≡ ok (returned (pos code) p) (record s { world = v; cerr = s.cerr ++ text })
  unfolding follow_child ptrace_set_options request
  follow_child-Follows spawn fuel n code text s v first options continued follows enough =
      rw
        (
          first,
          int_eq_refl p.pid,
          options,
          ptrace_cont-ok os p.pid 0 (record s { world = configured os p.pid s.world }) continued,
        )
        (wait_exec-Follows fuel n 0 code text (record s { world = let_go os p.pid s.world }) v
          zero-unseen follows enough)

-- The PID that fork(2) returns, and the operating system behind it.
abbrev pub child_of : {W : Type 0} → Spawn W → W → Pid
child_of spawn w = (spawn.fork w).0.0

abbrev pub forked : {W : Type 0} → Spawn W → W → W
forked spawn w = (spawn.fork w).1

cond-true {ℓ} : {A : Type ℓ} (b : Bool) (x y : A) → b ≡ true → (if b then x else y) ≡ x
cond-true b x y e = rw e

cond-false {ℓ} : {A : Type ℓ} (b : Bool) (x y : A) → b ≡ false → (if b then x else y) ≡ y
cond-false b x y e = rw e

module _ {W D : Type 0} (os : Os W) (spawn : Spawn W) (wait_fuel : ℕ) where
  -- With -t and a command that does not end in "pyflame", in the parent of a fork(2) that succeeds,
  -- whose first wait finds the child, and where PTRACE_SETOPTIONS with PTRACE_O_TRACEEXEC and
  -- PTRACE_CONT succeed, waitpid(2) then reports `n` stops with other events and one last result.
  -- If that is the event of execvp(3), and the child is detached, seized and interrupted with
  -- success and stops after `k` stops by SIGCHLD, InitiatePtrace returns 0 and prints nothing; if
  -- it is an error or an exit, it returns 1 and prints the error or the status, and neither
  -- detaches nor seizes. The PID is that of the child in each case; more tests than reports, and
  -- more rounds than stops by SIGCHLD, are enough.
  pub initiate_ptrace-Follows :
      (fuel n k code : ℕ) (text : Text) (p : Prober D) (args : List Text) (s : State W) (v : W)
      → p.trace ≡ true
      → ends_with p.trace_target (codes "pyflame") ≡ false
      → int_eq (child_of spawn s.world) (negsuc 0) ≡ false
      → int_eq (child_of spawn s.world) (pos 0) ≡ false
      → (os.waitpid (pos 0) 0 (forked spawn s.world)).0.progeny ≡ child_of spawn s.world
      → (os.ptrace
          (setoptions 0x10)
          (child_of spawn s.world)
          (os.waitpid (pos 0) 0 (forked spawn s.world)).1).0.ret
        ≡ 0
      → (os.ptrace cont
          (child_of spawn s.world)
          (configured os (child_of spawn s.world) (forked spawn s.world))).0.ret
        ≡ 0
      → Follows os
          (child_of spawn s.world)
          k
          n
          (let_go os (child_of spawn s.world) (forked spawn s.world))
          code
          text
          v
      → suc n < fuel
      → k < wait_fuel
      → initiate_ptrace os spawn wait_fuel fuel p args s
        ≡ ok
            (returned (pos code) (record p { pid = child_of spawn s.world }))
            (record s { world = v; cerr = s.cerr ++ text })
  unfolding initiate_ptrace
  initiate_ptrace-Follows fuel n k code text p args s v traced named real parent first options
        continued follows enough passes =
      ap (λ (c : Cmd W (Initiated D)). c s) (cond-true p.trace _ _ traced)
      ∙ ap (λ (c : Cmd W (Initiated D)). c s)
          (cond-false (ends_with p.trace_target (codes "pyflame")) _ _ named)
      ∙ ap (λ (c : Cmd W (Initiated D)). c (record s { world = forked spawn s.world }))
          (cond-false (int_eq (child_of spawn s.world) (negsuc 0)) _ _ real
            ∙ cond-false (int_eq (child_of spawn s.world) (pos 0)) _ _ parent)
      ∙ follow_child-Follows os wait_fuel k (record p { pid = child_of spawn s.world }) real passes
          spawn fuel n code text (record s { world = forked spawn s.world }) v first options
          continued follows enough

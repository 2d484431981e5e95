-- ===== src/Ptrace/Call.antt =====
-- The part of src/ptrace.cc that runs code in the traced process, built with ENABLE_THREADS on
-- amd64: AllocPage, the functions on its threads, PtraceCallFunction and PtraceCleanup.
pub mod Restores
use pyflame.Common.Int.{ℤ, pos, negsuc, int_eq, decimal_ℤ}
use pyflame.Common.{
  ℕ, zero, suc, ◌-◌, ◌+◌, ◌^◌, Text, codes, text_eq, stoi, Bool, true, false, ◌||◌, Option, none,
  some, List, [], ◌∷◌, ◌++◌, ltb, ◌==◌, if◌then◌else◌,
}
use pyflame.Exc.{
  State, Cmd, ok, ptrace_exception, generic_exception, pure, raise, no_fuel, ◌>>=◌, ◌>>◌, print_err,
  try,
}
use pyflame.Os.{Pid, Regs, Os, minus_one, sys}
use pyflame.Ptrace.{
  ptrace_attach, ptrace_detach, safe_detach, ptrace_get_regs, ptrace_set_regs, ptrace_peek,
  ptrace_poke, ptrace_cont, ptrace_single_step, do_wait,
}

abbrev pub syscall_x86 : ℕ
syscall_x86 = 0x050f

-- SYS_mmap and SYS_munmap, and EAGAIN.
abbrev sys_mmap : ℕ
sys_mmap = 9

abbrev sys_munmap : ℕ
sys_munmap = 11

abbrev eagain : ℕ
eagain = 11

-- The bytes 0xff 0xd0 0xcc and five zeros: CALL rax, TRAP.
abbrev pub trampoline : ℕ
trampoline = 0xccd0ff

-- A register as a `long`.
unfoldable pub long_of : ℕ → ℤ
long_of n = if ltb n (2 ^ 63) then pos n else negsuc (2 ^ 64 - 1 - n)

-- mmap(2) of one page that can be read, written and executed.
pub mmap_regs : ℕ → Regs → Regs
mmap_regs page_size r = record r {
  rax = sys_mmap;
  rdi = 0;
  rsi = page_size;
  rdx = 7;
  r10 = 0x22;
  r8 = minus_one;
  r9 = 0;
}

unfoldable pub munmap_regs : ℕ → ℕ → Regs → Regs
munmap_regs page_size probe r = record r { rax = sys_munmap; rdi = probe; rsi = page_size }

-- The names of a directory but `.` and `..`, as numbers.
unfoldable pub task_ids : List Text → Option (List Pid)
task_ids [] = some []
task_ids (name ∷ names) =
    let rest = task_ids names in
    if text_eq name (codes ".") || text_eq name (codes "..") then rest else elim (stoi name) [
      | none ↦ none
      | some tid ↦ elim rest [ none ↦ none | some tids ↦ some (tid ∷ tids) ]
    ]

-- `page_size` is getpagesize(3); a wait takes `fuel` rounds at most.
module _ {W : Type 0} (os : Os W) (page_size fuel : ℕ) where
  pub get_probe : Cmd W ℕ
  get_probe s = ok s.probe s

  set_probe : ℕ → Cmd W (Unit {0})
  set_probe probe s = ok tt (record s { probe = probe })

  pub alloc_page : Pid → Cmd W ℕ
  alloc_page pid = do
    oldregs ← ptrace_get_regs os pid
    orig_code ← ptrace_peek os pid oldregs.rip
    ptrace_poke os pid oldregs.rip syscall_x86
    ptrace_set_regs os pid (mmap_regs page_size oldregs)
    ptrace_single_step os fuel pid
    result ← ptrace_get_regs os pid
    ptrace_set_regs os pid oldregs
    ptrace_poke os pid oldregs.rip orig_code
    pure result.rax

  pub list_threads : Pid → Cmd W (List Pid)
  list_threads pid = do
    dir ← sys (λ w. (os.list_task pid w, w))
    elim dir [
      | none ↦ raise (ptrace_exception (codes "Failed to list threads"))
      | some names ↦ elim (task_ids names) [
        | none ↦ raise (generic_exception (codes "stoi"))
        | some tids ↦ pure tids
      ]
    ]

  -- `if (tid != pid) f(tid);` for each thread.
  for_others : (Pid → Cmd W (Unit {0})) → Pid → List Pid → Cmd W (Unit {0})
  for_others f pid [] = pure tt
  for_others f pid (tid ∷ tids) =
      (if int_eq tid pid then pure tt else f tid) >> for_others f pid tids

  pub pause_child_threads : Pid → Cmd W (Unit {0})
  pause_child_threads pid = do tids ← list_threads pid; for_others (ptrace_attach os) pid tids

  pub resume_child_threads : Pid → Cmd W (Unit {0})
  resume_child_threads pid = do tids ← list_threads pid; for_others (ptrace_detach os) pid tids

  -- The block for `probe_ == 0`; whether it ends in `return -1`.
  prepare_probe : Pid → Cmd W Bool
  prepare_probe pid = do
    pause_child_threads pid
    page ← alloc_page pid
    set_probe page
    resume_child_threads pid
    if page == minus_one then pure true else (do ptrace_poke os pid page trampoline; pure false)

  -- The part behind that block.
  pub call_probe : Pid → ℕ → Cmd W ℕ
  call_probe pid addr = do
    probe ← get_probe
    oldregs ← ptrace_get_regs os pid
    ptrace_set_regs os pid (record oldregs { rax = addr; rip = probe })
    ptrace_cont os pid
    do_wait os fuel pid 0
    newregs ← ptrace_get_regs os pid
    ptrace_set_regs os pid oldregs
    pure newregs.rax

  pub ptrace_call_function : Pid → ℕ → Cmd W ℕ
  ptrace_call_function pid addr = do
    probe ← get_probe
    failed ← (if probe == 0 then prepare_probe pid else pure false)
    if failed then pure minus_one else call_probe pid addr

  -- From `do_munmap` to the end of the switch, with `rounds` system calls at most.
  munmap_rounds : ℕ → Pid → Regs → Cmd W (Unit {0})
  munmap_rounds zero pid newregs = no_fuel
  munmap_rounds (suc rounds) pid newregs = do
    ptrace_set_regs os pid newregs
    ptrace_single_step os fuel pid
    regs ← ptrace_get_regs os pid
    if regs.rax == 0
        then set_probe 0
        else if regs.rax == eagain
        then munmap_rounds rounds pid newregs
        else print_err (
            codes "Warning: failed to munmap(2) trampoline page, %rax = "
            ++ (decimal_ℤ (long_of regs.rax) ++ codes "\n"))

  -- The `try` block.
  free_page : ℕ → Pid → Cmd W (Unit {0})
  free_page rounds pid = do
    oldregs ← ptrace_get_regs os pid
    orig_code ← ptrace_peek os pid oldregs.rip
    probe ← get_probe
    pause_child_threads pid
    ptrace_poke os pid oldregs.rip syscall_x86
    munmap_rounds rounds pid (munmap_regs page_size probe oldregs)
    ptrace_poke os pid oldregs.rip orig_code
    ptrace_set_regs os pid oldregs
    resume_child_threads pid

  pub ptrace_cleanup : ℕ → Pid → Cmd W (Unit {0})
  ptrace_cleanup rounds pid = do
    probe ← get_probe
    if probe == 0 then pure tt else try (free_page rounds pid) (λ e. pure tt)
    safe_detach os pid

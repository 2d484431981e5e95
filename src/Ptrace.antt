-- ===== src/Ptrace.antt =====
-- src/ptrace.cc and src/ptrace.h: the requests of ptrace(2) with their errors, the wait for a stop,
-- and reads of strings and buffers. A wait or a read in a loop takes `fuel` rounds at most.
pub mod Call
pub mod Memory
pub mod Untouched
pub mod Wait
use pyflame.Common.Int.{ℤ, pos, negsuc, int_eq, decimal_ℤ}
use pyflame.Common.{
  ℕ, zero, suc, ◌+◌, ◌*◌, ◌/◌, ◌%◌, ◌^◌, Text, codes, decimal, pointer, Bool, true, false, not,
  ◌&&◌, ◌||◌, List, [], ◌∷◌, ◌++◌, ◌==◌, ltb, if◌then◌else◌,
}
use pyflame.Exc.{
  Cmd, ptrace_exception, terminate_exception, pure, raise, stuck, no_fuel, ◌>>=◌, ◌>>◌,
}
use pyflame.Os.{
  Pid, Regs, Request, traceme, attach, seize, detach, interrupt, getregs, setregs, pokedata,
  peekdata, setoptions, cont, singlestep, Os, minus_one, sys,
}

-- The signals and the event that the code names, with the macros of wait(2).
abbrev pub sigtrap : ℕ
sigtrap = 5

abbrev pub sigchld : ℕ
sigchld = 17

abbrev sigstop : ℕ
sigstop = 19

abbrev pub wall : ℕ
wall = 2 ^ 30

unfoldable pub wifstopped : ℕ → Bool
wifstopped status = status % 2 ^ 8 == 0x7f

unfoldable pub wstopsig : ℕ → ℕ
wstopsig status = status / 2 ^ 8 % 2 ^ 8

unfoldable pub wifexited : ℕ → Bool
wifexited status = status % 2 ^ 7 == 0

unfoldable pub wexitstatus : ℕ → ℕ
wexitstatus status = status / 2 ^ 8 % 2 ^ 8

-- `SIGTRAP | (PTRACE_EVENT_EXEC << 8)` is 5 | (4 << 8).
unfoldable pub saw_event_exec : ℕ → Bool
saw_event_exec status = status / 2 ^ 8 == 5 + 4 * 2 ^ 8

-- The bytes of a word as they lie in memory.
unfoldable pub le_bytes : ℕ → ℕ → List ℕ
le_bytes zero v = []
le_bytes (suc n) v = (v % 256) ∷ le_bytes n (v / 256)

-- A `std::string` up to its first NUL, and whether it holds one.
pub c_str : List ℕ → Text
c_str [] = []
c_str (b ∷ bs) = if b == 0 then [] else b ∷ c_str bs

unfoldable pub has_nul : List ℕ → Bool
has_nul [] = false
has_nul (b ∷ bs) = b == 0 || has_nul bs

-- The messages of DoWait.
pub stray_message : ℕ → Text
stray_message signum =
    codes "waitpid() indicated a WIFSTOPPED process, but got unexpected signal " ++ decimal signum

pub exit_message : Pid → ℕ → Text
exit_message pid code =
    codes "Child process " ++ (decimal_ℤ pid ++ (codes " exited with status " ++ decimal code))

pub code_message : Pid → ℕ → Text
code_message pid status =
    codes "Child process "
    ++ (decimal_ℤ pid ++ (codes " returned an unexpected waitpid() code: " ++ decimal status))

module _ {W : Type 0} (os : Os W) where
  -- A request whose result is tested against 0, with the error that it throws.
  unfoldable pub request : Request → Pid → (Text → Text) → Cmd W (Unit {0})
  request r pid message = do
    reply ← sys (os.ptrace r pid)
    if reply.ret == 0 then pure tt else raise (ptrace_exception (message (os.strerror reply.errno)))

  unfoldable pub ptrace_cont : Pid → Cmd W (Unit {0})
  ptrace_cont pid = do
    reply ← sys (os.ptrace cont pid)
    if reply.ret == minus_one
        then raise (ptrace_exception (codes "Failed to PTRACE_CONT: " ++ os.strerror reply.errno))
        else pure tt

  pub wait_message : ℕ → Text
  wait_message errno = codes "Failed to waitpid(): " ++ os.strerror errno

  unfoldable pub do_wait : ℕ → Pid → ℕ → Cmd W ℕ
  do_wait zero pid options = no_fuel
  do_wait (suc fuel) pid options = do
    r ← sys (os.waitpid pid options)
    if int_eq r.progeny (negsuc 0)
        then raise (ptrace_exception (wait_message r.errno))
        else if not (int_eq r.progeny pid)
        then stuck
        else if wifstopped r.status
        then if wstopsig r.status == sigtrap
          then pure r.status
          else if wstopsig r.status == sigchld
          then (do ptrace_cont pid; do_wait fuel pid options)
          else raise (ptrace_exception (stray_message (wstopsig r.status)))
        else if wifexited r.status
        then raise (terminate_exception (exit_message pid (wexitstatus r.status)))
        else raise (ptrace_exception (code_message pid r.status))

  pub ptrace_traceme : Cmd W (Unit {0})
  ptrace_traceme = do
    self ← sys (λ w. (os.getpid w, w))
    request traceme self (λ _. codes "Failed to PTRACE_TRACEME")
    sys (λ w. (tt, os.raise_signal sigstop w))

  pub ptrace_attach : Pid → Cmd W (Unit {0})
  ptrace_attach pid = do
    request attach pid
        (λ e. codes "Failed to attach to PID " ++ (decimal_ℤ pid ++ (codes ": " ++ e)))
    r ← sys (os.waitpid pid wall)
    if not (int_eq r.progeny pid) || not (wifstopped r.status)
        then raise (
            ptrace_exception (
              codes "Failed to wait on PID "
              ++ (decimal_ℤ pid ++ (codes ": " ++ os.strerror r.errno))))
        else pure tt

  unfoldable pub ptrace_seize : Pid → Cmd W (Unit {0})
  ptrace_seize pid =
      request seize pid
        (λ e. codes "Failed to attach to PID " ++ (decimal_ℤ pid ++ (codes ": " ++ e)))

  unfoldable pub ptrace_detach : Pid → Cmd W (Unit {0})
  ptrace_detach pid =
      request detach pid
        (λ e. codes "Failed to detach PID " ++ (decimal_ℤ pid ++ (codes ": " ++ e)))

  -- The result is not looked at.
  pub safe_detach : Pid → Cmd W (Unit {0})
  safe_detach pid = do sys (os.ptrace detach pid); pure tt

  unfoldable pub ptrace_interrupt : ℕ → Pid → Cmd W (Unit {0})
  ptrace_interrupt fuel pid = do
    request interrupt pid (λ _. codes "Failed to PTRACE_INTERRUPT")
    do_wait fuel pid 0
    pure tt

  pub ptrace_get_regs : Pid → Cmd W Regs
  ptrace_get_regs pid = do
    reply ← sys (os.ptrace getregs pid)
    if reply.ret == 0
        then pure reply.regs
        else raise
            (ptrace_exception (codes "Failed to PTRACE_GETREGS: " ++ os.strerror reply.errno))

  pub ptrace_set_regs : Pid → Regs → Cmd W (Unit {0})
  ptrace_set_regs pid regs =
      request (setregs regs) pid (λ e. codes "Failed to PTRACE_SETREGS: " ++ e)

  pub ptrace_poke : Pid → ℕ → ℕ → Cmd W (Unit {0})
  ptrace_poke pid addr word =
      request (pokedata addr word) pid
        (λ e. codes "Failed to PTRACE_POKEDATA at " ++ (pointer addr ++ (codes ": " ++ e)))

  pub peek_error : Pid → ℕ → ℕ → Text
  peek_error pid addr errno =
      codes "Failed to PTRACE_PEEKDATA (pid "
      ++ (decimal_ℤ pid
          ++ (codes ", addr " ++ (pointer addr ++ (codes "): " ++ os.strerror errno))))

  pub ptrace_peek : Pid → ℕ → Cmd W ℕ
  ptrace_peek pid addr = do
    reply ← sys (os.ptrace (peekdata addr) pid)
    if reply.ret == minus_one && not (reply.errno == 0)
        then raise (ptrace_exception (peek_error pid addr reply.errno))
        else pure reply.ret

  unfoldable pub ptrace_set_options : Pid → ℕ → Cmd W (Unit {0})
  ptrace_set_options pid options =
      request (setoptions options) pid (λ _. codes "Failed to PTRACE_SETOPTIONS")

  pub ptrace_single_step : ℕ → Pid → Cmd W (Unit {0})
  ptrace_single_step fuel pid = do
    reply ← sys (os.ptrace singlestep pid)
    if reply.ret == minus_one
        then raise
            (ptrace_exception (codes "Failed to PTRACE_SINGLESTEP: " ++ os.strerror reply.errno))
        else (do do_wait fuel pid 0; pure tt)

  -- `dump` holds what the chunks below `off` gave.
  peek_string_loop : ℕ → Pid → ℕ → ℕ → Text → Cmd W Text
  peek_string_loop zero pid addr off dump = no_fuel
  peek_string_loop (suc fuel) pid addr off dump = do
    val ← ptrace_peek pid ((addr + off) % 2 ^ 64)
    if has_nul (le_bytes 8 val)
        then pure (dump ++ c_str (le_bytes 8 val))
        else peek_string_loop fuel pid addr (off + 8) (dump ++ c_str (le_bytes 8 val))

  pub ptrace_peek_string : ℕ → Pid → ℕ → Cmd W Text
  unfolding peek_string_loop
  ptrace_peek_string fuel pid addr = peek_string_loop fuel pid addr 0 []

  -- `words` rounds are left; `bytes` holds the buffer below `off`.
  peek_bytes_loop : ℕ → Pid → ℕ → ℕ → List ℕ → Cmd W (List ℕ)
  peek_bytes_loop zero pid addr off bytes = pure bytes
  peek_bytes_loop (suc words) pid addr off bytes = do
    val ← ptrace_peek pid ((addr + off) % 2 ^ 64)
    peek_bytes_loop words pid addr (off + 8) (bytes ++ le_bytes 8 val)

  -- The buffer holds the least number of whole words with `nbytes` bytes.
  pub ptrace_peek_bytes : Pid → ℕ → ℕ → Cmd W (List ℕ)
  unfolding peek_bytes_loop
  ptrace_peek_bytes pid addr nbytes =
      let whole = if nbytes % 8 == 0 then nbytes else (nbytes / 8 + 1) * 8 in
      peek_bytes_loop (whole / 8) pid addr 0 []

-- ===== src/Os.antt =====
-- The system calls that Pyflame makes, as parameters of the model. A machine word is its bit
-- pattern, a number below 2 ^ 64, so that -1 is `minus_one`.
use pyflame.Common.Int.{ℤ}
use pyflame.Common.{
  Bool, ℕ, zero, suc, ◌-◌, ◌+◌, ◌*◌, ◌^◌, ◌<◌, ◌≡◌, Option, none, some, Text, List,
}
use pyflame.Exc.{Cmd, ok}

abbrev pub Pid : Type 0
Pid = ℤ

abbrev pub minus_one : ℕ
minus_one = 2 ^ 64 - 1

-- The registers of `user_regs_struct` that ptrace.cc names; `rest` stands for the others.
pub record Regs : Type 0 where
  pub rip : ℕ
  pub rax : ℕ
  pub rdi : ℕ
  pub rsi : ℕ
  pub rdx : ℕ
  pub r10 : ℕ
  pub r8 : ℕ
  pub r9 : ℕ
  pub rest : List ℕ

-- The requests of ptrace(2), with the arguments that each one reads.
pub data Request : Type 0 where
  traceme : Request
  attach seize detach interrupt : Request
  getregs : Request
  setregs : Regs → Request
  pokedata : ℕ → ℕ → Request
  peekdata : ℕ → Request
  setoptions : ℕ → Request
  cont singlestep : Request

-- What a call returns, the `errno` that it leaves (0 where the caller cleared it and the call
-- succeeded), and the registers that `PTRACE_GETREGS` stores.
pub record Reply : Type 0 where
  pub ret : ℕ
  pub errno : ℕ
  pub regs : Regs

-- What waitpid(2) returns, the status that it stores, and `errno`.
pub record WaitReply : Type 0 where
  pub progeny : ℤ
  pub status : ℕ
  pub errno : ℕ

-- `W` is the state of the operating system and of the traced process.
pub record Os (W : Type 0) : Type 0 where
  pub ptrace : Request → Pid → W → Reply × W
  pub waitpid : Pid → ℕ → W → WaitReply × W
  pub raise_signal : ℕ → W → W
  pub getpid : W → Pid
  pub strerror : ℕ → Text
  -- The system clock, in nanoseconds, and `std::this_thread::sleep_for`.
  pub now : W → ℕ × W
  pub sleep_for : ℕ → W → W
  -- Opening a file for output, truncated; whether it is open, and a write to it.
  pub open_output : Text → W → Bool × W
  pub write_output : Text → Text → W → W
  -- The entries of `/proc/<pid>/task` in the order of readdir(3), or a null `DIR *`.
  pub list_task : Pid → W → Option (List Text)

-- A call of the operating system as a command.
abbrev pub sys : {W A : Type 0} → (W → A × W) → Cmd W A
sys f s = let r = f s.world in ok r.0 (record s { world = r.1 })

-- The memory of the traced process by the byte; `none` where nothing is mapped.
abbrev pub Memory : Type 0
Memory = ℕ → Option ℕ

abbrev pub IsBytes : Memory → Type 0
IsBytes mem = (a b : ℕ) → mem a ≡ some b → b < 256

-- The little-endian word of `n` bytes from `a` on.
unfoldable pub word_of : ℕ → Memory → ℕ → Option ℕ
word_of zero mem a = some 0
word_of (suc n) mem a = elim (mem a) [
  | none ↦ none
  | some b ↦ elim (word_of n mem (a + 1)) [ none ↦ none | some v ↦ some (b + 256 * v) ]
]

-- What PTRACE_PEEKDATA answers for a word: `EIO` and -1 where a byte of it is not mapped.
abbrev pub peek_answer : Option ℕ → ℕ × ℕ
peek_answer none = (minus_one, 5)
peek_answer (some v) = (v, 0)

-- The documented behaviour of PTRACE_PEEKDATA on a stopped tracee `pid` whose memory is `mem`:
-- it answers the word, and leaves the process and the operating system as they are.
pub record Snapshot {W : Type 0} (os : Os W) (pid : Pid) (w : W) (mem : Memory) : Type 0 where
  pub bytes : IsBytes mem
  pub ret : (a : ℕ) → (os.ptrace (peekdata a) pid w).0.ret ≡ (peek_answer (word_of 8 mem a)).0
  pub errno : (a : ℕ) → (os.ptrace (peekdata a) pid w).0.errno ≡ (peek_answer (word_of 8 mem a)).1
  pub same : (a : ℕ) → (os.ptrace (peekdata a) pid w).1 ≡ w

-- ===== src/Tests/Sim.antt =====
-- An operating system whose only process has a given memory and a given sequence of wait replies.
use pyflame.Common.Int.{pos}
use pyflame.Common.{
  ℕ, ◌+◌, ◌-◌, ◌/◌, ◌%◌, ◌^◌, Bool, true, false, Option, none, some, List, [], ◌∷◌, ◌≡◌, refl, ◌&&◌,
  arith, leb, ◌==◌, get_elem?,
}
use pyflame.Exc.{State}
use pyflame.Os.{
  Pid, Regs, Request, peekdata, Reply, WaitReply, Os, Memory, IsBytes, Snapshot, word_of,
  peek_answer,
}
use pyflame.Ptrace.Memory.{Holds}

-- Blocks of words, each with its address.
abbrev pub Image : Type 0
Image = List (ℕ × List ℕ)

abbrev byte_of : List ℕ → ℕ → Option ℕ
byte_of words off = elim (get_elem? words (off / 8)) [
  | none ↦ none
  | some w ↦ some (w / 256 ^ (off % 8) % 256)
]

abbrev pub memory : Image → Memory
memory [] a = none
memory ((base, words) ∷ image) a = elim (leb base a) [
  | true ↦ elim (byte_of words (a - base)) [ none ↦ memory image a | some b ↦ some b ]
  | false ↦ memory image a
]

pub memory-IsBytes : (image : Image) → IsBytes (memory image)
memory-IsBytes [] a b e = ground arith
memory-IsBytes ((base, words) ∷ image) a b e = ground (arith, memory-IsBytes image a b)

-- The world: the memory, and the replies of waitpid(2) that are still to come.
pub record World : Type 0 where
  pub image : Image
  pub replies : List WaitReply

abbrev pub no_regs : Regs
no_regs = record { rip = 0; rax = 0; rdi = 0; rsi = 0; rdx = 0; r10 = 0; r8 = 0; r9 = 0; rest = [] }

abbrev pub success : Reply
success = record { ret = 0; errno = 0; regs = no_regs }

abbrev pub sim_ptrace : Request → Pid → World → Reply × World
sim_ptrace (peekdata a) pid w =
    let answer = peek_answer (word_of 8 (memory w.image) a) in
    (record { ret = answer.0; errno = answer.1; regs = no_regs }, w)
sim_ptrace _ pid w = (success, w)

abbrev sim_wait : List WaitReply → World → WaitReply × World
sim_wait [] w = (record { progeny = pos 0; status = 0; errno = 10 }, w)
sim_wait (r ∷ rs) w = (r, record w { replies = rs })

abbrev pub sim : Os World
sim = record {
  ptrace = sim_ptrace;
  waitpid = λ pid options w. sim_wait w.replies w;
  raise_signal = λ signum w. w;
  getpid = λ w. pos 1;
  strerror = λ errno. [];
  now = λ w. (0, w);
  sleep_for = λ ns w. w;
  open_output = λ path w. (true, w);
  write_output = λ path t w. w;
  list_task = λ pid w. some [];
}

abbrev pub stopped : Image → State World
stopped image = record {
  world = record { image = image; replies = [] };
  probe = 0;
  cout = [];
  cerr = [];
}

pub sim-Snapshot :
    (image : Image) (pid : Pid) → Snapshot sim pid (stopped image).world (memory image)
sim-Snapshot image pid = record {
  bytes = memory-IsBytes image;
  ret = λ a. refl;
  errno = λ a. refl;
  same = λ a. refl;
}

-- `Holds`, decided.
unfoldable pub holds : Memory → ℕ → List ℕ → Bool
holds mem a [] = true
holds mem a (b ∷ bs) = elim (mem a) [ none ↦ false | some c ↦ c == b && holds mem (a + 1) bs ]

pub holds-Holds : (mem : Memory) (a : ℕ) (bs : List ℕ) → holds mem a bs ≡ true → Holds mem a bs
unfolding holds
holds-Holds mem a [] e = tt
holds-Holds mem a (b ∷ bs) e = (ground arith, holds-Holds mem (a + 1) bs (ground arith))

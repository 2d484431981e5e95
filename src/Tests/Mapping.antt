-- ===== src/Tests/Mapping.antt =====
-- A world that is the list of the mappings of the process.
use pyflame.Common.Int.{pos, negsuc}
use pyflame.Common.{ℕ, true, some, none, List, [], ◌∷◌, ◌≡◌, refl, ap}
use pyflame.Exc.Post.{Ends}
use pyflame.Exc.{State}
use pyflame.Namespace.{no_namespace}
use pyflame.Os.{Memory, Os}
use pyflame.Posix.{Files}
use pyflame.PyFrob.Unmaps.{MapLaws, addresses-Maps}
use pyflame.PyFrob.{addresses}
use pyflame.Tests.Executable.{executable, static}
use pyflame.Tests.Probing.{build}
use pyflame.Tests.Sim.{success}

abbrev Mappings : Type 0
Mappings = List (Memory × ℕ)

abbrev idle : Os Mappings
idle = record {
  ptrace = λ request pid w. (success, w);
  waitpid = λ pid options w. (record { progeny = negsuc 0; status = 0; errno = 10 }, w);
  raise_signal = λ signum w. w;
  getpid = λ w. pos 1;
  strerror = λ errno. [];
  now = λ w. (0, w);
  sleep_for = λ ns w. w;
  open_output = λ path w. (true, w);
  write_output = λ path t w. w;
  list_task = λ pid w. some [];
}

abbrev unmapped : Mappings → Mappings
unmapped [] = []
unmapped (x ∷ xs) = xs

abbrev mapping : Files Mappings
mapping = record static {
  mmap = λ fd size w. ((some executable, 0), (executable, size) ∷ w);
  munmap = λ image size w. unmapped w;
}

mapping-MapLaws : MapLaws mapping (λ w. w)
mapping-MapLaws = record {
  open_file = λ path w. refl;
  close = λ fd w. refl;
  setns = λ fd w. refl;
  readlink = λ path size w. refl;
  file_size = λ fd w. refl;
  read_file = λ path w. refl;
  mmap_fails = λ fd size w h. cc;
  mmap = λ fd size w image h.
      ap (λ o. elim o [ none ↦ (executable, size) ∷ w | some i ↦ (i, size) ∷ w ]) h;
  munmap = λ image size w rest h. ap unmapped h;
}

abbrev fresh : State Mappings
fresh = record { world = []; probe = 0; cout = []; cerr = [] }

addresses-Maps_example :
    Ends
      (Unit {0})
      (λ _ (t : State Mappings). t.world ≡ [])
      (λ t. t.world ≡ [])
      (addresses idle mapping build 4096 17 (pos 2) no_namespace fresh)
addresses-Maps_example =
    addresses-Maps idle mapping build 4096 17 (λ w. w) mapping-MapLaws (pos 2) no_namespace fresh

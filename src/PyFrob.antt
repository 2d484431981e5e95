-- ===== src/PyFrob.antt =====
-- src/pyfrob.h and src/pyfrob.cc: where the interpreter's variables are, and the ABI it has.
pub mod Detected
pub mod Located
pub mod Shared
pub mod Unmaps
use pyflame.Common.Int.{ℤ, pos, decimal_ℤ}
use pyflame.Common.{
  ℕ, Text, codes, contains, decimal, Bool, true, false, not, ◌&&◌, Option, none, some, List, [],
  ◌∷◌, ◌++◌, ◌==◌, if◌then◌else◌,
}
use pyflame.Aslr.{prefix_to, locate_lib_python}
use pyflame.Exc.{
  Exception, symbol_exception, fatal_exception, Cmd, pure, raise, stuck, ◌>>=◌, ◌>>◌, try, finally,
}
use pyflame.Frob.Layout.{Version}
use pyflame.Namespace.{Namespace, new_namespace, drop_namespace}
use pyflame.Os.{Pid, Os, sys}
use pyflame.Posix.{Files, read_link}
use pyflame.Prober.{Build}
use pyflame.Ptrace.Call.{ptrace_call_function}
use pyflame.Symbol.Addresses.{
  PyAbi, unknown, py26, py34, py36, PyAddresses, no_addresses, add, empty,
}
use pyflame.Symbol.Elf.{Elf, parse, needed_libs, check_header, map_file, close_elf}
use pyflame.Symbol.Walk.{get_addresses}
use pyflame.Thread.{Thread}

-- The fields; `get_threads` is the ABI whose function the pointer holds, and `none` a pointer that was
-- not set.
pub record PyFrob : Type 0 where
  pub pid : Pid
  pub addrs : PyAddresses
  pub enable_threads : Bool
  pub get_threads : Option Version

-- The constructor.
abbrev pub new_py_frob : Pid → Bool → PyFrob
new_py_frob pid enable_threads = record {
  pid = pid;
  addrs = no_addresses;
  enable_threads = enable_threads;
  get_threads = none;
}

-- The loop over the needed libraries; `[]` where none fits.
unfoldable pub find_lib : List Text → Text
find_lib [] = []
find_lib (lib ∷ libs) =
    let rest = find_lib libs in if contains (codes "libpython") lib then lib else rest

-- The switch of DetectABI on an ABI that is known, for a build with the ABIs `abis`.
unfoldable pub has_abi : ℕ → List ℕ → Bool
has_abi n [] = false
has_abi n (a ∷ abis) = if a == n then true else has_abi n abis

abbrev pub number_of : PyAbi → ℕ
number_of unknown = 0
number_of py26 = 26
number_of py34 = 34
number_of py36 = 36

unfoldable pub version_of : Build → PyAbi → Option Version
unfolding has_abi
version_of build unknown = none
version_of build py26 = if has_abi 26 build.abis then some Version.py26 else none
version_of build py34 = if has_abi 34 build.abis then some Version.py34 else none
version_of build py36 = if has_abi 36 build.abis then some Version.py36 else none

module _ {W : Type 0} where
  -- The function pointer of a known ABI, and the test of the addresses.
  unfoldable pub use_version : PyAbi → Option Version → PyAddresses → PyFrob → Cmd W (ℤ × PyFrob)
  use_version abi none a f = raise (
      fatal_exception (
        codes "Target has Python ABI "
        ++ (decimal (number_of abi) ++ codes ", which is not supported by this pyflame build.")))
  use_version abi (some v) a f =
      if empty a
      then raise (fatal_exception (codes "DetectABI(): addrs_ is unexpectedly empty."))
      else pure (pos 0, record f { addrs = a; get_threads = some v })

  -- `read` is the GetThreads of each ABI.
  unfoldable pub frob_threads :
      (Version → Pid → PyAddresses → Bool → Cmd W (List Thread)) → PyFrob → Cmd W (List Thread)
  frob_threads read f = elim f.get_threads [
    | none ↦ stuck
    | some v ↦ read v f.pid f.addrs f.enable_threads
  ]

-- The line that `std::getline` gives of `/proc/<pid>/stat`.
first_line : Text → Text
first_line t = elim (prefix_to b'\n' t) [ none ↦ t | some u ↦ u ]

-- `fuel` bounds each loop.
module _ {W : Type 0} (os : Os W) (files : Files W) (build : Build) (page_size fuel : ℕ) where
  status : PyFrob → Cmd W Text
  status f = do
    t ← sys (files.read_file (codes "/proc/" ++ (decimal_ℤ f.pid ++ codes "/stat")))
    pure (first_line t)

  -- Behind the call of Parse, an `ELF` on the stack, which any way out closes.
  unfoldable pub with_elf : {A : Type 0} → Text → Namespace → (Elf → Cmd W A) → Cmd W A
  with_elf target ns use_elf = do
    mapped ← map_file os files fuel target ns
    finally (do check_header target mapped; elf ← parse mapped; use_elf elf)
        (close_elf os files fuel mapped)

  unfoldable pub addresses_from_lib_python : Pid → Text → Namespace → Cmd W (PyAddresses × PyAbi)
  addresses_from_lib_python pid libpython ns = do
    r ← locate_lib_python files pid libpython
    if r.0 == 0
        then raise (symbol_exception (codes "Failed to locate libpython named " ++ libpython))
        else with_elf r.1 ns (λ elf. do
          found ← get_addresses fuel elf
          if empty (found.0)
              then raise (symbol_exception (codes "Failed to locate addresses"))
              else pure (add (found.0) r.0, found.1))

  -- The search in the library that the executable names, or else in libpython2.7.so.
  pub addresses_from_needed : Pid → Namespace → List Text → Cmd W (PyAddresses × PyAbi)
  addresses_from_needed pid ns libs = elim (find_lib libs) [
    | [] ↦ addresses_from_lib_python pid (codes "libpython2.7.so") ns
    | c ∷ cs ↦ addresses_from_lib_python pid (c ∷ cs) ns
  ]

  -- Behind the call of Parse on the executable.
  unfoldable pub addresses_of : Pid → Text → Namespace → Elf → Cmd W (PyAddresses × PyAbi)
  addresses_of pid exe ns target = do
    found ← get_addresses fuel target
    if not (empty (found.0))
        then if found.0.pie
          then (do r ← locate_lib_python files pid exe; pure (add (found.0) r.0, found.1))
          else pure found
        else (do libs ← needed_libs fuel fuel target; addresses_from_needed pid ns libs)

  -- The ABI is what the last call of GetAddresses stores by its pointer.
  unfoldable pub addresses : Pid → Namespace → Cmd W (PyAddresses × PyAbi)
  addresses pid ns = do
    exe ← read_link os files (codes "/proc/" ++ (decimal_ℤ pid ++ codes "/exe"))
    with_elf exe ns (addresses_of pid exe ns)

  -- The call of PyInterpreterState_Head, where it is needed.
  unfoldable pub find_hint : PyFrob → PyAddresses → Cmd W PyAddresses
  find_hint f a =
      if f.enable_threads
        && a.interp_head_addr == 0
        && a.interp_head_hint == 0
        && not (a.interp_head_fn_addr == 0)
      then (do
        hint ← ptrace_call_function os page_size fuel f.pid a.interp_head_fn_addr
        pure (record a { interp_head_hint = hint }))
      else pure a

  -- Behind the construction of the Namespace.
  unfoldable pub set_addrs_in : PyFrob → Namespace → Cmd W (Option (PyAddresses × PyAbi))
  set_addrs_in f ns = do
    found ←
        try (do a ← addresses f.pid ns; pure (some a))
          λ e. elim e [ symbol_exception t ↦ pure none | other ↦ raise other ]
    elim found [ none ↦ pure none | some r ↦ do a ← find_hint f r.0; pure (some (a, r.1)) ]

  -- The addresses with the ABI, or `none` for the return code 1.
  unfoldable pub set_addrs : PyFrob → Cmd W (Option (PyAddresses × PyAbi))
  set_addrs f = do
    ns ← new_namespace os files fuel f.pid
    finally (set_addrs_in f ns) (drop_namespace os files fuel ns)

  -- The part behind the call of `set_addrs_`, with the ABI in `abi`.
  unfoldable pub choose_abi : PyAbi → PyAddresses → PyFrob → Cmd W (ℤ × PyFrob)
  choose_abi abi a f = elim abi [
    | unknown ↦ raise (fatal_exception (codes "Failed to detect a Python ABI."))
    | known ↦ use_version known (version_of build known) a f
  ]

  -- The return code, and the object; where an exception leaves it, the object is not used again.
  unfoldable pub detect_abi : PyAbi → PyFrob → Cmd W (ℤ × PyFrob)
  detect_abi abi f = do
    found ← set_addrs f
    elim found [
      | none ↦ pure (pos 1, f)
      | some r ↦ choose_abi (elim abi [ unknown ↦ r.1 | known ↦ known ]) r.0 f
    ]

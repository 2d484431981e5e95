-- ===== src/PyFrob/Detected.antt =====
-- A search that succeeds leaves an object whose GetThreads can be called.
use pyflame.Common.Int.{ℤ, pos, int_eq}
use pyflame.Common.{ℕ, true, false, Option, none, some, ◌≡◌, refl, Bool-cases, inl, inr}
use pyflame.Exc.Post.{Ensures, Ensures-resume, Ensures-any}
use pyflame.Exc.{State, Cmd, pure}
use pyflame.Frob.Layout.{Version}
use pyflame.Os.{Os}
use pyflame.Posix.{Files}
use pyflame.Prober.Loop.Retries.{find_symbols-Ensures}
use pyflame.Prober.Loop.{find_symbols}
use pyflame.Prober.{Build, Prober}
use pyflame.PyFrob.{PyFrob, version_of, use_version, choose_abi, set_addrs, detect_abi}
use pyflame.Symbol.Addresses.{PyAbi, unknown, py26, py34, py36, PyAddresses, empty}

-- The address of the current thread state is known, and the function pointer is set.
abbrev pub IsDetected : PyFrob → Type 0
IsDetected f = (empty f.addrs ≡ false) × ((v : Version) × (f.get_threads ≡ some v))

-- The code 0 comes with such an object.
abbrev pub Detects : ℤ × PyFrob → Type 0
Detects r = int_eq r.0 (pos 0) ≡ true → IsDetected r.1

module _ {W : Type 0} (os : Os W) (files : Files W) (build : Build) (page_size fuel : ℕ) where
  use_version-Detects :
      (abi : PyAbi) (v : Option Version) (a : PyAddresses) (f : PyFrob) (s : State W)
      → Ensures Detects (use_version abi v a f s)
  unfolding use_version
  use_version-Detects abi none a f s = tt
  use_version-Detects abi (some v) a f s = elim (Bool-cases (empty a)) [
    | inl e ↦ rw e tt
    | inr e ↦ rw e (λ _. (e, (v, refl)))
  ]

  choose_abi-Detects :
      (abi : PyAbi) (a : PyAddresses) (f : PyFrob) (s : State W)
      → Ensures Detects (choose_abi os files build page_size fuel abi a f s)
  unfolding choose_abi
  choose_abi-Detects unknown a f s = tt
  choose_abi-Detects py26 a f s = use_version-Detects py26 (version_of build py26) a f s
  choose_abi-Detects py34 a f s = use_version-Detects py34 (version_of build py34) a f s
  choose_abi-Detects py36 a f s = use_version-Detects py36 (version_of build py36) a f s

  -- Whatever the files and the process do, when DetectABI returns 0, the object holds a thread
  -- state address that is not null and a function pointer that is set.
  detect_abi-Detects :
      (abi : PyAbi) (f : PyFrob) (s : State W)
      → Ensures Detects (detect_abi os files build page_size fuel abi f s)
  unfolding detect_abi
  detect_abi-Detects abi f s =
      Ensures-resume (λ _. Unit) Detects (set_addrs os files build page_size fuel f s) _
        (Ensures-any (set_addrs os files build page_size fuel f s)) next
    where
      next :
          (r : Option (PyAddresses × PyAbi)) (t : State W)
          → Unit {0}
          → Ensures Detects (
              (elim r as (λ _. Cmd W (ℤ × PyFrob)) [
                | none ↦ pure (pos 1, f)
                | some r ↦
                    choose_abi os files build page_size fuel
                      (elim abi [ unknown ↦ r.1 | known ↦ known ])
                      r.0
                      f
              ])
                t)
      next none t _ = λ e. cc
      next (some r) t _ = choose_abi-Detects (elim abi [ unknown ↦ r.1 | known ↦ known ]) r.0 f t

  -- Whatever the files and the process do, when FindSymbols on DetectABI returns 0, the object
  -- holds a thread state address that is not null and a function pointer that is set, so that the
  -- call of GetThreads is defined.
  pub find_symbols-Detects :
      {D : Type 0} (wait_fuel : ℕ) (p : Prober D) (f : PyFrob) (s : State W)
      → Ensures Detects (find_symbols os wait_fuel p (detect_abi os files build page_size fuel) f s)
  find_symbols-Detects wait_fuel p =
      find_symbols-Ensures os wait_fuel p (detect_abi os files build page_size fuel) IsDetected
        (detect_abi-Detects p.abi)

-- ===== src/Posix.antt =====
-- src/posix.cc and src/posix.h: calls of the file system that throw, and ReadLink.
use pyflame.Common.Int.{ℤ, pos, negsuc, int_eq, is_negative, decimal_ℤ}
use pyflame.Common.{
  ℕ, zero, suc, Text, codes, Bool, Option, none, some, ◌++◌, ltb, if◌then◌else◌, length,
}
use pyflame.Exc.{fatal_exception, Cmd, pure, raise, stuck, no_fuel, ◌>>=◌}
use pyflame.Os.{Memory, Os, sys}

-- What a call returns, with the `errno` that it leaves.
pub record Result : Type 0 where
  pub ret : ℤ
  pub errno : ℕ

-- The fields of `struct stat` that the code reads: `st_ino`, and `S_ISLNK(st_mode)`.
pub record Stat : Type 0 where
  pub ino : ℕ
  pub is_link : Bool

-- The calls of the operating system on files; a descriptor is opened with `O_RDONLY`.
pub record Files (W : Type 0) : Type 0 where
  pub open_file : Text → W → Result × W
  pub close : ℤ → W → ℤ × W
  pub fstat : ℤ → W → (Result × Stat) × W
  pub lstat : Text → W → (Result × Stat) × W
  pub setns : ℤ → W → Result × W
  -- readlink(2) into a buffer of a given size: the bytes stored, or `errno`.
  pub readlink : Text → ℕ → W → (Option Text × ℕ) × W
  -- `lseek(fd, 0, SEEK_END)`, as a `size_t`.
  pub file_size : ℤ → W → ℕ × W
  -- A shared mapping of a descriptor for reading, by the offset, or `errno`.
  pub mmap : ℤ → ℕ → W → (Option Memory × ℕ) × W
  pub munmap : Memory → ℕ → W → W
  -- What a `std::ifstream` reads of a file; it is empty where the file cannot be opened.
  pub read_file : Text → W → Text × W

abbrev pub path_max : ℕ
path_max = 4096

module _ {W : Type 0} (os : Os W) (files : Files W) where
  unfoldable pub open_rdonly : Text → Cmd W ℤ
  open_rdonly path = do
    fd ← sys (files.open_file path)
    if is_negative fd.ret
        then raise (
            fatal_exception
              (codes "Failed to open " ++ (path ++ (codes ": " ++ os.strerror fd.errno))))
        else pure fd.ret

  -- The loop of Close, with `fuel` calls at most.
  unfoldable pub close_loop : ℕ → ℤ → Cmd W (Unit {0})
  close_loop zero fd = no_fuel
  close_loop (suc fuel) fd = do
    ret ← sys (files.close fd)
    if int_eq ret (negsuc 0) then close_loop fuel fd else pure tt

  unfoldable pub close : ℕ → ℤ → Cmd W (Unit {0})
  close fuel (pos n) = close_loop fuel (pos n)
  close fuel (negsuc n) = pure tt

  unfoldable pub fstat : ℤ → Cmd W Stat
  fstat fd = do
    r ← sys (files.fstat fd)
    if is_negative r.0.ret
        then raise (
            fatal_exception (
              codes "Failed to fstat file descriptor "
              ++ (decimal_ℤ fd ++ (codes ": " ++ os.strerror r.0.errno))))
        else pure r.1

  pub lstat : Text → Cmd W Stat
  lstat path = do
    r ← sys (files.lstat path)
    if is_negative r.0.ret
        then raise (
            fatal_exception
              (codes "Failed to lstat path " ++ (path ++ (codes ": " ++ os.strerror r.0.errno))))
        else pure r.1

  unfoldable pub set_ns : ℤ → Cmd W (Unit {0})
  set_ns fd = do
    r ← sys (files.setns fd)
    if int_eq r.ret (pos 0)
        then pure tt
        else raise (
            fatal_exception
              (codes "Failed to setns " ++ (decimal_ℤ fd ++ (codes ": " ++ os.strerror r.errno))))

  -- The NUL is stored behind the bytes, which is out of the buffer where they fill it.
  unfoldable pub read_link : Text → Cmd W Text
  read_link path = do
    r ← sys (files.readlink path path_max)
    elim r.0 [
      | none ↦ raise (
          fatal_exception
            (codes "Failed to read symlink " ++ (path ++ (codes ": " ++ os.strerror r.1))))
      | some t ↦ if ltb (length t) path_max then pure t else stuck
    ]

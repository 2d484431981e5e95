-- ===== src/Namespace.antt =====
-- src/namespace.cc and src/namespace.h: opening files in the mount namespace of another process.
pub mod Mounts
pub mod Home
pub mod Opened
use pyflame.Common.Int.{ℤ, pos, negsuc, int_eq, is_negative, decimal_ℤ}
use pyflame.Common.{
  ℕ, Text, codes, text_eq, not, none, some, ◌++◌, ltb, ◌==◌, if◌then◌else◌, length,
}
use pyflame.Exc.{fatal_exception, Cmd, pure, raise, stuck, print_err, ◌>>=◌, ◌>>◌}
use pyflame.Os.{Pid, Os, sys}
use pyflame.Posix.{Files, Result, path_max, open_rdonly, close, fstat, set_ns}
use pyflame.Ptrace.{c_str}

-- The descriptors by which the process comes back, and by which it enters the other namespace.
pub record Namespace : Type 0 where
  pub out : ℤ
  pub inner : ℤ

abbrev pub no_namespace : Namespace
no_namespace = record { out = negsuc 0; inner = negsuc 0 }

abbrev pub our_mnt : Text
our_mnt = codes "/proc/self/ns/mnt"

unfoldable pub their_mnt : Pid → Text
their_mnt pid = codes "/proc/" ++ (decimal_ℤ pid ++ codes "/ns/mnt")

module _ {W : Type 0} (os : Os W) (files : Files W) (fuel : ℕ) where
  -- readlink(2) into a buffer on the stack, and the NUL behind its bytes.
  unfoldable pub read_name : Text → Cmd W Text
  read_name path = do
    r ← sys (files.readlink path path_max)
    elim r.0 [
      | none ↦ raise (
          fatal_exception
            (codes "Failed to readlink " ++ (path ++ (codes ": " ++ os.strerror r.1))))
      | some t ↦ if ltb (length t) path_max then pure t else stuck
    ]

  -- The branch for symbolic links; `strcmp` ends at the first NUL.
  unfoldable pub open_links : Pid → Cmd W Namespace
  open_links pid = do
    our_name ← read_name our_mnt
    their_name ← read_name (their_mnt pid)
    if text_eq (c_str our_name) (c_str their_name) then pure no_namespace else (do
      out ← open_rdonly os files our_mnt
      inner ← open_rdonly os files (their_mnt pid)
      pure (record { out = out; inner = inner }))

  -- The branch for hard links.
  unfoldable pub open_nodes : Pid → Cmd W Namespace
  open_nodes pid = do
    out ← open_rdonly os files our_mnt
    out_st ← fstat os files out
    inner ← open_rdonly os files (their_mnt pid)
    in_st ← fstat os files inner
    if out_st.ino == in_st.ino
        then (do close os files fuel out; close os files fuel inner; pure no_namespace)
        else pure (record { out = out; inner = inner })

  -- The constructor; an exception leaves open what it has opened.
  unfoldable pub new_namespace : Pid → Cmd W Namespace
  new_namespace pid = do
    r ← sys (files.lstat our_mnt)
    if is_negative r.0.ret
        then print_err
            (codes "Failed to lstat path " ++ (our_mnt ++ (codes ": " ++ os.strerror r.0.errno)))
          >> pure no_namespace
        else if r.1.is_link
        then open_links pid
        else open_nodes pid

  -- The result is a descriptor, or -1 with the `errno` of open(2): a setns(2) that succeeds leaves it.
  unfoldable pub open_in : Namespace → Text → Cmd W Result
  open_in ns path =
      if not (int_eq ns.inner (negsuc 0))
      then (do
        set_ns os files ns.inner
        fd ← sys (files.open_file path)
        set_ns os files ns.out
        pure fd)
      else sys (files.open_file path)

  -- The destructor tests `out_` against 0, and Close does nothing for -1.
  unfoldable pub drop_namespace : Namespace → Cmd W (Unit {0})
  drop_namespace ns =
      if int_eq ns.out (pos 0)
      then pure tt
      else (do close os files fuel ns.out; close os files fuel ns.inner)

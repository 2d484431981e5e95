-- ===== src/Namespace/Mounts.antt =====
-- The mount namespaces of the operating system, and what the manual pages say of them.
use pyflame.Common.Int.{ℤ, pos, negsuc, int_eq}
use pyflame.Common.{ℕ, Text, false, Option, some, ◌≡◌, ◌⊎◌}
use pyflame.Namespace.{Namespace, our_mnt}
use pyflame.Posix.{Files}

-- The mount namespaces `N` of the operating system: the one the process is in, and the one that a
-- descriptor refers to.
pub record Mounts (W N : Type 0) : Type 0 where
  pub here : W → N
  pub refers : ℤ → W → Option N

-- A step that leaves the process where it is, and what descriptors refer to.
abbrev pub Keeps : {W N : Type 0} → Mounts W N → W → W → Type 0
Keeps {N = N} m v w =
    (m.here w ≡ m.here v) × ((fd : ℤ) (n : N) → m.refers fd v ≡ some n → m.refers fd w ≡ some n)

-- What open_namespaces(7), setns(2) and mount_namespaces(7) say of the calls.
pub record MountLaws {W N : Type 0} (files : Files W) (m : Mounts W N) : Type 0 where
  pub open_file : (path : Text) (w : W) → Keeps m w (files.open_file path w).1
  pub open_ours :
      (w : W) (n : ℕ)
      → (files.open_file our_mnt w).0.ret ≡ pos n
      → m.refers (pos n) (files.open_file our_mnt w).1 ≡ some (m.here w)
  pub fstat : (fd : ℤ) (w : W) → Keeps m w (files.fstat fd w).1
  pub lstat : (path : Text) (w : W) → Keeps m w (files.lstat path w).1
  pub readlink : (path : Text) (size : ℕ) (w : W) → Keeps m w (files.readlink path size w).1
  pub setns_enters :
      (fd : ℤ) (w : W)
      → (files.setns fd w).0.ret ≡ pos 0
      → some (m.here (files.setns fd w).1) ≡ m.refers fd w
  pub setns_fails :
      (fd : ℤ) (w : W)
      → int_eq (files.setns fd w).0.ret (pos 0) ≡ false
      → m.here (files.setns fd w).1 ≡ m.here w
  pub setns_keeps :
      (fd g : ℤ) (w : W) (n : N) → m.refers g w ≡ some n → m.refers g (files.setns fd w).1 ≡ some n

-- No other namespace is needed, or the first descriptor leads back to where the process is.
abbrev pub IsOpen : {W N : Type 0} → Mounts W N → Namespace → W → Type 0
IsOpen m ns w = (ns.inner ≡ negsuc 0) ⊎ (m.refers ns.out w ≡ some (m.here w))

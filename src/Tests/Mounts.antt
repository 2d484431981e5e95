-- ===== src/Tests/Mounts.antt =====
-- Two mount namespaces, 0 and 1. The descriptors from 3 on refer to them, and the world is the one
-- that the process is in.
use pyflame.Common.Int.{ℤ, pos, negsuc, int_eq}
use pyflame.Common.{
  ℕ, ◌+◌, ◌-◌, codes, text_eq, Bool, true, false, Option, none, some, ◌≡◌, inr, refl, ap, sym, ◌∙◌,
  arith, ltb, if◌then◌else◌,
}
use pyflame.Exc.Post.{Ends}
use pyflame.Namespace.Mounts.{Mounts, MountLaws, IsOpen}
use pyflame.Namespace.Home.{open_in-Home}
use pyflame.Namespace.Opened.{new_namespace-IsOpen}
use pyflame.Namespace.{Namespace, our_mnt, new_namespace, open_in}
use pyflame.Posix.{Files, Result}
use pyflame.Tests.Executable.{static, start, success}
use pyflame.Tests.Probing.{ticks}

abbrev result : ℤ → Result
result ret = record { ret = ret; errno = 0 }

abbrev open_mnt : Bool → ℕ → ℕ
open_mnt true w = w + 3
open_mnt false w = 4

abbrev refers : ℤ → Option ℕ
refers (pos n) = if ltb n 3 then none else some (n - 3)
refers (negsuc n) = none

abbrev enter : Option ℕ → ℕ → Result × ℕ
enter none w = (result (negsuc 0), w)
enter (some n) w = (result (pos 0), n)

abbrev mounting : Files ℕ
mounting = record static {
  open_file = λ path w. (result (pos (open_mnt (text_eq path our_mnt) w)), w);
  lstat = λ path w. ((success, record { ino = 7; is_link = false }), w);
  fstat = λ fd w.
      ((success, record { ino = elim fd [ pos n ↦ n | negsuc n ↦ 0 ]; is_link = false }), w);
  setns = λ fd w. enter (refers fd) w;
}

abbrev mounts : Mounts ℕ ℕ
mounts = record { here = λ w. w; refers = λ fd w. refers fd }

refers-open : (w n : ℕ) → pos (w + 3) ≡ pos n → refers (pos n) ≡ some w
refers-open w n e = sym (ap refers e) ∙ ground arith

laws : MountLaws mounting mounts
unfolding codes text_eq
laws = record {
  open_file = λ path w. (refl, λ fd n h. h);
  open_ours = λ w n e. refers-open w n e;
  fstat = λ fd w. (refl, λ g n h. h);
  lstat = λ path w. (refl, λ g n h. h);
  readlink = λ path size w. (refl, λ g n h. h);
  setns_enters = λ fd w e. enters (refers fd) w e;
  setns_fails = λ fd w e. fails (refers fd) w e;
  setns_keeps = λ fd g w n h. h;
}
  where
    enters : (o : Option ℕ) (w : ℕ) → (enter o w).0.ret ≡ pos 0 → some (enter o w).1 ≡ o
    enters none w e = cc
    enters (some n) w e = refl

    fails : (o : Option ℕ) (w : ℕ) → int_eq (enter o w).0.ret (pos 0) ≡ false → (enter o w).1 ≡ w
    fails none w e = refl
    fails (some n) w e = absurd (ground arith)

abbrev theirs : Namespace
theirs = record { out = pos 3; inner = pos 4 }

open_in-Home_example :
    Ends ⊥
      (λ r t. t.world ≡ 0)
      (λ t. t.world ≡ 0)
      (open_in ticks mounting 9 theirs (codes "/usr/bin/python") start)
open_in-Home_example =
    open_in-Home ticks mounting mounts laws 9 theirs (codes "/usr/bin/python") start (inr refl)
      (λ w e. refl)

new_namespace-IsOpen_example :
    Ends Unit
      (λ ns t. IsOpen mounts ns t.world)
      (λ _. Unit)
      (new_namespace ticks mounting 9 (pos 2) start)
new_namespace-IsOpen_example = new_namespace-IsOpen ticks mounting mounts laws 9 (pos 2) start

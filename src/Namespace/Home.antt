-- ===== src/Namespace/Home.antt =====
-- Namespace::Open goes into the mount namespace of another process, and comes back.
use pyflame.Common.Int.{ℤ, pos, negsuc, int_eq, int_eq→eq}
use pyflame.Common.{ℕ, Text, true, false, not, none, some, ◌≡◌, inl, inr, sym, ap, ◌∙◌, arith}
use pyflame.Exc.Post.{Ends, Ends-resume, Ends-if}
use pyflame.Exc.{State, pure, ◌>>=◌}
use pyflame.Namespace.{Namespace, open_in}
use pyflame.Os.{Os, sys}
use pyflame.Posix.{Files, Result, set_ns}
use pyflame.Namespace.Mounts.{Mounts, MountLaws, IsOpen}

injective : {N : Type 0} {a b : N} → some a ≡ some b → a ≡ b
injective {a = a} h = ap (λ o. elim o [ none ↦ a | some x ↦ x ]) h

clash : {a : ℤ} → a ≡ pos 0 → int_eq a (pos 0) ≡ false → ⊥
clash {a = a} h e =
    let t : true ≡ false = sym (ap (λ x. int_eq x (pos 0)) h) ∙ e in absurd (ground arith)

module _ {W N : Type 0} (os : Os W) (files : Files W) (m : Mounts W N) (laws : MountLaws files m)
    (fuel : ℕ) where
  -- The process is in `n`.
  abbrev pub At : N → State W → Type 0
  At n t = m.here t.world ≡ n

  set_ns-Ends :
      (P Q : State W → Type 0) (fd : ℤ) (s : State W)
      → ((files.setns fd s.world).0.ret ≡ pos 0
          → P (record s { world = (files.setns fd s.world).1 }))
      → (int_eq (files.setns fd s.world).0.ret (pos 0) ≡ false
          → Q (record s { world = (files.setns fd s.world).1 }))
      → Ends ⊥ (λ _. P) Q (set_ns os files fd s)
  unfolding set_ns
  set_ns-Ends P Q fd s f g =
      let ret = (files.setns fd s.world).0.ret in
      Ends-if ⊥ (λ _. P) Q (int_eq ret (pos 0)) (pure tt) _
        (record s { world = (files.setns fd s.world).1 }) (λ h. f (int_eq→eq ret (pos 0) h)) g

  -- The call of setns(2) that leads back.
  back :
      (ns : Namespace) (n : N) (fd : Result) (s : State W)
      → m.refers ns.out s.world ≡ some n
      → ((w : W) → m.refers ns.out w ≡ some n → (files.setns ns.out w).0.ret ≡ pos 0)
      → Ends ⊥ (λ r t. At n t) (At n) ((set_ns os files ns.out >>= λ _. pure fd) s)
  back ns n fd s h free =
      let ret = free s.world h in
      Ends-resume ⊥ (λ _. At n) (λ r t. At n t) (At n) (set_ns os files ns.out s) (λ _. pure fd)
        (set_ns-Ends (At n) (At n) ns.out s
          (λ e. injective (laws.setns_enters ns.out s.world ret ∙ h)) (λ e. absurd (clash ret e)))
        (λ _ t p. p)

  -- Where the first descriptor of a Namespace refers to the mount namespace of the process, and
  -- setns(2) into that one is allowed, Namespace::Open returns or throws, and in both cases the
  -- process is in the mount namespace where it was; the same where there is no second descriptor.
  -- The hypotheses on setns(2) and open(2) are what the manual pages say.
  pub open_in-Home :
      (ns : Namespace) (path : Text) (s : State W)
      → IsOpen m ns s.world
      → ((w : W) → m.refers ns.out w ≡ some (m.here s.world) → (files.setns ns.out w).0.ret ≡ pos 0)
      → Ends ⊥
          (λ r t. At (m.here s.world) t)
          (At (m.here s.world))
          (open_in os files fuel ns path s)
  unfolding open_in
  open_in-Home ns path s (inl e) free = rw e ((laws.open_file path s.world).0)
  open_in-Home ns path s (inr e) free =
      let home = m.here s.world in
      Ends-if ⊥ (λ r t. At home t) (At home) (not (int_eq ns.inner (negsuc 0))) _
        (sys (files.open_file path)) s
        (λ _.
          Ends-resume ⊥ (λ _ t. m.refers ns.out t.world ≡ some home) (λ r t. At home t) (At home)
            (set_ns os files ns.inner s) _
            (set_ns-Ends (λ t. m.refers ns.out t.world ≡ some home) (At home) ns.inner s
              (λ _. laws.setns_keeps ns.inner ns.out s.world home e)
              (laws.setns_fails ns.inner s.world))
            (λ _ t p.
              back ns home (files.open_file path t.world).0
                (record t { world = (files.open_file path t.world).1 })
                ((laws.open_file path t.world).1 ns.out home p) free))
        (λ _. (laws.open_file path s.world).0)

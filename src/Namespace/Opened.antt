-- ===== src/Namespace/Opened.antt =====
-- What the constructor of Namespace leaves.
use pyflame.Common.Int.{ℤ, pos, negsuc, is_negative}
use pyflame.Common.{ℕ, Text, text_eq, false, some, ◌≡◌, inl, inr, refl, sym, ap, ◌∙◌, arith, ◌==◌}
use pyflame.Exc.Post.{Ends, Ends-resume, Ends-if}
use pyflame.Exc.{State, Run, ok, throw, undefined, out_of_fuel, pure}
use pyflame.Namespace.{
  Namespace, no_namespace, our_mnt, their_mnt, read_name, open_links, open_nodes, new_namespace,
}
use pyflame.Os.{Os, Pid}
use pyflame.Ptrace.{c_str}
use pyflame.Posix.{Files, open_rdonly, close, fstat}
use pyflame.Namespace.Mounts.{Mounts, Keeps, MountLaws, IsOpen}

nonneg : (a : ℤ) → is_negative a ≡ false → (n : ℕ) × (a ≡ pos n)
nonneg (pos n) h = (n, refl)
nonneg (negsuc n) h = ground arith

module _ {W N : Type 0} (os : Os W) (files : Files W) (m : Mounts W N) (laws : MountLaws files m)
    (fuel : ℕ) where
  -- A descriptor that leads back to where the process is.
  Leads : ℤ → State W → Type 0
  Leads fd t = m.refers fd t.world ≡ some (m.here t.world)

  Keeps-Leads :
      (fd : ℤ) (s : State W) (w : W)
      → Keeps m s.world w
      → Leads fd s
      → Leads fd (record s { world = w })
  unfolding Leads
  Keeps-Leads fd s w k h = k.1 fd (m.here s.world) h ∙ ap some (sym k.0)

  open_rdonly-Ends :
      (P : ℤ → State W → Type 0) (path : Text) (s : State W)
      → ((n : ℕ)
          → (files.open_file path s.world).0.ret ≡ pos n
          → P
              (files.open_file path s.world).0.ret
              (record s { world = (files.open_file path s.world).1 }))
      → Ends Unit P (λ _. Unit) (open_rdonly os files path s)
  unfolding open_rdonly
  open_rdonly-Ends P path s f =
      let ret = (files.open_file path s.world).0.ret in
      Ends-if Unit P (λ _. Unit) (is_negative ret) _ (pure ret)
        (record s { world = (files.open_file path s.world).1 }) (λ _. tt)
        (λ h. let r = nonneg ret h in f r.0 r.1)

  open_rdonly-ours : (s : State W) → Ends Unit Leads (λ _. Unit) (open_rdonly os files our_mnt s)
  unfolding Leads
  open_rdonly-ours s = open_rdonly-Ends Leads our_mnt s (λ n e.
      ap (λ g. m.refers g (files.open_file our_mnt s.world).1) e
      ∙ laws.open_ours s.world n e
      ∙ ap some (sym (laws.open_file our_mnt s.world).0))

  open_rdonly-Leads :
      (fd : ℤ) (path : Text) (s : State W)
      → Leads fd s
      → Ends Unit (λ _. Leads fd) (λ _. Unit) (open_rdonly os files path s)
  open_rdonly-Leads fd path s h =
      open_rdonly-Ends (λ _. Leads fd) path s
        (λ n e. Keeps-Leads fd s (files.open_file path s.world).1 (laws.open_file path s.world) h)

  fstat-Leads :
      (fd g : ℤ) (s : State W)
      → Leads fd s
      → Ends Unit (λ _. Leads fd) (λ _. Unit) (fstat os files g s)
  unfolding fstat
  fstat-Leads fd g s h =
      let r = files.fstat g s.world in
      Ends-if Unit (λ _. Leads fd) (λ _. Unit) (is_negative r.0.0.ret) _ (pure r.0.1)
        (record s { world = r.1 }) (λ _. tt) (λ _. Keeps-Leads fd s r.1 (laws.fstat g s.world) h)

  -- What the constructor is to leave.
  abbrev Opened : Namespace → State W → Type 0
  Opened ns t = IsOpen m ns t.world

  any : {A : Type 0} (r : Run W A) → Ends Unit (λ _ _. Unit) (λ _. Unit) r
  any (ok a s) = tt
  any (throw e s) = tt
  any undefined = tt
  any out_of_fuel = tt

  open_links-IsOpen :
      (pid : Pid) (s : State W) → Ends Unit Opened (λ _. Unit) (open_links os files fuel pid s)
  unfolding open_links Leads
  open_links-IsOpen pid s =
      Ends-resume Unit (λ _ _. Unit) Opened (λ _. Unit) (read_name os files fuel our_mnt s) _
        (any (read_name os files fuel our_mnt s))
        (λ our t _.
          Ends-resume Unit (λ _ _. Unit) Opened (λ _. Unit)
            (read_name os files fuel (their_mnt pid) t) _
            (any (read_name os files fuel (their_mnt pid) t))
            (λ their u _.
              Ends-if Unit Opened (λ _. Unit) (text_eq (c_str our) (c_str their))
                (pure no_namespace) _ u (λ _. inl refl)
                (λ _.
                  Ends-resume Unit Leads Opened (λ _. Unit) (open_rdonly os files our_mnt u) _
                    (open_rdonly-ours u)
                    (λ out v h.
                      Ends-resume Unit (λ _. Leads out) Opened (λ _. Unit)
                        (open_rdonly os files (their_mnt pid) v) _
                        (open_rdonly-Leads out (their_mnt pid) v h) (λ inner x i. inr i)))))

  open_nodes-IsOpen :
      (pid : Pid) (s : State W) → Ends Unit Opened (λ _. Unit) (open_nodes os files fuel pid s)
  unfolding open_nodes Leads
  open_nodes-IsOpen pid s =
      Ends-resume Unit Leads Opened (λ _. Unit) (open_rdonly os files our_mnt s) _
        (open_rdonly-ours s)
        (λ out t h.
          Ends-resume Unit (λ _. Leads out) Opened (λ _. Unit) (fstat os files out t) _
            (fstat-Leads out out t h)
            (λ out_st u i.
              Ends-resume Unit (λ _. Leads out) Opened (λ _. Unit)
                (open_rdonly os files (their_mnt pid) u) _
                (open_rdonly-Leads out (their_mnt pid) u i)
                (λ inner v j.
                  Ends-resume Unit (λ _. Leads out) Opened (λ _. Unit) (fstat os files inner v) _
                    (fstat-Leads out inner v j)
                    (λ in_st x k.
                      Ends-if Unit Opened (λ _. Unit) (out_st.ino == in_st.ino) _ _ x
                        (λ _.
                          Ends-resume Unit (λ _ _. Unit) Opened (λ _. Unit)
                            (close os files fuel out x) _ (any (close os files fuel out x))
                            (λ _ y _.
                              Ends-resume Unit (λ _ _. Unit) Opened (λ _. Unit)
                                (close os files fuel inner y) _ (any (close os files fuel inner y))
                                (λ _ z _. inl refl)))
                        (λ _. inr k)))))

  -- When the constructor of Namespace returns, the second descriptor is -1, or the first one refers
  -- to the mount namespace that the process is in, as Namespace::Open wants it. The hypotheses on
  -- the system calls are what the manual pages say.
  pub new_namespace-IsOpen :
      (pid : Pid) (s : State W)
      → Ends Unit (λ ns t. IsOpen m ns t.world) (λ _. Unit) (new_namespace os files fuel pid s)
  unfolding new_namespace
  new_namespace-IsOpen pid s =
      let r = files.lstat our_mnt s.world in
      Ends-if Unit Opened (λ _. Unit) (is_negative r.0.0.ret) _ _ (record s { world = r.1 })
        (λ _. inl refl)
        (λ _.
          Ends-if Unit Opened (λ _. Unit) r.0.1.is_link (open_links os files fuel pid)
            (open_nodes os files fuel pid) (record s { world = r.1 })
            (λ _. open_links-IsOpen pid (record s { world = r.1 }))
            (λ _. open_nodes-IsOpen pid (record s { world = r.1 })))

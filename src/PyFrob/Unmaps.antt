-- ===== src/PyFrob/Unmaps.antt =====
-- The mappings of ELF files that Addrs makes.
use pyflame.Aslr.{suffix_from, prefix_to, locate_in, locate_loop, locate_lib_python}
use pyflame.Common.Int.{ℤ, pos, negsuc, int_eq}
use pyflame.Common.{
  ℕ, zero, suc, ltb, length, Text, codes, ◌++◌, Option, none, some, List, [], ◌∷◌, ◌≡◌, refl, ap,
  ◌∙◌, ◌==◌,
}
use pyflame.Exc.Keeps.{
  Keeps, Keeps-option, Keeps-sys, Keeps-bind, Keeps-if, Keeps-pure, Keeps-raise, Keeps-stuck,
  keeps_rules,
}
use pyflame.Exc.Post.{Ends, Ends-resume, Ends-if}
use pyflame.Exc.{
  State, Cmd, Run, ok, throw, undefined, out_of_fuel, finally_run, resume, pure, raise, stuck,
  ◌>>=◌, ◌>>◌, Exception, fatal_exception,
}
use pyflame.Namespace.{Namespace, open_in}
use pyflame.Os.{Memory, Os, Pid, sys}
use pyflame.Posix.{Files, path_max, close, close_loop, set_ns, read_link}
use pyflame.Prober.{Build}
use pyflame.PyFrob.Shared.{libpython_of, addresses_from_needed-libpython_of}
use pyflame.Ptrace.{c_str}
use pyflame.PyFrob.{
  with_elf, addresses_from_lib_python, addresses_from_needed, addresses_of, addresses,
}
use pyflame.Symbol.Elf.Still.{parse-Keeps, check_header-Keeps, needed_libs-Keeps}
use pyflame.Symbol.Elf.{Elf, new_elf, map_file, close_elf, check_header, parse}
use pyflame.Symbol.Walk.Still.{get_addresses-Keeps}

-- The mappings of files that the process has, the last one first; each is known by its bytes and its
-- length. mmap(2) adds one where it succeeds, munmap(2) removes the last one, and the other calls
-- leave them as they are.
pub record MapLaws {W : Type 0} (files : Files W) (maps : W → List (Memory × ℕ)) : Type 0 where
  pub open_file : (path : Text) (w : W) → maps (files.open_file path w).1 ≡ maps w
  pub close : (fd : ℤ) (w : W) → maps (files.close fd w).1 ≡ maps w
  pub setns : (fd : ℤ) (w : W) → maps (files.setns fd w).1 ≡ maps w
  pub readlink : (path : Text) (size : ℕ) (w : W) → maps (files.readlink path size w).1 ≡ maps w
  pub file_size : (fd : ℤ) (w : W) → maps (files.file_size fd w).1 ≡ maps w
  pub read_file : (path : Text) (w : W) → maps (files.read_file path w).1 ≡ maps w
  pub mmap_fails :
      (fd : ℤ) (size : ℕ) (w : W)
      → (files.mmap fd size w).0.0 ≡ none
      → maps (files.mmap fd size w).1 ≡ maps w
  pub mmap :
      (fd : ℤ) (size : ℕ) (w : W) (image : Memory)
      → (files.mmap fd size w).0.0 ≡ some image
      → maps (files.mmap fd size w).1 ≡ (image, size) ∷ maps w
  pub munmap :
      (image : Memory) (size : ℕ) (w : W) (rest : List (Memory × ℕ))
      → maps w ≡ (image, size) ∷ rest
      → maps (files.munmap image size w) ≡ rest

module _ {W : Type 0} (os : Os W) (files : Files W) (build : Build) (page_size fuel : ℕ)
    (maps : W → List (Memory × ℕ)) (laws : MapLaws files maps) where
  -- The mappings are `m`.
  abbrev pub Maps : List (Memory × ℕ) → State W → Type 0
  Maps m s = maps s.world ≡ m

  module _ (m : List (Memory × ℕ)) where
    open_file-Keeps : (path : Text) → Keeps (Maps m) (sys (files.open_file path))
    open_file-Keeps path =
        Keeps-sys (Maps m) (files.open_file path) (λ s h. laws.open_file path s.world ∙ h)

    file_size-Keeps : (fd : ℤ) → Keeps (Maps m) (sys (files.file_size fd))
    file_size-Keeps fd =
        Keeps-sys (Maps m) (files.file_size fd) (λ s h. laws.file_size fd s.world ∙ h)

    setns-Keeps : (fd : ℤ) → Keeps (Maps m) (sys (files.setns fd))
    setns-Keeps fd = Keeps-sys (Maps m) (files.setns fd) (λ s h. laws.setns fd s.world ∙ h)

    readlink-Keeps : (path : Text) (size : ℕ) → Keeps (Maps m) (sys (files.readlink path size))
    readlink-Keeps path size =
        Keeps-sys (Maps m) (files.readlink path size) (λ s h. laws.readlink path size s.world ∙ h)

    read_file-Keeps : (path : Text) → Keeps (Maps m) (sys (files.read_file path))
    read_file-Keeps path =
        Keeps-sys (Maps m) (files.read_file path) (λ s h. laws.read_file path s.world ∙ h)

    set_ns-Keeps : (fd : ℤ) → Keeps (Maps m) (set_ns os files fd)
    unfolding set_ns
    set_ns-Keeps fd = search (keeps_rules, setns-Keeps)

    open_in-Keeps : (ns : Namespace) (path : Text) → Keeps (Maps m) (open_in os files fuel ns path)
    unfolding open_in
    open_in-Keeps ns path = search (keeps_rules, set_ns-Keeps, open_file-Keeps)

    -- Close throws nothing.
    close_loop-Ends :
        (Q : State W → Type 0) (n : ℕ) (fd : ℤ) (s : State W)
        → Maps m s
        → Ends (Unit {0}) (λ _. Maps m) Q (close_loop os files n fd s)
    unfolding close_loop
    close_loop-Ends Q zero fd s h = tt
    close_loop-Ends Q (suc n) fd s h =
        let t : State W = record s { world = (files.close fd s.world).1 } in
        let k = laws.close fd s.world ∙ h in
        let ih = close_loop-Ends Q n fd t k in
        Ends-if (Unit {0}) (λ _. Maps m) Q (int_eq (files.close fd s.world).0 (negsuc 0)) _ _ t
          (λ _. ih) (λ _. k)

    close-Ends :
        (Q : State W → Type 0) (fd : ℤ) (s : State W)
        → Maps m s
        → Ends (Unit {0}) (λ _. Maps m) Q (close os files fuel fd s)
    unfolding close
    close-Ends Q (pos n) s h = close_loop-Ends Q fuel (pos n) s h
    close-Ends Q (negsuc n) s h = h

    read_link-Keeps : (path : Text) → Keeps (Maps m) (read_link os files path)
    unfolding read_link
    read_link-Keeps path =
        Keeps-bind (Maps m) (sys (files.readlink path path_max)) _ (readlink-Keeps path path_max)
          (λ r.
            Keeps-option (Maps m) r.0 _ _
              (Keeps-raise (Maps m) (
                fatal_exception
                  (codes "Failed to read symlink " ++ (path ++ (codes ": " ++ os.strerror r.1)))))
              (λ t.
                Keeps-if (Maps m) (ltb (length t) path_max) (pure t) stuck (Keeps-pure (Maps m) t)
                  (Keeps-stuck (Maps m))))

    locate_in-Keeps : (line : Text) → Keeps (Maps m) (locate_in line)
    unfolding locate_in
    locate_in-Keeps line =
        Keeps-option (Maps m) (suffix_from b'/' line) _ _ (Keeps-raise (Maps m) _) (λ path.
          Keeps-option (Maps m) (prefix_to b'-' line) _ _ (Keeps-raise (Maps m) _)
            (λ start. Keeps-pure (Maps m) _))

    locate_loop-Keeps : (hint : Text) (ls : List Text) → Keeps (Maps m) (locate_loop hint ls)
    unfolding locate_loop
    locate_loop-Keeps hint [] = search keeps_rules
    locate_loop-Keeps hint (l ∷ ls) =
        let ih = locate_loop-Keeps hint ls in search (keeps_rules, locate_in-Keeps)

    locate-Keeps : (pid : Pid) (hint : Text) → Keeps (Maps m) (locate_lib_python files pid hint)
    unfolding locate_lib_python
    locate-Keeps pid hint = search (keeps_rules, read_file-Keeps, locate_loop-Keeps)

  -- What `map_file` leaves: a new mapping where it returns, and none where it throws.
  map_file-Maps :
      (m : List (Memory × ℕ)) (path : Text) (ns : Namespace) (s : State W)
      → Maps m s
      → Ends
          (Unit {0})
          (λ elf. Maps ((elf.image, elf.length) ∷ m))
          (Maps m)
          (map_file os files fuel path ns s)
  unfolding map_file
  map_file-Maps m path ns s h =
      Ends-resume (Unit {0}) (λ _. Maps m) _ (Maps m) (open_in os files fuel ns (c_str path) s) _
        ((open_in-Keeps m ns (c_str path)).at s h)
        (λ fd t k.
          Ends-if (Unit {0}) (λ elf. Maps ((elf.image, elf.length) ∷ m)) (Maps m)
            (int_eq fd.ret (negsuc 0)) _ _ t (λ _. k)
            (λ _. mapped fd.ret _ t (laws.file_size fd.ret t.world ∙ k) _ refl))
    where
      mapped :
          (fd : ℤ) (error : Exception) (t : State W)
          → maps (files.file_size fd t.world).1 ≡ m
          → (o : Option Memory)
          → (files.mmap fd (files.file_size fd t.world).0 (files.file_size fd t.world).1).0.0 ≡ o
          → Ends
              (Unit {0})
              (λ elf. Maps ((elf.image, elf.length) ∷ m))
              (Maps m)
              (resume
                (close os files fuel fd (record t {
                  world =
                      (files.mmap fd
                        (files.file_size fd t.world).0
                        (files.file_size fd t.world).1).1;
                }))
                (λ _. elim o as (λ _. Cmd W Elf) [
                  | none ↦ raise error
                  | some image ↦ pure (new_elf image (files.file_size fd t.world).0)
                ]))
      mapped fd error t k none e =
          Ends-resume (Unit {0}) (λ _. Maps m) _ (Maps m) (close os files fuel fd _) _
            (close-Ends m (Maps m) fd _ (
              laws.mmap_fails fd (files.file_size fd t.world).0 (files.file_size fd t.world).1 e
              ∙ k))
            (λ _ u p. p)
      mapped fd error t k (some image) e =
          let size = (files.file_size fd t.world).0 in
          Ends-resume (Unit {0}) (λ _. Maps ((image, size) ∷ m)) _ (Maps m)
            (close os files fuel fd _) _
            (close-Ends ((image, size) ∷ m) (Maps m) fd _ (
              laws.mmap fd size (files.file_size fd t.world).1 image e
              ∙ ap (λ n. (image, size) ∷ n) k))
            (λ _ u p. p)

  -- A destructor that unmaps what the body has kept.
  finally-Maps :
      {A : Type 0} (m : List (Memory × ℕ)) (elf : Elf) (r : Run W A)
      → Ends
          (Unit {0})
          (λ _. Maps ((elf.image, elf.length) ∷ m))
          (Maps ((elf.image, elf.length) ∷ m))
          r
      → Ends (Unit {0}) (λ _. Maps m) (Maps m) (finally_run r (close_elf os files fuel elf))
  unfolding close_elf
  finally-Maps m elf (ok a t) h = laws.munmap elf.image elf.length t.world m h
  finally-Maps m elf (throw e t) h = laws.munmap elf.image elf.length t.world m h
  finally-Maps m elf undefined h = tt
  finally-Maps m elf out_of_fuel h = tt

  with_elf-Keeps :
      {A : Type 0} (m : List (Memory × ℕ)) (path : Text) (ns : Namespace) (use_elf : Elf → Cmd W A)
      → ((elf : Elf) (n : List (Memory × ℕ)) → Keeps (Maps n) (use_elf elf))
      → Keeps (Maps m) (with_elf os files build page_size fuel path ns use_elf)
  unfolding with_elf
  with_elf-Keeps m path ns use_elf keeps = record {
    at = λ s h.
        Ends-resume (Unit {0}) (λ elf. Maps ((elf.image, elf.length) ∷ m)) (λ _. Maps m) (Maps m)
          (map_file os files fuel path ns s) _ (map_file-Maps m path ns s h)
          (λ elf t k. finally-Maps m elf _ ((body elf).at t k));
  }
    where
      body :
          (elf : Elf)
          → Keeps
              (Maps ((elf.image, elf.length) ∷ m))
              (do check_header path elf; parsed ← parse elf; use_elf parsed)
      body elf = search (keeps_rules, check_header-Keeps, parse-Keeps, keeps)

  lib-Keeps :
      (m : List (Memory × ℕ)) (pid : Pid) (name : Text) (ns : Namespace)
      → Keeps (Maps m) (addresses_from_lib_python os files build page_size fuel pid name ns)
  unfolding addresses_from_lib_python
  lib-Keeps m pid name ns =
      Keeps-bind (Maps m) (locate_lib_python files pid name) _ (locate-Keeps m pid name) (λ r.
        Keeps-if (Maps m) (r.0 == 0) _ _ (search keeps_rules)
          (with_elf-Keeps m r.1 ns _ (λ elf n. search (keeps_rules, get_addresses-Keeps))))

  needed-Keeps :
      (m : List (Memory × ℕ)) (pid : Pid) (ns : Namespace) (libs : List Text)
      → Keeps (Maps m) (addresses_from_needed os files build page_size fuel pid ns libs)
  needed-Keeps m pid ns libs =
      rw (addresses_from_needed-libpython_of os files build page_size fuel pid ns libs)
        (lib-Keeps m pid (libpython_of libs) ns)

  addresses_of-Keeps :
      (m : List (Memory × ℕ)) (pid : Pid) (exe : Text) (ns : Namespace) (elf : Elf)
      → Keeps (Maps m) (addresses_of os files build page_size fuel pid exe ns elf)
  unfolding addresses_of
  addresses_of-Keeps m pid exe ns elf =
      search (keeps_rules, get_addresses-Keeps, locate-Keeps, needed_libs-Keeps, needed-Keeps) depth
        12

  -- Whatever the files and the texts of /proc are, when Addrs returns or throws, the process has
  -- the mappings that it had before: each file that it maps is unmapped on every way out. The
  -- hypotheses say which system calls change the mappings, as the manual pages do.
  pub addresses-Maps :
      (pid : Pid) (ns : Namespace) (s : State W)
      → Ends
          (Unit {0})
          (λ _. Maps (maps s.world))
          (Maps (maps s.world))
          (addresses os files build page_size fuel pid ns s)
  unfolding addresses
  addresses-Maps pid ns s =
      let m = maps s.world in
      (Keeps-bind (Maps m) (read_link os files _) _ (read_link-Keeps m _) (λ exe.
          with_elf-Keeps m exe ns (addresses_of os files build page_size fuel pid exe ns)
            (λ elf n. addresses_of-Keeps n pid exe ns elf))).at
        s refl

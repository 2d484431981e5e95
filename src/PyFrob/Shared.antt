-- ===== src/PyFrob/Shared.antt =====
-- The search for the variables of the interpreter in the library that an executable names.
use pyflame.Aslr.Maps.{Region, print_maps}
use pyflame.Aslr.Regions.{IsRegion, first_region, locate_lib_python-regions}
use pyflame.Aslr.{maps_path}
use pyflame.Common.{
  ℕ, ◌<◌, Text, codes, contains, true, false, All, Option, some, List, [], ◌∷◌, ◌≡◌, refl, ap, ◌∙◌,
  ◌==◌, if◌then◌else◌, Bool-cases, inl, inr, length,
}
use pyflame.Exc.{State, ok, Cmd}
use pyflame.Namespace.{Namespace}
use pyflame.Os.{Os, Pid}
use pyflame.Posix.{Files}
use pyflame.Prober.{Build}
use pyflame.PyFrob.Located.{from_base}
use pyflame.PyFrob.{
  find_lib, with_elf, addresses_from_lib_python, addresses_from_needed, addresses_of,
}
use pyflame.Symbol.Addresses.{PyAbi, PyAddresses, add, subtract, empty}
use pyflame.Symbol.Elf.Needed.{Entry, HasEntries, libraries, needed_libs-libraries}
use pyflame.Symbol.Elf.Sections.{Reads}
use pyflame.Symbol.Elf.Segments.{Segment, HoldsSegments, first_load}
use pyflame.Symbol.Elf.{Elf, map_file, check_header, parse, close_elf}
use pyflame.Symbol.Walk.File.{HasTable, HasSymtab, found_in, relative, get_addresses-found}
use pyflame.Symbol.Walk.Scan.{Symbol}

-- The first library with `libpython` in its name, and else libpython2.7.so.
unfoldable pub libpython_of : List Text → Text
libpython_of [] = codes "libpython2.7.so"
libpython_of (lib ∷ libs) =
    let rest = libpython_of libs in if contains (codes "libpython") lib then lib else rest

-- An empty name stands for none.
abbrev or_guess : Text → Text
or_guess [] = codes "libpython2.7.so"
or_guess (c ∷ cs) = c ∷ cs

or_guess-find_lib : (libs : List Text) → or_guess (find_lib libs) ≡ libpython_of libs
unfolding find_lib libpython_of
or_guess-find_lib [] = refl
or_guess-find_lib ([] ∷ libs) =
    let absent : contains (codes "libpython") [] ≡ false = unfold contains codes in refl in
    rw absent (or_guess-find_lib libs)
or_guess-find_lib ((c ∷ cs) ∷ libs) = elim (Bool-cases (contains (codes "libpython") (c ∷ cs))) [
  | inl e ↦ rw e refl
  | inr e ↦ rw e (or_guess-find_lib libs)
]

-- A loaded file with symbols: its one or two symbol tables, its type, and its program headers.
pub record IsFile (elf : Elf) (fuel : ℕ) (xs : List Symbol) (symtab : Option (List Symbol))
    (segments : List Segment) (e_type : ℕ) : Type 0 where
  pub table : HasTable elf fuel elf.dynsym elf.dynstr xs
  pub second : HasSymtab elf fuel symtab
  pub kind : Reads elf.image 2 16 e_type
  pub headers : HoldsSegments elf segments

module _ {W : Type 0} (os : Os W) (files : Files W) (build : Build) (page_size fuel : ℕ) where
  -- The file at `path` can be mapped and parsed.
  pub record Opens (path : Text) (ns : Namespace) (s : State W) (mapped elf : Elf) (u : State W)
      : Type 0 where
    pub is_mapped : map_file os files fuel path ns s ≡ ok mapped u
    pub has_header : check_header path mapped u ≡ ok tt u
    pub is_parsed : parse mapped u ≡ ok elf u

  pub addresses_from_needed-libpython_of :
      (pid : Pid) (ns : Namespace) (libs : List Text)
      → addresses_from_needed os files build page_size fuel pid ns libs
        ≡ addresses_from_lib_python os files build page_size fuel pid (libpython_of libs) ns
  unfolding addresses_from_needed
  addresses_from_needed-libpython_of pid ns libs =
      chosen (find_lib libs)
      ∙ ap (λ name. addresses_from_lib_python os files build page_size fuel pid name ns)
          (or_guess-find_lib libs)
    where
      chosen :
          (name : Text)
          → elim name as (λ _. Cmd W (PyAddresses × PyAbi)) [
            | [] ↦
                addresses_from_lib_python os files build page_size fuel pid
                  (codes "libpython2.7.so")
                  ns
            | c ∷ cs ↦ addresses_from_lib_python os files build page_size fuel pid (c ∷ cs) ns
          ]
            ≡ addresses_from_lib_python os files build page_size fuel pid (or_guess name) ns
      chosen [] = refl
      chosen (c ∷ cs) = refl

  addresses_from_lib_python-found :
      (pid : Pid) (name : Text) (ns : Namespace) (s u : State W) (regions : List Region)
      (mapped lib : Elf) (xs : List Symbol) (symtab : Option (List Symbol))
      (segments : List Segment) (base : ℕ)
      → (files.read_file (maps_path pid) s.world).0 ≡ print_maps regions
      → All (IsRegion name) regions
      → ((first_region name regions).0 == 0) ≡ false
      → Opens
          (first_region name regions).1
          ns
          (record s { world = (files.read_file (maps_path pid) s.world).1 })
          mapped
          lib
          u
      → IsFile lib fuel xs symtab segments 3
      → first_load segments ≡ some base
      → empty (from_base (found_in xs symtab) base) ≡ false
      → addresses_from_lib_python os files build page_size fuel pid name ns s
        ≡ ok
            (
              add (from_base (found_in xs symtab) base) (first_region name regions).0,
              (found_in xs symtab).0,
            )
            (record u { world = files.munmap mapped.image mapped.length u.world })
  unfolding addresses_from_lib_python with_elf close_elf subtract
  addresses_from_lib_python-found pid name ns s u regions mapped lib xs symtab segments base maps
        held there opens is_file load found =
      rw
        (
          locate_lib_python-regions files pid name regions s maps held,
          there,
          opens.is_mapped,
          opens.has_header,
          opens.is_parsed,
          get_addresses-found lib u fuel xs symtab segments 3 is_file.table is_file.second
              is_file.kind is_file.headers,
          load,
          found,
        )
        refl

  -- For an executable whose symbols, in one or two tables of fewer than 2 ^ 16 each, give no
  -- address of the thread state, and whose dynamic section holds fewer than 2 ^ 16 entries, the
  -- part of Addrs behind Parse searches in the first needed library with `libpython` in its name,
  -- or else in libpython2.7.so: where /proc/PID/maps has an `r-xp` region with that name in its
  -- path, whose file can be mapped and parsed, is a shared object with a PT_LOAD segment, and has
  -- symbols that give an address of the thread state that is not the base itself, it returns the
  -- addresses that they give, minus the address of that segment and plus the start of the region,
  -- with the ABI that the last table of the library gives, and the library's mapping is removed.
  -- More rounds than entries, symbols and bytes of a name are enough.
  pub addresses_of-shared :
      (pid : Pid) (exe : Text) (ns : Namespace) (target : Elf) (s : State W)
      (target_symbols : List Symbol) (target_symtab : Option (List Symbol))
      (target_segments : List Segment) (e_type : ℕ) (entries : List Entry)
      (found : PyAddresses × PyAbi) (u : State W) (regions : List Region) (mapped lib : Elf)
      (xs : List Symbol) (symtab : Option (List Symbol)) (segments : List Segment) (base : ℕ)
      → IsFile target fuel target_symbols target_symtab target_segments e_type
      → relative
          (e_type == 3)
          (first_load target_segments)
          (found_in target_symbols target_symtab)
          s
        ≡ ok found s
      → empty found.0 ≡ true
      → HasEntries target fuel entries
      → length entries < fuel
      → (files.read_file (maps_path pid) s.world).0 ≡ print_maps regions
      → All (IsRegion (libpython_of (libraries entries))) regions
      → ((first_region (libpython_of (libraries entries)) regions).0 == 0) ≡ false
      → Opens
          (first_region (libpython_of (libraries entries)) regions).1
          ns
          (record s { world = (files.read_file (maps_path pid) s.world).1 })
          mapped
          lib
          u
      → IsFile lib fuel xs symtab segments 3
      → first_load segments ≡ some base
      → empty (from_base (found_in xs symtab) base) ≡ false
      → addresses_of os files build page_size fuel pid exe ns target s
        ≡ ok
            (
              add
                  (from_base (found_in xs symtab) base)
                  (first_region (libpython_of (libraries entries)) regions).0,
              (found_in xs symtab).0,
            )
            (record u { world = files.munmap mapped.image mapped.length u.world })
  unfolding addresses_of
  addresses_of-shared pid exe ns target s ts tst tsegs e_type entries found u regions mapped lib xs
        symtab segments base is_target looked none_there has short maps held there opens is_lib load
        is_found =
      rw
        (
          get_addresses-found target s fuel ts tst tsegs e_type is_target.table is_target.second
                is_target.kind is_target.headers
              ∙ looked,
          none_there,
          needed_libs-libraries target s fuel fuel entries has short,
          addresses_from_needed-libpython_of pid ns (libraries entries),
        )
        (addresses_from_lib_python-found pid (libpython_of (libraries entries)) ns s u regions
          mapped lib xs symtab segments base maps held there opens is_lib load is_found)

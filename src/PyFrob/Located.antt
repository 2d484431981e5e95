-- ===== src/PyFrob/Located.antt =====
-- Where the variables of the interpreter are in the memory of the process.
use pyflame.Aslr.Maps.{Region, print_maps}
use pyflame.Aslr.Regions.{IsRegion, first_region, locate_lib_python-regions}
use pyflame.Aslr.{maps_path}
use pyflame.Common.{ℕ, Text, true, false, All, Option, some, List, ◌≡◌, refl}
use pyflame.Exc.{State, ok}
use pyflame.Namespace.{Namespace}
use pyflame.Os.{Os, Pid}
use pyflame.Posix.{Files}
use pyflame.Prober.{Build}
use pyflame.PyFrob.{addresses_of}
use pyflame.Symbol.Addresses.{PyAbi, PyAddresses, add, subtract, empty}
use pyflame.Symbol.Elf.Sections.{Reads}
use pyflame.Symbol.Elf.Segments.{Segment, HoldsSegments, first_load}
use pyflame.Symbol.Elf.{Elf}
use pyflame.Symbol.Walk.File.{HasTable, HasSymtab, found_in, get_addresses-found}
use pyflame.Symbol.Walk.Scan.{Symbol}

-- The addresses in a shared object whose first loaded segment is at `base`.
abbrev pub from_base : PyAbi × PyAddresses → ℕ → PyAddresses
from_base r base = subtract (record (r.1) { pie = true }) base

module _ {W : Type 0} (os : Os W) (files : Files W) (build : Build) (page_size fuel : ℕ) where
  -- For a shared object, or a position-independent executable, whose mapping holds one or two
  -- symbol tables of fewer than 2 ^ 16 symbols, its type, and program headers with a PT_LOAD
  -- segment, with offsets of headers in the range of `int`, and where the symbols give an address
  -- of the thread state that is not the base itself, the part of Addrs behind Parse returns the
  -- addresses that the symbols give, minus the address of that segment and plus the start of the
  -- first region of /proc/PID/maps with the permissions `r-xp` and the executable's path in its
  -- path (0 if there is none), with the ABI that the last table gives. More rounds than symbols in
  -- a table are enough.
  pub addresses_of-pie :
      (pid : Pid) (exe : Text) (ns : Namespace) (target : Elf) (s : State W) (xs : List Symbol)
      (symtab : Option (List Symbol)) (segments : List Segment) (base : ℕ) (regions : List Region)
      → HasTable target fuel target.dynsym target.dynstr xs
      → HasSymtab target fuel symtab
      → Reads target.image 2 16 3
      → HoldsSegments target segments
      → first_load segments ≡ some base
      → empty (from_base (found_in xs symtab) base) ≡ false
      → (files.read_file (maps_path pid) s.world).0 ≡ print_maps regions
      → All (IsRegion exe) regions
      → addresses_of os files build page_size fuel pid exe ns target s
        ≡ ok
            (
              add (from_base (found_in xs symtab) base) (first_region exe regions).0,
              (found_in xs symtab).0,
            )
            (record s { world = (files.read_file (maps_path pid) s.world).1 })
  unfolding addresses_of subtract
  addresses_of-pie pid exe ns target s xs symtab segments base regions table second dyn segs load
        found maps held =
      rw
        (
          get_addresses-found target s fuel xs symtab segments 3 table second dyn segs,
          load,
          found,
          locate_lib_python-regions files pid exe regions s maps held,
        )
        refl

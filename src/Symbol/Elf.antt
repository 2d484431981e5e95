-- ===== src/Symbol/Elf.antt =====
-- `class ELF` of src/symbol.h and src/symbol.cc for 64-bit files: the mapping, the headers, Parse,
-- NeededLibs and GetBaseAddress. WalkTable and GetAddresses are in Symbol.Walk.
pub mod Sections
pub mod Parsed
pub mod Segments
pub mod Tables
pub mod Needed
pub mod Still
use pyflame.Common.Int.{ℤ, pos, negsuc, int_eq, decimal_ℤ}
use pyflame.Common.{
  ℕ, zero, suc, ◌+◌, ◌-◌, ◌*◌, ◌/◌, ◌%◌, ◌^◌, Text, codes, decimal, Bool, true, false, not, Option,
  none, some, List, [], ◌∷◌, ◌++◌, ltb, ◌==◌, if◌then◌else◌,
}
use pyflame.Exc.{fatal_exception, Cmd, pure, raise, stuck, no_fuel, ◌>>=◌, ◌>>◌}
use pyflame.Namespace.{Namespace, open_in}
use pyflame.Os.{Memory, Os, sys, word_of}
use pyflame.Posix.{Files, close}
use pyflame.Ptrace.{c_str}

-- The fields; `image` is the mapping at `addr_`, by the offset from it, and `length` its length.
pub record Elf : Type 0 where
  pub image : Memory
  pub length : ℕ
  pub dynamic : ℤ
  pub dynstr : ℤ
  pub dynsym : ℤ
  pub strtab : ℤ
  pub symtab : ℤ

-- The constructor, with a mapping.
abbrev pub new_elf : Memory → ℕ → Elf
new_elf image length = record {
  image = image;
  length = length;
  dynamic = negsuc 0;
  dynstr = negsuc 0;
  dynsym = negsuc 0;
  strtab = negsuc 0;
  symtab = negsuc 0;
}

-- A product of two values of type `int`; `none` is an overflow, which C++ leaves undefined.
unfoldable pub int_mul : ℕ → ℕ → Option ℕ
int_mul a b = if ltb (a * b) (2 ^ 31) then some (a * b) else none

-- An `unsigned int` as an `int` that is added to an `unsigned long`.
unfoldable pub sign_extend : ℕ → ℕ
sign_extend n = if ltb n (2 ^ 31) then n else n + 2 ^ 64 - 2 ^ 32

module _ {W : Type 0} where
  -- `n` bytes of the mapping; an address outside is not mapped.
  unfoldable pub field : Elf → ℕ → ℕ → Cmd W ℕ
  field elf n a = elim (word_of n elf.image (a % 2 ^ 64)) [ none ↦ stuck | some v ↦ pure v ]

  -- `strcmp(p, t) == 0`, which reads no further than the texts agree.
  unfoldable pub equals : Elf → ℕ → Text → Cmd W Bool
  equals elf a [] = do b ← field elf 1 a; pure (b == 0)
  equals elf a (c ∷ t) = do b ← field elf 1 a; if b == c then equals elf (a + 1) t else pure false

  -- A `std::string` of the bytes up to a NUL, in `fuel` reads.
  unfoldable pub read_text : Elf → ℕ → ℕ → Cmd W Text
  read_text elf zero a = no_fuel
  read_text elf (suc fuel) a = do
    b ← field elf 1 a
    if b == 0 then pure [] else (do t ← read_text elf fuel (a + 1); pure (b ∷ t))

  -- The entry at `idx` of a table at `off`, as both phdr and shdr compute it.
  unfoldable pub entry : Text → ℕ → ℕ → ℤ → Cmd W ℕ
  entry what off size (negsuc n) =
      raise
        (fatal_exception (codes "Illegal " ++ (what ++ (codes " index: " ++ decimal_ℤ (negsuc n)))))
  entry what off size (pos n) = elim (int_mul n size) [ none ↦ stuck | some m ↦ pure (off + m) ]

  unfoldable pub phdr : Elf → ℤ → Cmd W ℕ
  phdr elf idx = do off ← field elf 8 32; size ← field elf 2 54; entry (codes "phdr") off size idx

  unfoldable pub shdr : Elf → ℤ → Cmd W ℕ
  shdr elf idx = do off ← field elf 8 40; size ← field elf 2 58; entry (codes "shdr") off size idx

  -- The address of a section's name.
  unfoldable pub section_name : Elf → ℕ → Cmd W ℕ
  section_name elf offset = do
    shstrndx ← field elf 2 62
    strings ← shdr elf (pos shstrndx)
    off ← field elf 8 (strings + 24)
    pure (off + sign_extend offset)

  -- SHT_STRTAB is 3, SHT_DYNSYM 11, SHT_DYNAMIC 6 and SHT_SYMTAB 2.
  unfoldable pub parse_strtab : Elf → ℕ → ℕ → Cmd W Elf
  parse_strtab elf i name = do
    a ← section_name elf name
    is_dynstr ← equals elf a (codes ".dynstr")
    if is_dynstr then pure (record elf { dynstr = pos i }) else (do
      is_strtab ← equals elf a (codes ".strtab")
      pure (if is_strtab then record elf { strtab = pos i } else elf))

  unfoldable pub parse_section : Elf → ℕ → Cmd W Elf
  parse_section elf i = do
    s ← shdr elf (pos i)
    sh_type ← field elf 4 (s + 4)
    if sh_type == 3
        then (do name ← field elf 4 s; parse_strtab elf i name)
        else if sh_type == 11
        then pure (record elf { dynsym = pos i })
        else if sh_type == 6
        then pure (record elf { dynamic = pos i })
        else if sh_type == 2
        then pure (record elf { symtab = pos i })
        else pure elf

  -- `left` sections are left from `i` on; `e_shnum` is a `uint16_t`, so that `i` does not wrap.
  unfoldable pub parse_loop : ℕ → ℕ → Elf → Cmd W Elf
  parse_loop zero i elf = pure elf
  parse_loop (suc left) i elf = do elf' ← parse_section elf i; parse_loop left (i + 1) elf'

  unfoldable pub parse : Elf → Cmd W Elf
  parse elf = do
    shnum ← field elf 2 60
    parsed ← parse_loop (shnum - 1) 1 elf
    if int_eq parsed.dynamic (negsuc 0)
        then raise (fatal_exception (codes "Failed to find section .dynamic"))
        else if int_eq parsed.dynstr (negsuc 0)
        then raise (fatal_exception (codes "Failed to find section .dynstr"))
        else if int_eq parsed.dynsym (negsuc 0)
        then raise (fatal_exception (codes "Failed to find section .dynsym"))
        else pure parsed

  -- The number of entries of a section, by its header; a division by zero is undefined.
  unfoldable pub entries : Elf → ℕ → Cmd W ℕ
  entries elf s = do
    size ← field elf 8 (s + 32)
    entsize ← field elf 8 (s + 56)
    if entsize == 0 then stuck else pure (size / entsize)

  -- The address of entry `i` of a section.
  unfoldable pub entry_address : Elf → ℕ → ℕ → Cmd W ℕ
  entry_address elf s i = do
    off ← field elf 8 (s + 24)
    entsize ← field elf 8 (s + 56)
    pure (off + i * entsize)

  -- The loop of NeededLibs on the sections at `s` and `d`: `i` is a `uint16_t`, and wraps around.
  -- DT_NEEDED is 1.
  unfoldable pub needed_loop : ℕ → ℕ → Elf → ℕ → ℕ → ℕ → List Text → Cmd W (List Text)
  needed_loop zero text_fuel elf s d i needed = no_fuel
  needed_loop (suc fuel) text_fuel elf s d i needed = do
    count ← entries elf s
    if not (ltb i count) then pure needed else (do
      dyn ← entry_address elf s i
      tag ← field elf 8 dyn
      if tag == 1
          then (do
            off ← field elf 8 (d + 24)
            val ← field elf 8 (dyn + 8)
            lib ← read_text elf text_fuel (off + val)
            needed_loop fuel text_fuel elf s d ((i + 1) % 2 ^ 16) (needed ++ (lib ∷ [])))
          else needed_loop fuel text_fuel elf s d ((i + 1) % 2 ^ 16) needed)

  unfoldable pub needed_libs : ℕ → ℕ → Elf → Cmd W (List Text)
  needed_libs fuel text_fuel elf = do
    s ← shdr elf elf.dynamic
    d ← shdr elf elf.dynstr
    needed_loop fuel text_fuel elf s d 0 []

  -- The loop of GetBaseAddress, with `left` headers from `i` on. PT_LOAD is 1.
  unfoldable pub load_loop : Elf → ℕ → ℕ → Cmd W ℕ
  load_loop elf zero i =
      raise (fatal_exception (codes "Failed to find PT_LOAD entry in program headers"))
  load_loop elf (suc left) i = do
    h ← phdr elf (pos i)
    p_type ← field elf 4 h
    if p_type == 1 then field elf 8 (h + 16) else load_loop elf left (i + 1)

  unfoldable pub get_base_address : Elf → Cmd W ℕ
  get_base_address elf = do phnum ← field elf 2 56; load_loop elf phnum 0

  -- The tests of Open on the header; ELFCLASS64 is 2.
  unfoldable pub starts_with : Elf → ℕ → Text → Cmd W Bool
  starts_with elf a [] = pure true
  starts_with elf a (c ∷ t) = do
    b ← field elf 1 a
    if b == c then starts_with elf (a + 1) t else pure false

  unfoldable pub check_header : Text → Elf → Cmd W (Unit {0})
  check_header target elf = do
    is_elf ← starts_with elf 0 (0x7f ∷ codes "ELF")
    if not is_elf
        then raise (
            fatal_exception
              (codes "File " ++ (target ++ codes " does not have correct ELF magic header")))
        else (do
          elf_class ← field elf 1 4
          if elf_class == 2
              then pure tt
              else raise (
                  fatal_exception (
                    codes "Target ELF file has EI_CLASS="
                    ++ (decimal elf_class
                        ++ codes ", but for this architecture we expected EI_CLASS=2"))))

-- `fuel` bounds the calls of close(2).
module _ {W : Type 0} (os : Os W) (files : Files W) (fuel : ℕ) where
  -- Open up to the test of the mapping; `errno` is that of mmap(2), which a close(2) that succeeds
  -- leaves. Where mmap(2) fails, the destructor's munmap(2) of MAP_FAILED
  -- fails too, and changes nothing.
  unfoldable pub map_file : Text → Namespace → Cmd W Elf
  map_file target ns = do
    fd ← open_in os files fuel ns (c_str target)
    if int_eq fd.ret (negsuc 0)
        then raise (
            fatal_exception (
              codes "Failed to open ELF file " ++ (target ++ (codes ": " ++ os.strerror fd.errno))))
        else (do
          length ← sys (files.file_size fd.ret)
          r ← sys (files.mmap fd.ret length)
          close os files fuel fd.ret
          elim r.0 [
            | none ↦ raise (
                fatal_exception
                  (codes "Failed to mmap " ++ (target ++ (codes ": " ++ os.strerror r.1))))
            | some image ↦ pure (new_elf image length)
          ])

  -- Close, as the destructor calls it.
  unfoldable pub close_elf : Elf → Cmd W (Unit {0})
  close_elf elf = sys (λ w. (tt, files.munmap elf.image elf.length w))

-- ===== src/Tests/Executable.antt =====
-- A file system whose only executable is a small ELF file of Python 2.7.
use pyflame.Common.Int.{pos}
use pyflame.Common.{ℕ, codes, true, false, some, List, [], ◌∷◌, ◌≡◌, refl}
use pyflame.Exc.{State, ok}
use pyflame.Os.{Memory, word_of}
use pyflame.Posix.{Files, Result}
use pyflame.Symbol.Addresses.{py26, no_addresses, subtract, minus_base}
use pyflame.Symbol.Elf.{
  new_elf, parse, needed_libs, parse_loop, parse_section, parse_strtab, section_name, shdr, phdr,
  entry, entries, entry_address, int_mul, sign_extend, field, equals, get_base_address, load_loop,
  needed_loop, read_text,
}
use pyflame.Symbol.Walk.{
  get_addresses, walk_symtab, walk_table, walk_loop, walk_symbol, walk_abi, is_complete,
}
use pyflame.Tests.Sim.{memory}
use pyflame.Exc.{◌>>=◌}

-- A position-independent executable whose base is 0x1000, with the sections .dynsym, .dynstr,
-- .dynamic and .shstrtab, and two program headers.
abbrev pub executable_words : List ℕ
executable_words =
    0x10102464c457f ∷ 0 ∷ 0x1003e0003 ∷ 0 ∷ 0x270 ∷ 0x130 ∷ 0x38004000000000 ∷ 0x4000500400002
    ∷ 0x1001100000000 ∷ 0 ∷ 8 ∷ 0x1001100000034 ∷ 0x8200 ∷ 8 ∷ 0x1001100000028 ∷ 0x8100 ∷ 8
    ∷ 0x1001100000011 ∷ 0x8000 ∷ 8 ∷ 0x6874797062696c00 ∷ 0x6f732e372e326e6f ∷ 0x6572685479505f00
    ∷ 0x5f65746174536461 ∷ 0x746e6572727543 ∷ 0x685f707265746e69 ∷ 0x7453795000646165
    ∷ 0x7079545f676e6972 ∷ 0x65 ∷ 1 ∷ 1 ∷ 0 ∷ 0 ∷ 0x6d79736e79642e00 ∷ 0x7274736e79642e00
    ∷ 0x696d616e79642e00 ∷ 0x72747368732e0063 ∷ 0x626174 ∷ 0 ∷ 0 ∷ 0 ∷ 0 ∷ 0 ∷ 0 ∷ 1 ∷ 0
    ∷ 0xb00000001 ∷ 0 ∷ 0 ∷ 0x40 ∷ 0x60 ∷ 0 ∷ 1 ∷ 0x18 ∷ 0x300000009 ∷ 0 ∷ 0 ∷ 0xa0 ∷ 0x42 ∷ 0 ∷ 1
    ∷ 0 ∷ 0x600000011 ∷ 0 ∷ 0 ∷ 0xe8 ∷ 0x20 ∷ 0 ∷ 1 ∷ 0x10 ∷ 0x30000001a ∷ 0 ∷ 0 ∷ 0x108 ∷ 0x24 ∷ 0
    ∷ 1 ∷ 0 ∷ 0x400000006 ∷ 0x40 ∷ 0x40 ∷ 0x40 ∷ 0x70 ∷ 0x70 ∷ 8 ∷ 0x500000001 ∷ 0 ∷ 0x1000 ∷ 0x1000
    ∷ 0x2e0 ∷ 0x2e0 ∷ 0x1000 ∷ []

abbrev pub executable : Memory
executable = memory ((0, executable_words) ∷ [])

abbrev pub success : Result
success = record { ret = pos 3; errno = 0 }

abbrev pub static : {W : Type 0} → Files W
static = record {
  open_file = λ path w. (success, w);
  close = λ fd w. (pos 0, w);
  fstat = λ fd w. ((success, record { ino = 7; is_link = false }), w);
  lstat = λ path w. ((success, record { ino = 7; is_link = false }), w);
  setns = λ fd w. (record { ret = pos 0; errno = 0 }, w);
  readlink = λ path size w. ((some (codes "/usr/bin/python"), 0), w);
  file_size = λ fd w. (736, w);
  mmap = λ fd size w. ((some executable, 0), w);
  munmap = λ image size w. w;
  read_file = λ path w. (codes "400000-600000 r-xp 00000000 08:01 7 /usr/bin/python", w);
}

abbrev pub start : State ℕ
start = record { world = 0; probe = 0; cout = []; cerr = [] }

addresses_found :
    (parse (new_elf executable 736) >>= get_addresses 9) start
    ≡ ok
        (record no_addresses { tstate_addr = 0x7000; interp_head_addr = 0x7100; pie = true }, py26)
        start
unfolding parse parse_loop parse_section parse_strtab section_name shdr phdr entry entries
    entry_address int_mul sign_extend field equals word_of codes get_addresses walk_symtab
    walk_table walk_loop walk_symbol walk_abi is_complete get_base_address load_loop subtract
    minus_base
addresses_found = refl

needed_found :
    (parse (new_elf executable 736) >>= needed_libs 3 16) start
    ≡ ok (codes "libpython2.7.so" ∷ []) start
unfolding parse parse_loop parse_section parse_strtab section_name shdr phdr entry entries
    entry_address int_mul sign_extend field equals word_of codes needed_libs needed_loop read_text
needed_found = refl

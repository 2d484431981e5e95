-- ===== src/Tests/Sharing.antt =====
-- An executable without the variables of the interpreter, which names the small ELF file as its
-- libpython.
use pyflame.Aslr.Regions.{first_region}
use pyflame.Common.Int.{pos}
use pyflame.Common.{
  ℕ, codes, contains, text_eq, true, none, List, [], ◌∷◌, ◌≡◌, refl, ◌+◌, ◌*◌, ltb→lt, ◌^◌, ltb,
}
use pyflame.Exc.{ok}
use pyflame.Namespace.{no_namespace, open_in}
use pyflame.Posix.{close, close_loop}
use pyflame.Os.{Memory, word_of}
use pyflame.PyFrob.Located.{from_base}
use pyflame.PyFrob.Shared.{IsFile, Opens, libpython_of, addresses_of-shared}
use pyflame.PyFrob.{addresses_of}
use pyflame.Symbol.Addresses.{PyAddresses, unknown, no_addresses, add, subtract, minus_base, empty}
use pyflame.Symbol.Elf.Needed.{Entry, needed, other, HasEntries, libraries}
use pyflame.Symbol.Elf.Sections.{IsHeader}
use pyflame.Symbol.Elf.Segments.{HoldsSegments}
use pyflame.Symbol.Elf.{
  Elf, new_elf, parse, map_file, check_header, starts_with, parse_loop, parse_section, parse_strtab,
  section_name, shdr, entry, int_mul, sign_extend, field, equals,
}
use pyflame.Symbol.Walk.File.{HasTable, found_in}
use pyflame.Symbol.Walk.Kinds.{kind_of}
use pyflame.Symbol.Walk.Scan.{Symbol}
use pyflame.Symbol.Walk.Values.{first_value, last_head_fn, first_abi, until_head, has_bytes}
use pyflame.Tests.Executable.{executable, executable_words, start}
use pyflame.Tests.Maps.{regions, mapped, lib-IsRegion}
use pyflame.Tests.Probing.{ticks, build}
use pyflame.Tests.Sim.{memory}
use pyflame.Tests.Symbols.{
  elf, symbol, symbols, segments, elf-HasTable, segments-held, holds_text, holds_text-HoldsText,
}

-- The small executable with a .dynsym of one symbol only.
abbrev bare : Memory
bare = memory ((400, 0x18 ∷ []) ∷ (0, executable_words) ∷ [])

abbrev bare_elf : Elf
bare_elf = record (new_elf bare 736) { dynamic = pos 3; dynstr = pos 2; dynsym = pos 1 }

abbrev null_symbol : List Symbol
null_symbol = symbol [] 0 ∷ []

header : (n a : ℕ) → a ≡ 304 + n * 64 → ltb (n * 64) (2 ^ 31) ≡ true → IsHeader bare n a
unfolding word_of
header n a e h = record {
  shoff = 304;
  shentsize = 64;
  shoff-read = refl;
  shentsize-read = refl;
  fits = ltb→lt (n * 64) (2 ^ 31) h;
  place = e;
}

bare-HasTable : HasTable bare_elf 17 (pos 1) (pos 2) null_symbol
unfolding word_of
bare-HasTable = record {
  symbol_index = 1;
  string_index = 2;
  is_symbol_index = refl;
  is_string_index = refl;
  s = 368;
  d = 432;
  symbols_at = header 1 368 refl refl;
  strings_at = header 2 432 refl refl;
  table = record {
    headers = record {
      off = 64;
      size = 24;
      entsize = 24;
      str = 160;
      off-holds = refl;
      size-holds = refl;
      entsize-holds = refl;
      str-holds = refl;
      entsize_pos = ltb→lt 0 24 refl;
    };
    count = refl;
    symbols_hold =
        (record { st_name = 0; st_name-holds = refl; name-holds = refl; value-holds = refl }, tt);
  };
  small = ltb→lt 1 (2 ^ 16) refl;
  enough = ltb→lt 1 17 refl;
}

bare-segments : HoldsSegments bare_elf segments
unfolding word_of
bare-segments = record {
  off = 624;
  size = 56;
  phoff = refl;
  phentsize = refl;
  phnum = refl;
  segments_hold = (refl, refl, ltb→lt 0 (2 ^ 31) refl, (refl, refl, ltb→lt 56 (2 ^ 31) refl, tt));
}

bare-IsFile : IsFile bare_elf 17 null_symbol none segments 3
unfolding word_of
bare-IsFile = record { table = bare-HasTable; second = refl; kind = refl; headers = bare-segments }

lib-IsFile : IsFile elf 17 symbols none segments 3
unfolding word_of
lib-IsFile = record {
  table = elf-HasTable 17 refl;
  second = refl;
  kind = refl;
  headers = segments-held;
}

abbrev entries : List Entry
entries = needed (codes "libpython2.7.so") ∷ other 0 ∷ []

bare-HasEntries : HasEntries bare_elf 17 entries
unfolding word_of codes holds_text
bare-HasEntries = record {
  dynamic_index = 3;
  dynstr_index = 2;
  is_dynamic = refl;
  is_dynstr = refl;
  s = 496;
  d = 432;
  dynamic_at = header 3 496 refl refl;
  dynstr_at = header 2 432 refl refl;
  headers = record {
    off = 232;
    size = 32;
    entsize = 16;
    str = 160;
    off-holds = refl;
    size-holds = refl;
    entsize-holds = refl;
    str-holds = refl;
    entsize_pos = ltb→lt 0 16 refl;
  };
  count = refl;
  small = ltb→lt 2 (2 ^ 16) refl;
  entries_hold = (
    record {
      d_val = 1;
      d_tag-holds = refl;
      d_val-holds = refl;
      name-holds = holds_text-HoldsText bare_elf 161 (codes "libpython2.7.so") refl;
      short = ltb→lt 15 17 refl;
    },
    ((refl, refl), tt),
  );
}

abbrev nothing : PyAddresses
nothing = subtract (record no_addresses { pie = true }) 0x1000

lib-Opens :
    Opens ticks mapped build 4096 17
      (first_region (libpython_of (libraries entries)) regions).1
      no_namespace
      start
      (new_elf executable 736)
      elf
      start
unfolding word_of codes libpython_of contains map_file open_in close close_loop check_header
    starts_with parse parse_loop parse_section parse_strtab section_name shdr entry int_mul
    sign_extend field equals
lib-Opens = record { is_mapped = refl; has_header = refl; is_parsed = refl }

addresses_of-shared_example :
    addresses_of ticks mapped build 4096 17
      (pos 2)
      (codes "/usr/bin/uwsgi")
      no_namespace
      bare_elf
      start
    ≡ ok
        (
          add
              (from_base (found_in symbols none) 0x1000)
              (first_region (libpython_of (libraries entries)) regions).0,
          (found_in symbols none).0,
        )
        start
unfolding word_of codes kind_of text_eq first_value subtract minus_base empty libpython_of contains
    last_head_fn first_abi until_head has_bytes
addresses_of-shared_example =
    addresses_of-shared ticks mapped build 4096 17 (pos 2) (codes "/usr/bin/uwsgi") no_namespace
      bare_elf start null_symbol none segments 3 entries (nothing, unknown) start regions
      (new_elf executable 736) elf symbols none segments 0x1000 bare-IsFile refl refl
      bare-HasEntries (ltb→lt 2 17 refl) refl lib-IsRegion refl lib-Opens lib-IsFile refl refl

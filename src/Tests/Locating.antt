-- ===== src/Tests/Locating.antt =====
-- The addresses of the small executable in the address space of a process.
use pyflame.Aslr.Regions.{first_region}
use pyflame.Common.Int.{pos}
use pyflame.Common.{codes, text_eq, none, ◌≡◌, refl}
use pyflame.Exc.{ok}
use pyflame.Namespace.{no_namespace}
use pyflame.Os.{word_of}
use pyflame.PyFrob.Located.{from_base, addresses_of-pie}
use pyflame.PyFrob.{addresses_of}
use pyflame.Symbol.Addresses.{add, subtract, minus_base, empty}
use pyflame.Symbol.Walk.File.{found_in}
use pyflame.Symbol.Walk.Kinds.{kind_of}
use pyflame.Symbol.Walk.Values.{first_value}
use pyflame.Tests.Executable.{start}
use pyflame.Tests.Maps.{regions, mapped, exe-IsRegion}
use pyflame.Tests.Probing.{ticks, build}
use pyflame.Tests.Symbols.{elf, symbols, segments, elf-HasTable, segments-held}

addresses_of-pie_example :
    addresses_of ticks mapped build 4096 5 (pos 2) (codes "/usr/bin/python") no_namespace elf start
    ≡ ok
        (
          add
              (from_base (found_in symbols none) 0x1000)
              (first_region (codes "/usr/bin/python") regions).0,
          (found_in symbols none).0,
        )
        start
unfolding word_of codes kind_of text_eq first_value subtract minus_base empty
addresses_of-pie_example =
    addresses_of-pie ticks mapped build 4096 5 (pos 2) (codes "/usr/bin/python") no_namespace elf
      start symbols none segments 0x1000 regions (elf-HasTable 5 refl) refl refl segments-held refl
      refl refl exe-IsRegion

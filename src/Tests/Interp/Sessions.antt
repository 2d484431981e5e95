-- ===== src/Tests/Interp/Sessions.antt =====
-- A session that dumps the interpreter of the executable of Python 2.7.
use pyflame.Prober.Loop.{find_rounds}
use pyflame.PyFrob.{
  choose_abi, use_version, has_abi, version_of, set_addrs, set_addrs_in, find_hint, addresses,
  addresses_of, with_elf,
}
use pyflame.Namespace.{new_namespace, read_name, open_links, open_nodes, drop_namespace, open_in}
use pyflame.Posix.{close_loop, read_link, set_ns, open_rdonly, close, fstat}
use pyflame.Symbol.Elf.{
  map_file, check_header, starts_with, close_elf, parse, parse_loop, parse_section, parse_strtab,
  section_name, shdr, phdr, entry, entries, entry_address, int_mul, sign_extend, field, equals,
  get_base_address, load_loop,
}
use pyflame.Aslr.{
  locate_lib_python, lines, locate_loop, locate_in, maps_path, suffix_from, prefix_to,
}
use pyflame.Symbol.Addresses.{add, plus_base, empty, subtract, minus_base}
use pyflame.Os.{word_of}
use pyflame.Common.{text_eq}
use pyflame.Symbol.Walk.{
  get_addresses, walk_symtab, walk_table, walk_loop, walk_symbol, walk_abi, is_complete,
}
use pyflame.Common.Int.{ℤ, pos}
use pyflame.Common.{contains, strtoul_hex, codes, true, some, [], ◌∷◌, map, ◌≡◌, refl, arith}
use pyflame.Exc.{ok}
use pyflame.Frame.Printed.{join}
use pyflame.Frob.Layout.{py26}
use pyflame.Frob.Threads.Walk.{by_thread}
use pyflame.Frob.Threads.{get_threads}
use pyflame.Main.Dumped.{session-dumped}
use pyflame.Main.{session}
use pyflame.Prober.Initiate.{Spawn}
use pyflame.Prober.Loop.{find_symbols}
use pyflame.Prober.{Prober, new_prober}
use pyflame.PyFrob.{PyFrob, new_py_frob, detect_abi}
use pyflame.Symbol.Addresses.{no_addresses}
use pyflame.Tests.Executable.{static}
use pyflame.Tests.Interp.{layout, image, computed, thread, threads, s}
use pyflame.Tests.Probing.{micro, build, prober}
use pyflame.Tests.Sim.{World, sim, sim-Snapshot}
use pyflame.Thread.Printed.{thread_text}

abbrev dumping : Prober ℤ
dumping = record prober { dump = true; enable_threads = true }

abbrev spawn : Spawn World
spawn = record { fork = λ w. ((pos 2, 0), w); execvp = λ file args w. (0, w) }

abbrev found_frob : PyFrob
found_frob = record {
  pid = pos 2;
  addrs = record no_addresses { tstate_addr = 0x407000; interp_head_addr = 0x407100; pie = true };
  enable_threads = true;
  get_threads = some py26;
}

found :
    find_symbols sim 9 dumping (detect_abi sim static build 4096 9) (new_py_frob (pos 2) true) s
    ≡ ok (pos 0, found_frob) s
unfolding find_symbols find_rounds detect_abi choose_abi use_version has_abi version_of set_addrs
    set_addrs_in find_hint addresses addresses_of with_elf new_namespace read_name open_links
    open_nodes drop_namespace read_link open_in set_ns open_rdonly close fstat map_file check_header
    starts_with close_elf locate_lib_python lines locate_loop locate_in maps_path suffix_from
    prefix_to add plus_base empty parse parse_loop parse_section parse_strtab section_name shdr phdr
    entry entries entry_address int_mul sign_extend field equals word_of codes get_addresses
    walk_symtab walk_table walk_loop walk_symbol walk_abi is_complete get_base_address load_loop
    subtract minus_base text_eq new_prober close_loop contains strtoul_hex
found = refl

session-dumped_example :
    session sim micro build spawn static
      (λ v pid addrs b. get_threads sim v layout 9 5 pid 3 addrs b)
      (λ b. b)
      4096
      9
      dumping
      s
    ≡ ok (pos 0) (record s { cout = join (b'\n' ∷ []) (map thread_text (thread ∷ [])) })
unfolding new_prober
session-dumped_example =
    session-dumped sim micro build spawn static (λ b. b) 4096 9 dumping py26 layout 9 5 found_frob s
      s (sim-Snapshot image (pos 2)) 3 2 0x2000 0x3000 0x2000 (thread ∷ []) found refl refl refl
      refl refl (unfold computed in refl) (by_thread refl (unfold computed in refl)) refl
      (unfold computed in refl) threads (omega arith)

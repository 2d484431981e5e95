-- ===== src/Tests/Interp/Reads.antt =====
-- The theorems on reads of the interpreter, at the one in memory.
use pyflame.Common.Int.{pos}
use pyflame.Common.{Option, some, Text, ◌+◌, true, false, [], ◌∷◌, ◌≡◌, refl, arith}
use pyflame.Exc.{State, ok, throw, ptrace_exception}
use pyflame.Frob.Layout.{py26, py34}
use pyflame.Frob.Lines.Read.{get_line-lines_until}
use pyflame.Frob.Lines.Table.{lines_until}
use pyflame.Frob.Lines.{get_line}
use pyflame.Frob.Stack.Chain.{follow_frame-FrameChain}
use pyflame.Frob.Stack.{follow_frame}
use pyflame.Frob.Strings.Chars.{utf8, two_bytes}
use pyflame.Frob.Strings.Read.{
  StringObject, decode_all, string_data_python3-utf8, string_data-HasString,
}
use pyflame.Frob.Strings.{string_data, string_data_python3}
use pyflame.Frob.Threads.Walk.{by_thread, get_threads-all}
use pyflame.Frob.Threads.{get_threads}
use pyflame.Frob.Utf8.Decode.{Encodes, encode-Encodes, encode-above}
use pyflame.Frob.Utf8.{encode}
use pyflame.Ptrace.Memory.{ptrace_peek-unmapped}
use pyflame.Ptrace.{ptrace_peek, peek_error}
use pyflame.Tests.Sim.{World, sim, stopped, sim-Snapshot, holds-Holds}
use pyflame.Tests.Interp.{
  layout, image, mem, s, addrs, inner, outer, computed, file_string, inner_lines, chain, thread,
  threads,
}

get_threads-all_example :
    get_threads sim py26 layout 9 5 (pos 2) 3 addrs true s ≡ ok (thread ∷ []) s
get_threads-all_example =
    get_threads-all sim (pos 2) py26 layout s (sim-Snapshot image (pos 2)) 9 5 0x2000 addrs
      (unfold computed in refl) 3 2 0x3000 0x2000 (thread ∷ [])
      (by_thread refl (unfold computed in refl)) refl (unfold computed in refl) threads
      (omega arith)

follow_frame-FrameChain_example :
    follow_frame sim py26 layout 2 5 (pos 2) 0x4000 [] s ≡ ok (inner ∷ outer ∷ []) s
follow_frame-FrameChain_example =
    follow_frame-FrameChain sim (pos 2) py26 layout s (sim-Snapshot image (pos 2)) 5 2 0x4000 []
      (inner ∷ outer ∷ []) chain (omega arith)

get_line-lines_until_example :
    get_line sim layout (pos 2) 0x4000 0x5000 s ≡ ok (10 + lines_until 6 0 ((4, 1) ∷ (6, 2) ∷ [])) s
get_line-lines_until_example =
    get_line-lines_until sim (pos 2) layout s (sim-Snapshot image (pos 2)) inner_lines

string_object : StringObject layout mem 0x7000 (0xe9 ∷ 0x20ac ∷ [])
unfolding computed
string_object = record {
  header = 2 ∷ 0 ∷ 0 ∷ 0 ∷ 0 ∷ 0 ∷ 0 ∷ 0 ∷ 2 ∷ 0 ∷ 0 ∷ 0 ∷ 0 ∷ 0 ∷ 0 ∷ 0 ∷ [];
  kind = 2;
  ascii = false;
  rest = 0 ∷ 0 ∷ 0 ∷ 0 ∷ [];
  header_whole = refl;
  header_fits = omega arith;
  header_at =
      holds-Holds mem 0x7000 (2 ∷ 0 ∷ 0 ∷ 0 ∷ 0 ∷ 0 ∷ 0 ∷ 0 ∷ 2 ∷ 0 ∷ 0 ∷ 0 ∷ 0 ∷ 0 ∷ 0 ∷ 0 ∷ [])
        refl;
  fields = refl;
  known = two_bytes;
  chars = omega arith;
  in_range = omega arith;
  whole = refl;
  fits = omega arith;
  data_at = holds-Holds mem 0x7018 (0xe9 ∷ 0 ∷ 0xac ∷ 0x20 ∷ 0 ∷ 0 ∷ 0 ∷ 0 ∷ []) refl;
}

string_data_python3-utf8_example :
    (string_data_python3 sim py34 layout (pos 2) 0x7000 s ≡ ok (utf8 (0xe9 ∷ 0x20ac ∷ [])) s)
    × (decode_all 2 (utf8 (0xe9 ∷ 0x20ac ∷ [])) ≡ some (0xe9 ∷ 0x20ac ∷ []))
string_data_python3-utf8_example =
    string_data_python3-utf8 sim (pos 2) py34 layout s (sim-Snapshot image (pos 2)) 0x7000
      (0xe9 ∷ 0x20ac ∷ []) string_object

encode-Encodes_example : (t : Text) × (encode 0x1f600 ≡ Option.some t) × Encodes 0x1f600 t
encode-Encodes_example = encode-Encodes 0x1f600 (omega arith)

abbrev idle : State World
idle = stopped ((0x1000, 0 ∷ []) ∷ [])

string_data-HasString_example :
    string_data sim py26 layout 5 (pos 2) 0x6000 s ≡ ok (0x61 ∷ 0x2e ∷ 0x70 ∷ 0x79 ∷ []) s
string_data-HasString_example =
    string_data-HasString sim (pos 2) py26 layout s (sim-Snapshot image (pos 2)) 5 0x6000 inner.file
      file_string

ptrace_peek-unmapped_example :
    ptrace_peek sim (pos 2) 0x10 s ≡ throw (ptrace_exception (peek_error sim (pos 2) 0x10 5)) s
ptrace_peek-unmapped_example =
    ptrace_peek-unmapped sim (pos 2) s (sim-Snapshot image (pos 2)) 0x10 (unfold computed in refl)

encode-above_example : encode 0x110000 ≡ Option.none
encode-above_example = encode-above 0x110000 (omega arith)

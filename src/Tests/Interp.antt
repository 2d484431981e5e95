-- ===== src/Tests/Interp.antt =====
-- A small interpreter of Python 2 in memory, with one running thread and one that runs no code, and
-- a string of Python 3.
mod Reads
mod Reports
mod Sessions
use pyflame.Common.Int.{pos}
use pyflame.Common.{Option, Text, ◌+◌, true, false, [], ◌∷◌, ◌++◌, ◌≡◌, refl, arith}
use pyflame.Exc.{State, ok}
use pyflame.Frame.{Frame}
use pyflame.Frob.Layout.{py26, py34, Layout, member, string_size, byte_data}
use pyflame.Frob.Lines.Read.{LineTable, get_line-lines_until}
use pyflame.Frob.Lines.Table.{lines_until, line_loop-lines_until}
use pyflame.Frob.Lines.{get_line, line_loop}
use pyflame.Frob.Stack.Chain.{
  FrameObject, FrameChain, outermost, called, untraced, traced, follow_frame-FrameChain,
}
use pyflame.Frob.Stack.{follow_frame}
use pyflame.Frob.Strings.Chars.{utf8, two_bytes}
use pyflame.Frob.Strings.Read.{HasString, bytes, StringObject, string_data_python3-utf8, decode_all}
use pyflame.Frob.Strings.{string_data_python3}
use pyflame.Frob.Threads.Walk.{
  Running, ThreadList, done, running, bare, by_thread, get_threads-all, get_threads-current,
}
use pyflame.Frob.Threads.{get_threads}
use pyflame.Frob.Utf8.Decode.{Encodes, encode-Encodes}
use pyflame.Frob.Utf8.{encode}
use pyflame.Os.{Memory, word_of}
use pyflame.Ptrace.Memory.{ptrace_peek_string-Holds, ptrace_peek_bytes-Holds}
use pyflame.Ptrace.{has_nul, le_bytes, ptrace_peek_string, ptrace_peek_bytes}
use pyflame.Symbol.Addresses.{PyAddresses, no_addresses}
use pyflame.Tests.Sim.{World, Image, memory, sim, stopped, sim-Snapshot, holds, holds-Holds}
use pyflame.Thread.{Thread}

-- A layout with small offsets; the header of a string is two words, the length and the kind.
abbrev layout : Layout
layout = record {
  f_trace = 16;
  f_lineno = 32;
  f_lasti = 24;
  f_code = 0;
  f_back = 8;
  co_lnotab = 16;
  co_firstlineno = 24;
  co_filename = 0;
  co_name = 8;
  ob_size = 0;
  ob_sval = 8;
  ascii_size = 16;
  compact_size = 24;
  ascii_object = λ b. record { length = 2; kind = 2; compact = true; ascii = false };
  interp = 0;
  thread_id = 8;
  frame = 16;
  next = 24;
  tstate_head = 0;
}

abbrev image : Image
image =
    (0x1000, 0x2000 ∷ [])
    ∷ (0x2000, 0x3000 ∷ 7 ∷ 0x4000 ∷ 0x2100 ∷ [])
    ∷ (0x2100, 0x3000 ∷ 9 ∷ 0 ∷ 0 ∷ [])
    ∷ (0x3000, 0x2000 ∷ [])
    ∷ (0x4000, 0x5000 ∷ 0x4100 ∷ 0 ∷ 6 ∷ 0 ∷ [])
    ∷ (0x4100, 0x5000 ∷ 0 ∷ 1 ∷ 3 ∷ 10 ∷ [])
    ∷ (0x5000, 0x6000 ∷ 0x6100 ∷ 0x6200 ∷ 10 ∷ [])
    ∷ (0x6000, 4 ∷ 0x79702e61 ∷ [])
    ∷ (0x6100, 1 ∷ 0x66 ∷ [])
    ∷ (0x6200, 4 ∷ 0x02060104 ∷ [])
    ∷ (0x7000, 2 ∷ 2 ∷ 0 ∷ 0x20ac00e9 ∷ [])
    ∷ (0x407000, 0x2000 ∷ [])
    ∷ []

abbrev mem : Memory
mem = memory image

abbrev s : State World
s = stopped image

abbrev addrs : PyAddresses
addrs = record no_addresses { tstate_addr = 0x1000 }

abbrev inner : Frame
inner = record { file = 0x61 ∷ 0x2e ∷ 0x70 ∷ 0x79 ∷ []; name = 0x66 ∷ []; line = 11 }

abbrev outer : Frame
outer = record inner { line = 10 }

computed : Unit {0}
unfolding word_of member string_size byte_data lines_until has_nul holds le_bytes
computed = tt

file_string : HasString py26 layout mem 5 0x6000 inner.file
unfolding computed
file_string =
    bytes (0 ∷ 0 ∷ 0 ∷ []) refl (omega arith) refl refl (omega arith)
      (holds-Holds mem 0x6008 (inner.file ++ 0 ∷ 0 ∷ 0 ∷ 0 ∷ []) refl)

name_string : HasString py26 layout mem 5 0x6100 inner.name
unfolding computed
name_string =
    bytes (0 ∷ 0 ∷ 0 ∷ 0 ∷ 0 ∷ 0 ∷ []) refl (omega arith) refl refl (omega arith)
      (holds-Holds mem 0x6108 (inner.name ++ 0 ∷ 0 ∷ 0 ∷ 0 ∷ 0 ∷ 0 ∷ 0 ∷ []) refl)

inner_lines : LineTable layout mem 0x4000 0x5000 10 6 ((4, 1) ∷ (6, 2) ∷ [])
unfolding computed
inner_lines = record {
  lasti_word = 6;
  lnotab = 0x6200;
  size_word = 4;
  first_word = 10;
  rest = 0 ∷ 0 ∷ 0 ∷ 0 ∷ [];
  untraced = refl;
  at_lasti = refl;
  at_lnotab = refl;
  at_size = refl;
  at_first = refl;
  lasti_is = refl;
  first_is = refl;
  pairs = refl;
  whole = refl;
  fits = omega arith;
  table = holds-Holds mem 0x6208 (4 ∷ 1 ∷ 6 ∷ 2 ∷ 0 ∷ 0 ∷ 0 ∷ 0 ∷ []) refl;
  small = omega arith;
  in_range = omega arith;
}

inner_frame : FrameObject py26 layout mem 5 0x4000 inner 0x4100
unfolding computed
inner_frame = record {
  code = 0x5000;
  filename = 0x6000;
  co_name = 0x6100;
  at_code = refl;
  at_filename = refl;
  at_name = refl;
  at_back = refl;
  file = file_string;
  name = name_string;
  line = untraced inner_lines refl;
}

outer_frame : FrameObject py26 layout mem 5 0x4100 outer 0
unfolding computed
outer_frame = record {
  code = 0x5000;
  filename = 0x6000;
  co_name = 0x6100;
  at_code = refl;
  at_filename = refl;
  at_name = refl;
  at_back = refl;
  file = file_string;
  name = name_string;
  line = traced {trace = 1} {lineno = 10} refl refl refl refl;
}

chain : FrameChain py26 layout mem 5 0x4000 (inner ∷ outer ∷ [])
chain = called inner_frame refl (outermost outer_frame refl)

abbrev thread : Thread
thread = record { id = 7; is_current = true; frames = inner ∷ outer ∷ [] }

runs : Running py26 layout mem 9 5 0x2000 0x2000 thread
unfolding computed
runs = record {
  frame_addr = 0x4000;
  at_id = refl;
  at_frame = refl;
  some_frame = refl;
  chain = chain;
  shallow = omega arith;
  is_current = refl;
}

threads : ThreadList py26 layout mem 9 5 0x2000 2 0x2000 (thread ∷ [])
unfolding computed
threads =
    running {next = 0x2100} refl runs refl
      (bare {next = 0} {id = 9} refl refl refl refl (done refl))

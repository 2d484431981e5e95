-- ===== src/Lib.antt =====
-- Pyflame samples the Python stacks of another process with ptrace(2). It parses its options, attaches
-- to the process (or starts it), finds the addresses of the interpreter's variables, and then, round
-- by round, stops the process, reads the stacks of its Python threads out of its memory word by word,
-- lets it run for an interval, and prints at the end how often each stack was seen.
--
-- The parts, and the files here that model them:
-- - src/exc.h: Exc. The exceptions are constructors, and a function of the program is a command over
--   `State`: the state of the operating system with the traced process, the static variable `probe_`,
--   and what was written to standard output and error. A run returns, throws, is undefined (a failed
--   `assert`, `abort()`, or a step that C++ leaves undefined), or lacks fuel. Exc.Post has
--   postconditions, and Exc.Keeps the rules by which a command keeps a predicate on states.
-- - The operating system: Os. Its calls are the parameter `Os W`, with any state `W`; `Snapshot` says
--   what the documentation of PTRACE_PEEKDATA says of a stopped process.
-- - src/ptrace.cc: Ptrace, with the requests and their errors, DoWait, and PtracePeek,
--   PtracePeekString and PtracePeekBytes, and Ptrace.Call, with AllocPage, PtraceCallFunction and
--   PtraceCleanup as they are built with ENABLE_THREADS on amd64. Other children are about the wait
--   (Wait), reads of memory (Memory, Untouched) and the calls (Call.Restores).
-- - src/frame.h, src/frame.cc, src/thread.h, src/thread.cc: Frame, Frame.Equality and Thread; the
--   modules Printed below them give the printed forms as texts with separators.
-- - src/frob.cc, which src/frob26.cc, src/frob34.cc and src/frob36.cc build for three ABIs: Frob. The
--   ABI is the parameter `Version`, and the offsets that Python.h gives are the parameter `Layout`.
--   Frob.Utf8, Frob.Strings, Frob.Lines, Frob.Stack and Frob.Threads model the encoder,
--   StringDataPython3 with StringData, GetLine, FollowFrame and GetThreads; their children relate them
--   to objects laid out in memory.
-- - src/posix.h, src/posix.cc: Posix. The system calls on files are the parameter `Files`.
-- - src/namespace.h, src/namespace.cc: Namespace, with the constructor, Open and the destructor.
-- - src/symbol.h, src/symbol.cc: Symbol.Addresses, with PyABI and PyAddresses; Symbol.Elf, with class
--   ELF for 64-bit files up to NeededLibs and GetBaseAddress, over the bytes of the mapped file; and
--   Symbol.Walk, with WalkTable and GetAddresses.
--   Children of Symbol.Elf are about Parse, the program headers and the dynamic section; those of
--   Symbol.Walk relate the walk to a pass over the names and values of the symbols.
-- - src/aslr.cc: Aslr, with LocateLibPython on the text of /proc/PID/maps; its children describe that
--   text as proc(5) does, and its lines by the regions that are looked for.
-- - src/prober.h, src/prober.cc: Prober, with the class. Prober.Options models ParsePid and ParseOpts
--   on the sequence of values that getopt_long(3) returns; Prober.Report models PrintFrames and
--   PrintFramesTS; Prober.Initiate models InitiatePtrace, with fork(2) and execvp(3) as the parameter
--   `Spawn`, and Prober.Initiate.Followed follows the child through the replies of the operating
--   system; Prober.Loop models ProbeLoop, DumpStacks, Run and FindSymbols, over any GetThreads
--   and any DetectABI; in Prober.Loop.Sampled a history of rounds says what was sampled and
--   how a round ended, and the two forms of the report are texts made from it. The type `double` is
--   the parameter `Doubles`.
-- - src/pyfrob.h, src/pyfrob.cc: PyFrob, with Addrs, set_addrs_, DetectABI and GetThreads, over
--   the models above; an object on the stack is closed on both ways out. PyFrob.Located and
--   PyFrob.Shared follow Addrs through an executable and through the library that it names.
-- - src/pyflame.cc: Main, with `main` and, in `session`, the life of the PyFrob up to PtraceCleanup.
--   Main.Dumped follows a session with --dump from the search for the symbols to the end.
-- Common has the names that all parts share; Tests has an operating system for tests, with the
-- theorems at concrete states of it.
--
-- Numbers: a machine word is its bit pattern, a number below 2 ^ 64; `pid_t` and return codes are the
-- integers of Common.Int. An address of a read wraps around at 2 ^ 64. A sum or product of `int` out
-- of range is undefined. The index in a table of an ELF file is a `uint16_t`, and wraps around. Times
-- are in nanoseconds for the clock, and in microseconds for the options. Three ranges are
-- wider here than in C++: the clock and the end of the sampling do not overflow, the size that
-- PtracePeekBytes rounds up to whole words does not wrap around and its buffer is always allocated,
-- and the length of a Python string is not negative.
--
-- Fuel: DoWait takes a round for each reply of waitpid(2), PtracePeekString for each word, FollowFrame
-- for each frame, GetThreads for each thread state, PtraceCleanup for each munmap(2), InitiatePtrace
-- for each report on the child, WalkTable and NeededLibs for each entry, Close for each close(2), and
-- ProbeLoop for each round. A theorem about one of these loops gives the number that is enough, or is
-- about every number. FindSymbols has at most MaxRetries() rounds.
--
-- Not modelled: src/setns.h, which wraps a system call; the equality of threads and `dynstr` of
-- src/symbol.h, which nothing uses; and what is not code of the program: the build files, the tests,
-- the documentation and utils/flame-chart-json. The order in which `std::unordered_map` is gone
-- through is a parameter.
pub mod Common
pub mod Exc
pub mod Os
pub mod Ptrace
pub mod Frame
pub mod Thread
pub mod Frob
pub mod Prober
pub mod Posix
pub mod Namespace
pub mod Aslr
pub mod PyFrob
pub mod Main
pub mod Symbol
pub mod Tests

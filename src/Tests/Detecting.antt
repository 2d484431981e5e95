-- ===== src/Tests/Detecting.antt =====
-- The search for an interpreter in an executable of Python 2.7 that is not moved.
use pyflame.Tests.Executable.{static}
use pyflame.Common.{true}
use pyflame.Exc.Post.{Ensures}
use pyflame.Common.Int.{pos}
use pyflame.Prober.Loop.{find_symbols}
use pyflame.PyFrob.Detected.{Detects, find_symbols-Detects}
use pyflame.PyFrob.{PyFrob, new_py_frob, detect_abi}
use pyflame.Tests.Probing.{ticks, build, prober, start}

abbrev frob : PyFrob
frob = new_py_frob (pos 2) true

find_symbols-Detects_example :
    Ensures Detects (find_symbols ticks 1 prober (detect_abi ticks static build 4096 9) frob start)
find_symbols-Detects_example = find_symbols-Detects ticks static build 4096 9 1 prober frob start

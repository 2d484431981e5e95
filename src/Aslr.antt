-- ===== src/Aslr.antt =====
-- src/aslr.cc: where a library or a moved executable lies in the memory of a process.
pub mod Maps
pub mod Mentions
pub mod Regions
use pyflame.Common.Int.{decimal_ℤ}
use pyflame.Common.{
  ℕ, Text, codes, contains, strtoul_hex, ◌&&◌, Option, none, some, List, [], ◌∷◌, ◌++◌, ◌==◌,
  if◌then◌else◌,
}
use pyflame.Exc.{fatal_exception, Cmd, pure, raise, ◌>>=◌}
use pyflame.Os.{Pid, sys}
use pyflame.Posix.{Files}

abbrev add_byte : ℕ → List Text → List Text
add_byte c [] = (c ∷ []) ∷ []
add_byte c (l ∷ ls) = (c ∷ l) ∷ ls

-- The lines that `std::getline` gives; behind a last newline there is none.
unfoldable pub lines : Text → List Text
lines [] = []
lines (c ∷ t) = let rest = lines t in if c == b'\n' then [] ∷ rest else add_byte c rest

-- `line.substr(line.find(c))`
unfoldable pub suffix_from : ℕ → Text → Option Text
suffix_from c [] = none
suffix_from c (b ∷ t) = let rest = suffix_from c t in if b == c then some (b ∷ t) else rest

-- `line.substr(0, line.find(c))`
unfoldable pub prefix_to : ℕ → Text → Option Text
prefix_to c [] = none
prefix_to c (b ∷ t) =
    let rest = prefix_to c t in
    if b == c then some [] else elim rest [ none ↦ none | some u ↦ some (b ∷ u) ]

unfoldable pub maps_path : Pid → Text
maps_path pid = codes "/proc/" ++ (decimal_ℤ pid ++ codes "/maps")

module _ {W : Type 0} where
  -- The start of the region of a line, and the path.
  unfoldable pub locate_in : Text → Cmd W (ℕ × Text)
  locate_in line = elim (suffix_from b'/' line) [
    | none ↦ raise (fatal_exception (codes "Did not find libpython absolute path"))
    | some path ↦ elim (prefix_to b'-' line) [
      | none ↦ raise (fatal_exception (codes "Did not find libpython virtual memory address"))
      | some start ↦ pure (strtoul_hex start, path)
    ]
  ]

  -- `*path` is empty at first, and stays so where no line fits.
  unfoldable pub locate_loop : Text → List Text → Cmd W (ℕ × Text)
  locate_loop hint [] = pure (0, [])
  locate_loop hint (line ∷ rest) =
      if contains hint line && contains (codes " r-xp ") line
      then locate_in line
      else locate_loop hint rest

  unfoldable pub locate_lib_python : Files W → Pid → Text → Cmd W (ℕ × Text)
  locate_lib_python files pid hint = do
    maps ← sys (files.read_file (maps_path pid))
    locate_loop hint (lines maps)

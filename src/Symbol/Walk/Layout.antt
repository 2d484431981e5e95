-- ===== src/Symbol/Walk/Layout.antt =====
-- A symbol table in the mapping of a file.
use pyflame.Common.{ℕ, ◌+◌, ◌*◌, ◌/◌, List, [], ◌∷◌, ◌≡◌, length}
use pyflame.Symbol.Elf.{Elf}
use pyflame.Symbol.Elf.Sections.{Reads}
use pyflame.Symbol.Elf.Tables.{HoldsText, HoldsHeaders}
use pyflame.Symbol.Walk.Scan.{Symbol}

-- A number of `n` bytes in the mapping.
abbrev pub Holds : Elf → ℕ → ℕ → ℕ → Type 0
Holds elf = Reads elf.image

pub record HoldsSymbol (elf : Elf) (sym str : ℕ) (x : Symbol) : Type 0 where
  pub st_name : ℕ
  pub st_name-holds : Holds elf 4 sym st_name
  pub name-holds : HoldsText elf (str + st_name) x.name
  pub value-holds : Holds elf 8 (sym + 8) x.value

-- The entries of a table from the index `i` on.
abbrev pub HoldSymbols : Elf → ℕ → ℕ → ℕ → ℕ → List Symbol → Type 0
HoldSymbols elf off entsize str i [] = Unit
HoldSymbols elf off entsize str i (x ∷ xs) =
    HoldsSymbol elf (off + i * entsize) str x × HoldSymbols elf off entsize str (i + 1) xs

-- The table `symbols`.
pub record HoldsTable (elf : Elf) (s d : ℕ) (symbols : List Symbol) : Type 0 where
  pub headers : HoldsHeaders elf s d
  pub count : headers.size / headers.entsize ≡ length symbols
  pub symbols_hold : HoldSymbols elf headers.off headers.entsize headers.str 0 symbols

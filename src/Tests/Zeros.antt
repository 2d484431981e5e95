-- ===== src/Tests/Zeros.antt =====
-- WalkTable on a file of zeros whose first section header says that there are 2 ^ 16 symbols.
use pyflame.Common.Int.{pos}
use pyflame.Common.{
  ℕ, zero, suc, ◌+◌, ◌*◌, ◌%◌, ◌^◌, ◌<◌, Text, codes, some, [], ◌≡◌, refl, arith, ltb→lt, ◌≢◌, ap,
  ◌∙◌, text_eq, ◌==◌, if◌then◌else◌,
}
use pyflame.Exc.{out_of_fuel}
use pyflame.Os.{word_of}
use pyflame.Symbol.Addresses.{no_addresses}
use pyflame.Symbol.Elf.{Elf, new_elf, shdr, entry, int_mul, field}
use pyflame.Symbol.Walk.Endless.{IsHeadless, walk_table-endless}
use pyflame.Symbol.Walk.Kinds.{kind_of}
use pyflame.Symbol.Walk.Scan.{Symbol}
use pyflame.Symbol.Walk.Layout.{HoldsSymbol}
use pyflame.Symbol.Walk.{walk_table}
use pyflame.Tests.Executable.{start}

abbrev symbol : Text → ℕ → Symbol
symbol name value = record { name = name; value = value }

-- The bytes of the file of zeros: sh_size, at 32, is 24 * 2 ^ 16, and sh_entsize, at 56, is 24.
unfoldable zero_byte : ℕ → ℕ
zero_byte a = if a == 34 then 24 else if a == 56 then 24 else 0

abbrev zeros : Elf
zeros = new_elf (λ a. some (zero_byte a)) 1572864

unfoldable number : ℕ → ℕ → ℕ
number zero a = 0
number (suc n) a = zero_byte a + 256 * number n (a + 1)

word_of-zeros : (n a : ℕ) → word_of n zeros.image a ≡ some (number n a)
unfolding word_of number
word_of-zeros zero a = refl
word_of-zeros (suc n) a = rw (word_of-zeros n (a + 1)) refl

zero_byte-else : (a : ℕ) → a ≢ 34 → a ≢ 56 → zero_byte a ≡ 0
unfolding zero_byte
zero_byte-else a h i = ground arith

name-zero : (i a : ℕ) → a ≡ i * 24 → number 4 a ≡ 0
unfolding number
name-zero i a e =
    rw
      (
        zero_byte-else a (omega arith) (omega arith),
        zero_byte-else (a + 1) (omega arith) (omega arith),
        zero_byte-else (a + 1 + 1) (omega arith) (omega arith),
        zero_byte-else (a + 1 + 1 + 1) (omega arith) (omega arith),
      )
      refl

zeros_symbol :
    (i : ℕ)
    → i < 2 ^ 16
    → HoldsSymbol zeros (0 + i * 24) 0 (symbol [] (number 8 ((0 + i * 24 + 8) % 2 ^ 64)))
unfolding word_of zero_byte
zeros_symbol i h = record {
  st_name = 0;
  st_name-holds =
      word_of-zeros 4 ((0 + i * 24) % 2 ^ 64)
      ∙ ap some (name-zero i ((0 + i * 24) % 2 ^ 64) (omega arith));
  name-holds = refl;
  value-holds = word_of-zeros 8 ((0 + i * 24 + 8) % 2 ^ 64);
}

zeros-IsHeadless : IsHeadless zeros 0 0
unfolding word_of zero_byte kind_of text_eq codes
zeros-IsHeadless = record {
  headers = record {
    off = 0;
    size = 1572864;
    entsize = 24;
    str = 0;
    off-holds = refl;
    size-holds = refl;
    entsize-holds = refl;
    str-holds = refl;
    entsize_pos = ltb→lt 0 24 refl;
  };
  count = ground arith;
  symbol = λ i h. symbol [] (number 8 ((0 + i * 24 + 8) % 2 ^ 64));
  holds = zeros_symbol;
  headless = λ i h. refl;
}

walk_table-endless_example :
    walk_table 1000000 zeros (pos 1) (pos 2) no_addresses start ≡ out_of_fuel
unfolding shdr entry int_mul field word_of zero_byte
walk_table-endless_example =
    walk_table-endless zeros 0 0 zeros-IsHeadless start (pos 1) (pos 2) 1000000 no_addresses refl
      refl refl

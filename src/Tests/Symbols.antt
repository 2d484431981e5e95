-- ===== src/Tests/Symbols.antt =====
-- The ELF reader on the small executable.
use pyflame.Common.Int.{pos}
use pyflame.Common.{
  ◌*◌, ℕ, ◌+◌, ◌%◌, ◌^◌, ◌<◌, Text, codes, Bool, true, false, not, ◌&&◌, Option, none, some, List,
  [], ◌∷◌, ◌≡◌, refl, arith, ltb, ltb→lt, ◌==◌,
}
use pyflame.Os.{word_of}
use pyflame.Exc.Post.{Ensures}
use pyflame.Symbol.Elf.Parsed.{IsParsed, parse-IsParsed}
use pyflame.Symbol.Elf.Sections.{IsHeader, new_elf-IsIndexed}
use pyflame.Symbol.Elf.Segments.{Segment, HoldsSegments, first_load}
use pyflame.Symbol.Walk.File.{HasTable, relative, found_in, get_addresses-found}
use pyflame.Symbol.Elf.{Elf, new_elf, parse, shdr, entry, int_mul, field}
use pyflame.Symbol.Walk.Scan.{Symbol}
use pyflame.Symbol.Elf.Tables.{HoldsText}
use pyflame.Symbol.Walk.Layout.{Holds, HoldsSymbol, HoldsTable}
use pyflame.Symbol.Walk.{get_addresses}
use pyflame.Tests.Executable.{executable, start}

-- Whether a text stands at an address.
unfoldable pub holds_text : Elf → ℕ → Text → Bool
holds_text elf a [] = elim (word_of 1 elf.image (a % 2 ^ 64)) [ none ↦ false | some b ↦ b == 0 ]
holds_text elf a (c ∷ t) =
    elim (word_of 1 elf.image (a % 2 ^ 64)) [ none ↦ false | some b ↦ (b == c) && not (c == 0) ]
    && holds_text elf (a + 1) t

holds-byte :
    (o : Option ℕ) (c : ℕ)
    → elim o as (λ _. Bool) [ none ↦ false | some b ↦ b == c ] ≡ true
    → o ≡ some c
holds-byte none c h = ground arith
holds-byte (some b) c h = ground arith

holds-cons :
    (o : Option ℕ) (c : ℕ) (rest : Bool)
    → (elim o as (λ _. Bool) [ none ↦ false | some b ↦ (b == c) && not (c == 0) ] && rest) ≡ true
    → (o ≡ some c) × (0 < c) × (rest ≡ true)
holds-cons none c rest h = ground arith
holds-cons (some b) c rest h = (ground arith, ground arith, ground arith)

pub holds_text-HoldsText :
    (elf : Elf) (a : ℕ) (t : Text) → holds_text elf a t ≡ true → HoldsText elf a t
unfolding holds_text
holds_text-HoldsText elf a [] h = holds-byte (word_of 1 elf.image (a % 2 ^ 64)) 0 h
holds_text-HoldsText elf a (c ∷ t) h =
    let r = holds-cons (word_of 1 elf.image (a % 2 ^ 64)) c (holds_text elf (a + 1) t) h in
    (r.0, r.1, holds_text-HoldsText elf (a + 1) t r.2)

abbrev pub elf : Elf
elf = record (new_elf executable 736) { dynamic = pos 3; dynstr = pos 2; dynsym = pos 1 }

abbrev pub symbol : Text → ℕ → Symbol
symbol name value = record { name = name; value = value }

abbrev pub symbols : List Symbol
symbols =
    symbol [] 0
    ∷ symbol (codes "PyString_Type") 0x8200
    ∷ symbol (codes "interp_head") 0x8100
    ∷ symbol (codes "_PyThreadState_Current") 0x8000
    ∷ []

holds_symbol :
    (a n : ℕ) (x : Symbol)
    → Holds elf 4 a n
    → holds_text elf (160 + n) x.name ≡ true
    → Holds elf 8 (a + 8) x.value
    → HoldsSymbol elf a 160 x
holds_symbol a n x h t v = record {
  st_name = n;
  st_name-holds = h;
  name-holds = holds_text-HoldsText elf (160 + n) x.name t;
  value-holds = v;
}

table : HoldsTable elf 368 432 symbols
unfolding word_of holds_text codes
table = record {
  headers = record {
    off = 64;
    size = 96;
    entsize = 24;
    str = 160;
    off-holds = refl;
    size-holds = refl;
    entsize-holds = refl;
    str-holds = refl;
    entsize_pos = ltb→lt 0 24 refl;
  };
  count = refl;
  symbols_hold = (
    holds_symbol 64 0 (symbol [] 0) refl refl refl,
    (
      holds_symbol 88 52 (symbol (codes "PyString_Type") 0x8200) refl refl refl,
      (
        holds_symbol 112 40 (symbol (codes "interp_head") 0x8100) refl refl refl,
        (holds_symbol 136 17 (symbol (codes "_PyThreadState_Current") 0x8000) refl refl refl, tt),
      ),
    ),
  );
}

header : (n a : ℕ) → a ≡ 304 + n * 64 → n * 64 < 2 ^ 31 → IsHeader executable n a
unfolding word_of
header n a e h = record {
  shoff = 304;
  shentsize = 64;
  shoff-read = refl;
  shentsize-read = refl;
  fits = h;
  place = e;
}

pub elf-HasTable : (fuel : ℕ) → ltb 4 fuel ≡ true → HasTable elf fuel (pos 1) (pos 2) symbols
unfolding shdr entry int_mul field word_of
elf-HasTable fuel h = record {
  symbol_index = 1;
  string_index = 2;
  is_symbol_index = refl;
  is_string_index = refl;
  s = 368;
  d = 432;
  symbols_at = header 1 368 refl (ltb→lt 64 (2 ^ 31) refl);
  strings_at = header 2 432 refl (ltb→lt 128 (2 ^ 31) refl);
  table = table;
  small = ltb→lt 4 (2 ^ 16) refl;
  enough = ltb→lt 4 fuel h;
}

abbrev pub segments : List Segment
segments = record { p_type = 6; p_vaddr = 0x40 } ∷ record { p_type = 1; p_vaddr = 0x1000 } ∷ []

pub segments-held : HoldsSegments elf segments
unfolding word_of
segments-held = record {
  off = 624;
  size = 56;
  phoff = refl;
  phentsize = refl;
  phnum = refl;
  segments_hold = (refl, refl, ltb→lt 0 (2 ^ 31) refl, (refl, refl, ltb→lt 56 (2 ^ 31) refl, tt));
}

get_addresses-found_example :
    get_addresses 5 elf start ≡ relative true (first_load segments) (found_in symbols none) start
unfolding word_of
get_addresses-found_example =
    get_addresses-found elf start 5 symbols none segments 3 (elf-HasTable 5 refl) refl refl
      segments-held

parse-IsParsed_example :
    Ensures (IsParsed (new_elf executable 736)) (parse (new_elf executable 736) start)
parse-IsParsed_example =
    parse-IsParsed (new_elf executable 736) start (new_elf-IsIndexed executable 736)

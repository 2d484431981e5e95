-- ===== src/Symbol/Elf/Tables.antt =====
-- Tables in the mapping of a file: their section headers, and texts.
use pyflame.Common.{ℕ, ◌+◌, ◌*◌, ◌/◌, ◌<◌, ◌==◌, false, Text, [], ◌∷◌, ◌≡◌, refl, arith}
use pyflame.Exc.{State, ok}
use pyflame.Symbol.Elf.Sections.{Reads, field-Reads}
use pyflame.Symbol.Elf.{Elf, entries, entry_address}

-- A text without NUL, and the NUL behind it.
abbrev pub HoldsText : Elf → ℕ → Text → Type 0
HoldsText elf a [] = Reads elf.image 1 a 0
HoldsText elf a (c ∷ t) = Reads elf.image 1 a c × (0 < c) × HoldsText elf (a + 1) t

-- The section header at `s` of a table, and the one at `d` of its names.
pub record HoldsHeaders (elf : Elf) (s d : ℕ) : Type 0 where
  pub off : ℕ
  pub size : ℕ
  pub entsize : ℕ
  pub str : ℕ
  pub off-holds : Reads elf.image 8 (s + 24) off
  pub size-holds : Reads elf.image 8 (s + 32) size
  pub entsize-holds : Reads elf.image 8 (s + 56) entsize
  pub str-holds : Reads elf.image 8 (d + 24) str
  pub entsize_pos : 0 < entsize

module _ {W : Type 0} (elf : Elf) (s d : ℕ) (h : HoldsHeaders elf s d) (t : State W) where
  pub entries-holds : entries elf s t ≡ ok (h.size / h.entsize) t
  unfolding entries
  entries-holds =
      let some_size : (h.entsize == 0) ≡ false = ground arith in
      rw
        (
          field-Reads elf 8 (s + 32) h.size t h.size-holds,
          field-Reads elf 8 (s + 56) h.entsize t h.entsize-holds,
          some_size,
        )
        refl

  pub entry_address-holds : (i : ℕ) → entry_address elf s i t ≡ ok (h.off + i * h.entsize) t
  unfolding entry_address
  entry_address-holds i =
      rw
        (
          field-Reads elf 8 (s + 24) h.off t h.off-holds,
          field-Reads elf 8 (s + 56) h.entsize t h.entsize-holds,
        )
        refl

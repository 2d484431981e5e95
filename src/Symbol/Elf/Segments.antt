-- ===== src/Symbol/Elf/Segments.antt =====
-- GetBaseAddress on program headers that are laid out in the mapping.
use pyflame.Common.Int.{pos}
use pyflame.Common.{
  ℕ, ◌+◌, ◌*◌, ◌^◌, ◌<◌, codes, Option, none, some, List, [], ◌∷◌, ◌≡◌, refl, length, lt→ltb, ◌==◌,
  if◌then◌else◌, Bool-cases, inl, inr,
}
use pyflame.Exc.{State, Run, ok, throw, fatal_exception}
use pyflame.Symbol.Elf.Sections.{Reads, field-Reads}
use pyflame.Symbol.Elf.{Elf, entry, int_mul, phdr, load_loop, get_base_address}

pub record Segment : Type 0 where
  pub p_type : ℕ
  pub p_vaddr : ℕ

-- The entries from the index `i` on of a table at `off`, whose products of `int` do not overflow.
abbrev pub HoldSegments : Elf → ℕ → ℕ → ℕ → List Segment → Type 0
HoldSegments elf off size i [] = Unit
HoldSegments elf off size i (x ∷ xs) =
    Reads elf.image 4 (off + i * size) x.p_type
    × Reads elf.image 8 (off + i * size + 16) x.p_vaddr
    × (i * size < 2 ^ 31)
    × HoldSegments elf off size (i + 1) xs

pub record HoldsSegments (elf : Elf) (segments : List Segment) : Type 0 where
  pub off : ℕ
  pub size : ℕ
  pub phoff : Reads elf.image 8 32 off
  pub phentsize : Reads elf.image 2 54 size
  pub phnum : Reads elf.image 2 56 (length segments)
  pub segments_hold : HoldSegments elf off size 0 segments

-- The address of the first segment that is loaded.
abbrev pub first_load : List Segment → Option ℕ
first_load [] = none
first_load (x ∷ xs) = let rest = first_load xs in if x.p_type == 1 then some x.p_vaddr else rest

abbrev pub base_or_error : {W : Type 0} → Option ℕ → State W → Run W ℕ
base_or_error none s =
    throw (fatal_exception (codes "Failed to find PT_LOAD entry in program headers")) s
base_or_error (some base) s = ok base s

module _ {W : Type 0} (elf : Elf) where
  module _ (off size : ℕ) (phoff : Reads elf.image 8 32 off)
      (phentsize : Reads elf.image 2 54 size) where
    phdr-holds :
        (i : ℕ) (s : State W) → i * size < 2 ^ 31 → phdr elf (pos i) s ≡ ok (off + i * size) s
    unfolding phdr entry int_mul
    phdr-holds i s h =
        rw
          (
            field-Reads elf 8 32 off s phoff,
            field-Reads elf 2 54 size s phentsize,
            entry,
            int_mul,
            lt→ltb (i * size) (2 ^ 31) h,
          )
          refl

    load_loop-first :
        (xs : List Segment) (i : ℕ) (s : State W)
        → HoldSegments elf off size i xs
        → load_loop elf (length xs) i s ≡ base_or_error (first_load xs) s
    unfolding load_loop
    load_loop-first [] i s h = refl
    load_loop-first (x ∷ xs) i s h =
        rw (phdr-holds i s h.2, field-Reads elf 4 (off + i * size) x.p_type s h.0)
          (elim (Bool-cases (x.p_type == 1)) [
            | inl e ↦ rw e (field-Reads elf 8 (off + i * size + 16) x.p_vaddr s h.1)
            | inr e ↦ rw e (load_loop-first xs (i + 1) s h.3)
          ])

  -- Where the mapping of an ELF file holds its program headers, within the range of `int`,
  -- GetBaseAddress changes nothing and returns the p_vaddr of the first PT_LOAD header, and throws
  -- a FatalException if there is none.
  pub get_base_address-first :
      (segments : List Segment) (s : State W)
      → HoldsSegments elf segments
      → get_base_address elf s ≡ base_or_error (first_load segments) s
  unfolding get_base_address
  get_base_address-first segments s h =
      rw (field-Reads elf 2 56 (length segments) s h.phnum)
        (load_loop-first h.off h.size h.phoff h.phentsize segments 0 s h.segments_hold)

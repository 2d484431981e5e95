-- ===== src/Symbol/Elf/Needed.antt =====
-- NeededLibs on a dynamic section that is laid out in the mapping.
use mathlib.Core.List.{append_assoc, append-nil}
use pyflame.Common.Int.{pos}
use pyflame.Common.{
  ℕ, zero, suc, ◌+◌, ◌*◌, ◌/◌, ◌%◌, ◌^◌, ◌<◌, Text, true, false, List, [], ◌∷◌, ◌++◌, ◌≡◌, ap, ◌∙◌,
  length, ltb, ◌==◌, arith,
}
use pyflame.Exc.{State, ok}
use pyflame.Symbol.Elf.Sections.{Reads, IsHeader, field-Reads, shdr-IsHeader}
use pyflame.Symbol.Elf.Tables.{HoldsText, HoldsHeaders, entries-holds, entry_address-holds}
use pyflame.Symbol.Elf.{Elf, read_text, needed_loop, needed_libs, shdr}

-- An entry of .dynamic: the name of a library that is needed, or another tag.
pub data Entry : Type 0 where
  needed : Text → Entry
  other : ℕ → Entry

abbrev pub libraries : List Entry → List Text
libraries [] = []
libraries (needed lib ∷ xs) = lib ∷ libraries xs
libraries (other tag ∷ xs) = libraries xs

-- The entry at `a` names a library, in less than `fuel` bytes.
pub record HoldsName (elf : Elf) (fuel str a : ℕ) (lib : Text) : Type 0 where
  pub d_val : ℕ
  pub d_tag-holds : Reads elf.image 8 a 1
  pub d_val-holds : Reads elf.image 8 (a + 8) d_val
  pub name-holds : HoldsText elf (str + d_val) lib
  pub short : length lib < fuel

-- The entries of a section from the index `i` on.
abbrev pub HoldEntries : Elf → ℕ → ℕ → ℕ → ℕ → ℕ → List Entry → Type 0
HoldEntries elf fuel off entsize str i [] = Unit
HoldEntries elf fuel off entsize str i (needed lib ∷ xs) =
    HoldsName elf fuel str (off + i * entsize) lib × HoldEntries elf fuel off entsize str (i + 1) xs
HoldEntries elf fuel off entsize str i (other tag ∷ xs) =
    (Reads elf.image 8 (off + i * entsize) tag × ((tag == 1) ≡ false))
    × HoldEntries elf fuel off entsize str (i + 1) xs

-- The indices of .dynamic and .dynstr are those of a section with the entries, and of their names.
pub record HasEntries (elf : Elf) (text_fuel : ℕ) (xs : List Entry) : Type 0 where
  pub dynamic_index : ℕ
  pub dynstr_index : ℕ
  pub is_dynamic : elf.dynamic ≡ pos dynamic_index
  pub is_dynstr : elf.dynstr ≡ pos dynstr_index
  pub s : ℕ
  pub d : ℕ
  pub dynamic_at : IsHeader elf.image dynamic_index s
  pub dynstr_at : IsHeader elf.image dynstr_index d
  pub headers : HoldsHeaders elf s d
  pub count : headers.size / headers.entsize ≡ length xs
  pub small : length xs < 2 ^ 16
  pub entries_hold : HoldEntries elf text_fuel headers.off headers.entsize headers.str 0 xs

module _ {W : Type 0} (elf : Elf) (t : State W) where
  pub read_text-HoldsText :
      (fuel a : ℕ) (text : Text)
      → HoldsText elf a text
      → length text < fuel
      → read_text elf fuel a t ≡ ok text t
  unfolding read_text
  read_text-HoldsText zero a text h enough = absurd (omega arith)
  read_text-HoldsText (suc fuel) a [] h enough = rw (field-Reads elf 1 a 0 t h)
  read_text-HoldsText (suc fuel) a (c ∷ text) h enough =
      let more : (c == 0) ≡ false = ground arith in
      rw
        (field-Reads elf 1 a c t h.0, more, read_text-HoldsText fuel (a + 1) text h.2 (omega arith))

  module _ (s d : ℕ) (headers : HoldsHeaders elf s d) where
    needed_loop-libraries :
        (fuel text_fuel i : ℕ) (xs : List Entry) (libs : List Text)
        → headers.size / headers.entsize ≡ i + length xs
        → i + length xs < 2 ^ 16
        → length xs < fuel
        → HoldEntries elf text_fuel headers.off headers.entsize headers.str i xs
        → needed_loop fuel text_fuel elf s d i libs t ≡ ok (libs ++ libraries xs) t
    unfolding needed_loop
    needed_loop-libraries zero text_fuel i xs libs count small enough h = absurd (omega arith)
    needed_loop-libraries (suc fuel) text_fuel i [] libs count small enough h =
        let over : ltb i (headers.size / headers.entsize) ≡ false = ground arith in
        rw (entries-holds elf s d headers t, over, append-nil)
    needed_loop-libraries (suc fuel) text_fuel i (needed lib ∷ xs) libs count small enough h =
        let on : ltb i (headers.size / headers.entsize) ≡ true = ground arith in
        let next : (i + 1) % 2 ^ 16 ≡ i + 1 = omega arith in
        let x = h.0 in
        rw
          (
            entries-holds elf s d headers t,
            on,
            entry_address-holds elf s d headers t i,
            field-Reads elf 8 (headers.off + i * headers.entsize) 1 t x.d_tag-holds,
            field-Reads elf 8 (d + 24) headers.str t headers.str-holds,
            field-Reads elf 8 (headers.off + i * headers.entsize + 8) x.d_val t x.d_val-holds,
            read_text-HoldsText text_fuel (headers.str + x.d_val) lib x.name-holds x.short,
            next,
          )
          (needed_loop-libraries fuel text_fuel (i + 1) xs (libs ++ (lib ∷ [])) (omega arith)
              (omega arith) (omega arith) h.1
            ∙ rw (append_assoc libs (lib ∷ []) (libraries xs)))
    needed_loop-libraries (suc fuel) text_fuel i (other tag ∷ xs) libs count small enough h =
        let on : ltb i (headers.size / headers.entsize) ≡ true = ground arith in
        let next : (i + 1) % 2 ^ 16 ≡ i + 1 = omega arith in
        rw
          (
            entries-holds elf s d headers t,
            on,
            entry_address-holds elf s d headers t i,
            field-Reads elf 8 (headers.off + i * headers.entsize) tag t h.0.0,
            h.0.1,
            next,
          )
          (needed_loop-libraries fuel text_fuel (i + 1) xs libs (omega arith) (omega arith)
            (omega arith) h.1)

  -- NeededLibs returns the names of the DT_NEEDED entries, in their order, and changes nothing.
  pub needed_libs-libraries :
      (fuel text_fuel : ℕ) (xs : List Entry)
      → HasEntries elf text_fuel xs
      → length xs < fuel
      → needed_libs fuel text_fuel elf t ≡ ok (libraries xs) t
  unfolding needed_libs
  needed_libs-libraries fuel text_fuel xs h enough =
      rw
        (
          ap (λ i. shdr elf i t) h.is_dynamic
              ∙ shdr-IsHeader elf h.dynamic_index h.s t h.dynamic_at,
          ap (λ i. shdr elf i t) h.is_dynstr ∙ shdr-IsHeader elf h.dynstr_index h.d t h.dynstr_at,
        )
        (needed_loop-libraries h.s h.d h.headers fuel text_fuel 0 xs [] (h.count ∙ omega arith)
          (omega (arith, h.small)) enough h.entries_hold)

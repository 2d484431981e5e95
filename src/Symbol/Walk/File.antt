-- ===== src/Symbol/Walk/File.antt =====
-- GetAddresses on a whole file: its one or two symbol tables, its type and its program headers.
use pyflame.Common.Int.{ℤ, pos, is_negative}
use pyflame.Common.{
  ap, ◌∙◌, ℕ, ◌^◌, ◌<◌, Bool, true, false, not, ◌&&◌, Option, none, some, List, ◌≡◌, refl, length,
  ◌==◌, if◌then◌else◌, Bool-cases, inl, inr,
}
use pyflame.Exc.{State, Run, ok, resume}
use pyflame.Symbol.Addresses.{PyAbi, unknown, PyAddresses, no_addresses, subtract}
use pyflame.Symbol.Elf.Sections.{Reads, IsHeader, field-Reads, shdr-IsHeader}
use pyflame.Symbol.Elf.Segments.{
  Segment, HoldsSegments, first_load, base_or_error, get_base_address-first,
}
use pyflame.Symbol.Elf.{Elf, shdr}
use pyflame.Symbol.Walk.Found.{walk_table-found}
use pyflame.Symbol.Walk.Scan.{Symbol}
use pyflame.Symbol.Walk.Layout.{HoldsTable}
use pyflame.Symbol.Walk.Values.{abi_of, found}
use pyflame.Symbol.Walk.{walk_table, walk_symtab, get_addresses}

-- The sections of the two indices are a symbol table and its names.
pub record HasTable (elf : Elf) (fuel : ℕ) (symbol_table string_table : ℤ) (symbols : List Symbol)
    : Type 0 where
  pub symbol_index : ℕ
  pub string_index : ℕ
  pub is_symbol_index : symbol_table ≡ pos symbol_index
  pub is_string_index : string_table ≡ pos string_index
  pub s : ℕ
  pub d : ℕ
  pub symbols_at : IsHeader elf.image symbol_index s
  pub strings_at : IsHeader elf.image string_index d
  pub table : HoldsTable elf s d symbols
  pub small : length symbols < 2 ^ 16
  pub enough : length symbols < fuel

-- There is a second table, or an index of it is -1.
abbrev pub HasSymtab : Elf → ℕ → Option (List Symbol) → Type 0
HasSymtab elf fuel none = (not (is_negative elf.symtab) && not (is_negative elf.strtab)) ≡ false
HasSymtab elf fuel (some ys) =
    ((not (is_negative elf.symtab) && not (is_negative elf.strtab)) ≡ true)
    × HasTable elf fuel elf.symtab elf.strtab ys

-- What both walks find: the addresses of the first table come first, and the ABI is that of the last.
abbrev pub found_in : List Symbol → Option (List Symbol) → PyAbi × PyAddresses
found_in xs none = (abi_of xs unknown, found xs no_addresses)
found_in xs (some ys) = (abi_of ys unknown, found ys (found xs no_addresses))

-- The addresses of an object that is loaded elsewhere are relative to its base.
abbrev pub relative :
    {W : Type 0} → Bool → Option ℕ → PyAbi × PyAddresses → State W → Run W (PyAddresses × PyAbi)
relative is_dyn base r t =
    if is_dyn
    then resume (base_or_error base t) (λ b u. ok (subtract (record (r.1) { pie = true }) b, r.0) u)
    else ok (record (r.1) { pie = false }, r.0) t

module _ {W : Type 0} (elf : Elf) (t : State W) (fuel : ℕ) where
  walk_table-HasTable :
      (symbol_table string_table : ℤ) (symbols : List Symbol) (addrs : PyAddresses)
      → HasTable elf fuel symbol_table string_table symbols
      → walk_table fuel elf symbol_table string_table addrs t
        ≡ ok (abi_of symbols unknown, found symbols addrs) t
  walk_table-HasTable symbol_table string_table symbols addrs h =
      walk_table-found elf symbol_table string_table h.s h.d fuel symbols addrs t
        (ap (λ i. shdr elf i t) h.is_symbol_index
          ∙ shdr-IsHeader elf h.symbol_index h.s t h.symbols_at)
        (ap (λ i. shdr elf i t) h.is_string_index
          ∙ shdr-IsHeader elf h.string_index h.d t h.strings_at)
        h.table h.small h.enough

  walk_symtab-found :
      (xs : List Symbol) (symtab : Option (List Symbol))
      → HasSymtab elf fuel symtab
      → walk_symtab fuel elf (found_in xs none) t ≡ ok (found_in xs symtab) t
  unfolding walk_symtab
  walk_symtab-found xs none h = rw h refl
  walk_symtab-found xs (some ys) h =
      rw (h.0) (walk_table-HasTable elf.symtab elf.strtab ys (found xs no_addresses) h.1)

  -- Where the mapping of an ELF file holds a dynamic symbol table, a second symbol table or none,
  -- the file's type and its program headers, with offsets of headers in the range of `int` and
  -- fewer than 2 ^ 16 symbols in a table, GetAddresses changes nothing and returns the addresses
  -- that the symbols of the first table give, completed by those of the second, with the ABI that
  -- the symbols of the last table give; for a shared object the addresses are relative to the
  -- address of the first PT_LOAD segment, and without such a segment it throws. More rounds than
  -- symbols in a table are enough.
  pub get_addresses-found :
      (xs : List Symbol) (symtab : Option (List Symbol)) (segments : List Segment) (e_type : ℕ)
      → HasTable elf fuel elf.dynsym elf.dynstr xs
      → HasSymtab elf fuel symtab
      → Reads elf.image 2 16 e_type
      → HoldsSegments elf segments
      → get_addresses fuel elf t
        ≡ relative (e_type == 3) (first_load segments) (found_in xs symtab) t
  unfolding get_addresses
  get_addresses-found xs symtab segments e_type h i e segs =
      rw
        (
          walk_table-HasTable elf.dynsym elf.dynstr xs no_addresses h,
          walk_symtab-found xs symtab i,
          field-Reads elf 2 16 e_type t e,
        )
        (elim (Bool-cases (e_type == 3)) [
          | inl f ↦ rw (f, get_base_address-first elf segments t segs) refl
          | inr f ↦ rw f refl
        ])

-- ===== src/Symbol/Elf/Still.antt =====
-- Reading the mapping of a file changes nothing: it keeps whatever holds of the state.
use pyflame.Common.Int.{ℤ, pos, negsuc}
use pyflame.Common.{ℕ, zero, suc, Text, List, [], ◌∷◌, ◌+◌, ◌%◌, ◌^◌}
use pyflame.Exc.Keeps.{Keeps, Keeps-option, Keeps-stuck, Keeps-pure, keeps_rules}
use pyflame.Exc.{State, stuck, pure}
use pyflame.Os.{word_of}
use pyflame.Symbol.Elf.{
  Elf, field, equals, read_text, entry, phdr, shdr, int_mul, section_name, parse_strtab,
  parse_section, parse_loop, parse, entries, entry_address, needed_loop, needed_libs, load_loop,
  get_base_address, starts_with, check_header,
}

module _ {W : Type 0} (P : State W → Type 0) where
  pub field-Keeps : (elf : Elf) (n a : ℕ) → Keeps P (field elf n a)
  unfolding field
  field-Keeps elf n a =
      Keeps-option P (word_of n elf.image (a % 2 ^ 64)) stuck pure (Keeps-stuck P) (Keeps-pure P)

  entry-Keeps : (what : Text) (off size : ℕ) (i : ℤ) → Keeps P (entry what off size i)
  unfolding entry
  entry-Keeps what off size (negsuc n) = search keeps_rules
  entry-Keeps what off size (pos n) =
      Keeps-option P (int_mul n size) stuck (λ m. pure (off + m)) (Keeps-stuck P)
        (λ m. Keeps-pure P (off + m))

  pub shdr-Keeps : (elf : Elf) (i : ℤ) → Keeps P (shdr elf i)
  unfolding shdr
  shdr-Keeps elf i = search (keeps_rules, field-Keeps, entry-Keeps)

  phdr-Keeps : (elf : Elf) (i : ℤ) → Keeps P (phdr elf i)
  unfolding phdr
  phdr-Keeps elf i = search (keeps_rules, field-Keeps, entry-Keeps)

  pub equals-Keeps : (elf : Elf) (a : ℕ) (t : Text) → Keeps P (equals elf a t)
  unfolding equals
  equals-Keeps elf a [] = search (keeps_rules, field-Keeps)
  equals-Keeps elf a (c ∷ t) =
      let ih = equals-Keeps elf (a + 1) t in search (keeps_rules, field-Keeps)

  read_text-Keeps : (elf : Elf) (fuel a : ℕ) → Keeps P (read_text elf fuel a)
  unfolding read_text
  read_text-Keeps elf zero a = search keeps_rules
  read_text-Keeps elf (suc fuel) a =
      let ih = read_text-Keeps elf fuel (a + 1) in search (keeps_rules, field-Keeps)

  section_name-Keeps : (elf : Elf) (n : ℕ) → Keeps P (section_name elf n)
  unfolding section_name
  section_name-Keeps elf n = search (keeps_rules, field-Keeps, shdr-Keeps)

  parse_strtab-Keeps : (elf : Elf) (i n : ℕ) → Keeps P (parse_strtab elf i n)
  unfolding parse_strtab
  parse_strtab-Keeps elf i n = search (keeps_rules, section_name-Keeps, equals-Keeps)

  parse_section-Keeps : (elf : Elf) (i : ℕ) → Keeps P (parse_section elf i)
  unfolding parse_section
  parse_section-Keeps elf i =
      search (keeps_rules, field-Keeps, shdr-Keeps, parse_strtab-Keeps) depth 12

  parse_loop-Keeps : (left i : ℕ) (elf : Elf) → Keeps P (parse_loop left i elf)
  unfolding parse_loop
  parse_loop-Keeps zero i elf = search keeps_rules
  parse_loop-Keeps (suc left) i elf =
      let ih = λ (e : Elf). parse_loop-Keeps left (i + 1) e in
      search (keeps_rules, parse_section-Keeps)

  pub parse-Keeps : (elf : Elf) → Keeps P (parse elf)
  unfolding parse
  parse-Keeps elf = search (keeps_rules, field-Keeps, parse_loop-Keeps) depth 12

  pub entries-Keeps : (elf : Elf) (s : ℕ) → Keeps P (entries elf s)
  unfolding entries
  entries-Keeps elf s = search (keeps_rules, field-Keeps)

  pub entry_address-Keeps : (elf : Elf) (s i : ℕ) → Keeps P (entry_address elf s i)
  unfolding entry_address
  entry_address-Keeps elf s i = search (keeps_rules, field-Keeps)

  needed_loop-Keeps :
      (fuel text_fuel : ℕ) (elf : Elf) (s d i : ℕ) (needed : List Text)
      → Keeps P (needed_loop fuel text_fuel elf s d i needed)
  unfolding needed_loop
  needed_loop-Keeps zero text_fuel elf s d i needed = search keeps_rules
  needed_loop-Keeps (suc fuel) text_fuel elf s d i needed =
      let ih =
        λ (libs : List Text). needed_loop-Keeps fuel text_fuel elf s d ((i + 1) % 2 ^ 16) libs in
      search (keeps_rules, entries-Keeps, entry_address-Keeps, field-Keeps, read_text-Keeps) depth
        12

  pub needed_libs-Keeps :
      (fuel text_fuel : ℕ) (elf : Elf) → Keeps P (needed_libs fuel text_fuel elf)
  unfolding needed_libs
  needed_libs-Keeps fuel text_fuel elf = search (keeps_rules, shdr-Keeps, needed_loop-Keeps)

  load_loop-Keeps : (elf : Elf) (left i : ℕ) → Keeps P (load_loop elf left i)
  unfolding load_loop
  load_loop-Keeps elf zero i = search keeps_rules
  load_loop-Keeps elf (suc left) i =
      let ih = load_loop-Keeps elf left (i + 1) in search (keeps_rules, phdr-Keeps, field-Keeps)

  pub get_base_address-Keeps : (elf : Elf) → Keeps P (get_base_address elf)
  unfolding get_base_address
  get_base_address-Keeps elf = search (keeps_rules, field-Keeps, load_loop-Keeps)

  starts_with-Keeps : (elf : Elf) (a : ℕ) (t : Text) → Keeps P (starts_with elf a t)
  unfolding starts_with
  starts_with-Keeps elf a [] = search keeps_rules
  starts_with-Keeps elf a (c ∷ t) =
      let ih = starts_with-Keeps elf (a + 1) t in search (keeps_rules, field-Keeps)

  pub check_header-Keeps : (target : Text) (elf : Elf) → Keeps P (check_header target elf)
  unfolding check_header
  check_header-Keeps target elf = search (keeps_rules, field-Keeps, starts_with-Keeps) depth 12

-- ===== src/Symbol/Elf/Parsed.antt =====
-- Parse returns an object whose indices fit the section headers.
use pyflame.Common.Int.{ℤ, negsuc, int_eq}
use pyflame.Common.{
  ℕ, zero, suc, ◌+◌, ◌-◌, true, false, ◌≡◌, inl, inr, ◌⊎◌, refl, sym, ap, ◌∙◌, arith,
}
use pyflame.Exc.Post.{Ensures, Ensures-resume, Ensures-any, Ensures-if}
use mathlib.Core.Path.{subst}
use pyflame.Exc.{State}
use pyflame.Symbol.Elf.Sections.{IsSection, IsUnset, IsIndexed, Keeps, parse_section-Keeps}
use pyflame.Symbol.Elf.{Elf, field, parse_section, parse_loop, parse}

-- Behind Parse: the three sections that it asks for, of the type that each one has, and the others.
abbrev pub IsParsed : Elf → Elf → Type 0
IsParsed elf e =
    IsSection elf.image 6 e.dynamic
    × IsSection elf.image 3 e.dynstr
    × IsSection elf.image 11 e.dynsym
    × (IsUnset e.strtab ⊎ IsSection elf.image 3 e.strtab)
    × (IsUnset e.symtab ⊎ IsSection elf.image 2 e.symtab)
    × (e.image ≡ elf.image)

was_set : {A : Type 0} {i : ℤ} → int_eq i (negsuc 0) ≡ false → IsUnset i ⊎ A → A
was_set e (inl h) =
    let t : true ≡ false = sym (ap (λ x. int_eq x (negsuc 0)) h) ∙ e in absurd (ground arith)
was_set e (inr a) = a

module _ {W : Type 0} where
  parse_loop-Keeps :
      (left i : ℕ) (elf : Elf) (s : State W)
      → IsIndexed elf
      → Ensures (Keeps elf) (parse_loop left i elf s)
  unfolding parse_loop
  parse_loop-Keeps zero i elf s held = (held, refl)
  parse_loop-Keeps (suc left) i elf s held =
      Ensures-resume (Keeps elf) (Keeps elf) (parse_section elf i s) _
        (parse_section-Keeps elf i held s)
        (λ e t h.
          subst
            (λ image. Ensures (λ x. IsIndexed x × (x.image ≡ image)) (parse_loop left (i + 1) e t))
            h.1 (parse_loop-Keeps left (i + 1) e t h.0))

  -- From an object whose indices are -1 or fit the section headers, when Parse returns, the indices
  -- of .dynamic, .dynstr and .dynsym are those of sections of the types SHT_DYNAMIC, SHT_STRTAB and
  -- SHT_DYNSYM, those of .strtab and .symtab are -1 or indices of sections of the types SHT_STRTAB
  -- and SHT_SYMTAB, and the mapping is the same.
  pub parse-IsParsed :
      (elf : Elf) (s : State W) → IsIndexed elf → Ensures (IsParsed elf) (parse elf s)
  unfolding parse
  parse-IsParsed elf s held =
      Ensures-resume (λ _. Unit) (IsParsed elf) (field elf 2 60 s) _
        (Ensures-any (field elf 2 60 s))
        (λ shnum t _.
          Ensures-resume (Keeps elf) (IsParsed elf) (parse_loop (shnum - 1) 1 elf t) _
            (parse_loop-Keeps (shnum - 1) 1 elf t held)
            (λ e u h.
              Ensures-if (IsParsed elf) (int_eq e.dynamic (negsuc 0)) _ _ u (λ _. tt)
                (λ no_dynamic.
                  Ensures-if (IsParsed elf) (int_eq e.dynstr (negsuc 0)) _ _ u (λ _. tt)
                    (λ no_dynstr.
                      Ensures-if (IsParsed elf) (int_eq e.dynsym (negsuc 0)) _ _ u (λ _. tt)
                        (λ no_dynsym.
                          subst
                            (λ image.
                              IsSection image 6 e.dynamic
                              × IsSection image 3 e.dynstr
                              × IsSection image 11 e.dynsym
                              × (IsUnset e.strtab ⊎ IsSection image 3 e.strtab)
                              × (IsUnset e.symtab ⊎ IsSection image 2 e.symtab)
                              × (e.image ≡ image))
                            h.1
                            (
                              was_set no_dynamic h.0.dynamic,
                              was_set no_dynstr h.0.dynstr,
                              was_set no_dynsym h.0.dynsym,
                              h.0.strtab,
                              h.0.symtab,
                              refl,
                            ))))))

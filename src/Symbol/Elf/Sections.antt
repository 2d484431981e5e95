-- ===== src/Symbol/Elf/Sections.antt =====
-- The indices that Parse leaves in an ELF object.
use pyflame.Common.Int.{ℤ, pos, negsuc}
use pyflame.Common.{
  ℕ, ◌+◌, ◌*◌, ◌^◌, ◌%◌, true, false, some, ◌≡◌, ◌⊎◌, inl, inr, refl, ap, ◌∙◌, sym, ltb, ltb→lt,
  lt→ltb, ◌<◌, ◌==◌, ==_iff, if◌then◌else◌, Bool-cases, Option-cases, codes,
}
use pyflame.Exc.Post.{Ensures, Ensures-resume, Ensures-any, Ensures-if}
use pyflame.Exc.{State, ok}
use pyflame.Os.{Memory, word_of}
use pyflame.Symbol.Elf.{
  Elf, new_elf, field, equals, entry, int_mul, shdr, section_name, parse_strtab, parse_section,
}

-- A number of `n` bytes in the mapping.
abbrev pub Reads : Memory → ℕ → ℕ → ℕ → Type 0
Reads image n a v = word_of n image (a % 2 ^ 64) ≡ some v

-- The header of section `n` stands at `a`, by e_shoff and e_shentsize.
pub record IsHeader (image : Memory) (n a : ℕ) : Type 0 where
  pub shoff : ℕ
  pub shentsize : ℕ
  pub shoff-read : Reads image 8 40 shoff
  pub shentsize-read : Reads image 2 58 shentsize
  pub fits : n * shentsize < 2 ^ 31
  pub place : a ≡ shoff + n * shentsize

-- `i` is the index of a section whose header has the type `ty`.
pub record IsSection (image : Memory) (ty : ℕ) (i : ℤ) : Type 0 where
  pub index : ℕ
  pub address : ℕ
  pub is_index : i ≡ pos index
  pub header : IsHeader image index address
  pub sh_type : Reads image 4 (address + 4) ty

abbrev pub IsUnset : ℤ → Type 0
IsUnset i = i ≡ negsuc 0

-- Each index is -1, or that of a section of its type.
pub record IsIndexed (elf : Elf) : Type 0 where
  pub dynamic : IsUnset elf.dynamic ⊎ IsSection elf.image 6 elf.dynamic
  pub dynstr : IsUnset elf.dynstr ⊎ IsSection elf.image 3 elf.dynstr
  pub dynsym : IsUnset elf.dynsym ⊎ IsSection elf.image 11 elf.dynsym
  pub strtab : IsUnset elf.strtab ⊎ IsSection elf.image 3 elf.strtab
  pub symtab : IsUnset elf.symtab ⊎ IsSection elf.image 2 elf.symtab

pub new_elf-IsIndexed : (image : Memory) (length : ℕ) → IsIndexed (new_elf image length)
new_elf-IsIndexed image length = record {
  dynamic = inl refl;
  dynstr = inl refl;
  dynsym = inl refl;
  strtab = inl refl;
  symtab = inl refl;
}

-- What a step of Parse on `elf` leaves.
abbrev pub Keeps : Elf → Elf → Type 0
Keeps elf e = IsIndexed e × (e.image ≡ elf.image)

module _ {W : Type 0} where
  pub field-Reads :
      (elf : Elf) (n a v : ℕ) (s : State W) → Reads elf.image n a v → field elf n a s ≡ ok v s
  unfolding field
  field-Reads elf n a v s h = rw (h, field) refl

  field-Ensures :
      (elf : Elf) (n a : ℕ) (s : State W) → Ensures (λ v. Reads elf.image n a v) (field elf n a s)
  unfolding field
  field-Ensures elf n a s = elim (Option-cases (word_of n elf.image (a % 2 ^ 64))) [
    | inl e ↦ rw (e, field) tt
    | inr (v, e) ↦ rw (e, field) refl
  ]

  shdr-Ensures :
      (elf : Elf) (i : ℕ) (s : State W) → Ensures (IsHeader elf.image i) (shdr elf (pos i) s)
  unfolding shdr entry int_mul
  shdr-Ensures elf i s =
      Ensures-resume (λ v. Reads elf.image 8 40 v) (IsHeader elf.image i) (field elf 8 40 s) _
        (field-Ensures elf 8 40 s)
        (λ shoff t h.
          Ensures-resume (λ v. Reads elf.image 2 58 v) (IsHeader elf.image i) (field elf 2 58 t) _
            (field-Ensures elf 2 58 t)
            (λ size u k. elim (Bool-cases (ltb (i * size) (2 ^ 31))) [
              | inl e ↦
                  rw (e, int_mul, entry)
                    (record {
                      shoff = shoff;
                      shentsize = size;
                      shoff-read = h;
                      shentsize-read = k;
                      fits = ltb→lt (i * size) (2 ^ 31) e;
                      place = refl;
                    })
              | inr e ↦ rw (e, int_mul, entry) tt
            ]))

  pub shdr-IsHeader :
      (elf : Elf) (i a : ℕ) (s : State W) → IsHeader elf.image i a → shdr elf (pos i) s ≡ ok a s
  unfolding shdr entry int_mul
  shdr-IsHeader elf i a s h =
      rw
        (
          field-Reads elf 8 40 h.shoff s h.shoff-read,
          field-Reads elf 2 58 h.shentsize s h.shentsize-read,
          entry,
          int_mul,
          lt→ltb (i * h.shentsize) (2 ^ 31) h.fits,
        )
        (ap (λ b. ok b s) (sym h.place))

  module _ (elf : Elf) (i : ℕ) (held : IsIndexed elf) where
    parse_strtab-Keeps :
        (name : ℕ) (s : State W)
        → IsSection elf.image 3 (pos i)
        → Ensures (Keeps elf) (parse_strtab elf i name s)
    unfolding parse_strtab
    parse_strtab-Keeps name s h =
        Ensures-resume (λ _. Unit) (Keeps elf) (section_name elf name s) _
          (Ensures-any (section_name elf name s))
          (λ a t _.
            Ensures-resume (λ _. Unit) (Keeps elf) (equals elf a (codes ".dynstr") t) _
              (Ensures-any (equals elf a (codes ".dynstr") t))
              (λ is_dynstr u _.
                Ensures-if (Keeps elf) is_dynstr _ _ u
                  (λ _. (
                    record {
                      dynamic = held.dynamic;
                      dynstr = inr h;
                      dynsym = held.dynsym;
                      strtab = held.strtab;
                      symtab = held.symtab;
                    },
                    refl,
                  ))
                  (λ _.
                    Ensures-resume (λ _. Unit) (Keeps elf) (equals elf a (codes ".strtab") u) _
                      (Ensures-any (equals elf a (codes ".strtab") u))
                      (λ is_strtab x _.
                        elim is_strtab
                          as (λ b. Keeps elf (if b then record elf { strtab = pos i } else elf)) [
                            | true ↦ (
                              record {
                                dynamic = held.dynamic;
                                dynstr = held.dynstr;
                                dynsym = held.dynsym;
                                strtab = inr h;
                                symtab = held.symtab;
                              },
                              refl,
                            )
                            | false ↦ (held, refl)
                          ]))))

    pub parse_section-Keeps : (s : State W) → Ensures (Keeps elf) (parse_section elf i s)
    unfolding parse_section
    parse_section-Keeps s =
        Ensures-resume (IsHeader elf.image i) (Keeps elf) (shdr elf (pos i) s) _
          (shdr-Ensures elf i s)
          (λ a t h.
            Ensures-resume (λ v. Reads elf.image 4 (a + 4) v) (Keeps elf) (field elf 4 (a + 4) t) _
              (field-Ensures elf 4 (a + 4) t)
              (λ ty u k.
                let is : (n : ℕ) → (ty == n) ≡ true → IsSection elf.image n (pos i) = λ n e.
                  record {
                    index = i;
                    address = a;
                    is_index = refl;
                    header = h;
                    sh_type = k ∙ ap some ((==_iff ty n).0 e);
                  } in
                Ensures-if (Keeps elf) (ty == 3) _ _ u
                  (λ e.
                    Ensures-resume (λ _. Unit) (Keeps elf) (field elf 4 a u) _
                      (Ensures-any (field elf 4 a u))
                      (λ name x _. parse_strtab-Keeps name x (is 3 e)))
                  (λ _.
                    Ensures-if (Keeps elf) (ty == 11) _ _ u
                      (λ e. (
                        record {
                          dynamic = held.dynamic;
                          dynstr = held.dynstr;
                          dynsym = inr (is 11 e);
                          strtab = held.strtab;
                          symtab = held.symtab;
                        },
                        refl,
                      ))
                      (λ _.
                        Ensures-if (Keeps elf) (ty == 6) _ _ u
                          (λ e. (
                            record {
                              dynamic = inr (is 6 e);
                              dynstr = held.dynstr;
                              dynsym = held.dynsym;
                              strtab = held.strtab;
                              symtab = held.symtab;
                            },
                            refl,
                          ))
                          (λ _.
                            Ensures-if (Keeps elf) (ty == 2) _ _ u
                              (λ e. (
                                record {
                                  dynamic = held.dynamic;
                                  dynstr = held.dynstr;
                                  dynsym = held.dynsym;
                                  strtab = held.strtab;
                                  symtab = inr (is 2 e);
                                },
                                refl,
                              ))
                              (λ _. (held, refl)))))))

-- ===== src/Symbol/Walk/Table.antt =====
-- WalkTable's loop on a symbol table that is laid out in the mapping of a file.
use pyflame.Common.{
  ℕ, zero, suc, ◌+◌, ◌*◌, ◌/◌, ◌%◌, ◌^◌, ◌<◌, ◌≤◌, lt→ltb, false, ltb, List, [], ◌∷◌, ◌≡◌, refl,
  sym, ap, ◌∙◌, arith, length, Bool-cases, inl, inr,
}
use pyflame.Exc.{State, ok}
use pyflame.Symbol.Elf.{Elf}
use pyflame.Symbol.Walk.Scan.{Symbol, scan_symbol, scan, scan_complete}
use pyflame.Symbol.Walk.{Walk, is_complete, walk_loop}
use pyflame.Symbol.Elf.Sections.{field-Reads}
use pyflame.Symbol.Elf.Tables.{HoldsHeaders, entries-holds, entry_address-holds}
use pyflame.Symbol.Walk.Layout.{HoldsSymbol, HoldSymbols}
use pyflame.Symbol.Walk.Symbols.{walk_symbol-scan}

not_ltb : (i n : ℕ) → n ≤ i → ltb i n ≡ false
not_ltb i n h = ground arith

small_mod : (i : ℕ) → i < 2 ^ 16 → i % 2 ^ 16 ≡ i
small_mod i h = omega arith

module _ {W : Type 0} (elf : Elf) (s d : ℕ) (h : HoldsHeaders elf s d) (t : State W) where
  -- One round of the loop that is neither the last nor ended by the `break`.
  pub walk_loop-round :
      (fuel i : ℕ) (x : Symbol) (k : Walk)
      → i < h.size / h.entsize
      → is_complete k ≡ false
      → HoldsSymbol elf (h.off + i * h.entsize) h.str x
      → walk_loop (suc fuel) elf s d i k t
        ≡ walk_loop fuel elf s d ((i + 1) % 2 ^ 16) (scan_symbol x k) t
  unfolding walk_loop
  walk_loop-round fuel i x k below c held =
      let sym = h.off + i * h.entsize in
      rw
        (
          entries-holds elf s d h t,
          lt→ltb i (h.size / h.entsize) below,
          c,
          entry_address-holds elf s d h t i,
          field-Reads elf 8 (d + 24) h.str t h.str-holds,
          field-Reads elf 4 sym held.st_name t held.st_name-holds,
          walk_symbol-scan elf x (h.str + held.st_name) t held.name-holds sym k held.value-holds,
        )
        refl

  pub walk_loop-scan :
      (xs : List Symbol) (fuel i : ℕ) (k : Walk)
      → h.size / h.entsize ≡ i + length xs
      → h.size / h.entsize < 2 ^ 16
      → length xs < fuel
      → HoldSymbols elf h.off h.entsize h.str i xs
      → walk_loop fuel elf s d i k t ≡ ok (scan xs k) t
  unfolding scan walk_loop
  walk_loop-scan xs zero i k e small more held = absurd (omega arith)
  walk_loop-scan [] (suc fuel) i k e small more held =
      rw (entries-holds elf s d h t, not_ltb i (h.size / h.entsize) (omega arith)) refl
  walk_loop-scan (x ∷ xs) (suc fuel) i k e small more held = elim (Bool-cases (is_complete k)) [
    | inl c ↦
        rw (entries-holds elf s d h t, lt→ltb i (h.size / h.entsize) (omega arith), c)
          (ap (λ k'. ok k' t) (sym (scan_complete (x ∷ xs) k c)))
    | inr c ↦
        walk_loop-round fuel i x k (omega arith) c held.0
        ∙ rw (small_mod (i + 1) (omega arith)) (
            walk_loop-scan xs fuel (i + 1) (scan_symbol x k) (omega arith) small (omega arith)
              held.1)
  ]

-- ===== src/Symbol/Walk/Symbols.antt =====
-- The body of WalkTable's loop on a symbol that is laid out in the mapping of a file.
use pyflame.Common.{
  ℕ, ◌+◌, ◌<◌, Text, text_eq, codes, Bool, true, false, not, ◌&&◌, ◌||◌, [], ◌∷◌, ◌≡◌, refl, sym,
  arith, ◌==◌, if◌then◌else◌, Bool-cases, inl, inr,
}
use pyflame.Exc.{State, Cmd, pure, ok}
use pyflame.Symbol.Elf.{Elf, equals}
use pyflame.Symbol.Walk.Scan.{Symbol, named, scan_abi, scan_symbol}
use pyflame.Symbol.Walk.{Walk, test, walk_abi, walk_symbol}
use pyflame.Symbol.Elf.Sections.{field-Reads}
use pyflame.Symbol.Elf.Tables.{HoldsText}
use pyflame.Symbol.Walk.Layout.{Holds}

-- Whether a text has no NUL.
pub no_nul : Text → Bool
no_nul [] = true
no_nul (c ∷ t) = if c == 0 then false else no_nul t

no_nul-cons : (c : ℕ) (t : Text) → no_nul (c ∷ t) ≡ true → ((0 == c) ≡ false) × (no_nul t ≡ true)
unfolding no_nul
no_nul-cons c t h = (ground arith, ground arith)

pub neq_zero : (c : ℕ) → 0 < c → (c == 0) ≡ false
neq_zero c h = ground arith

-- The names that WalkTable looks for.
no_nul-names :
    (no_nul (codes "_PyThreadState_Current") ≡ true)
    × (no_nul (codes "interp_head") ≡ true)
    × (no_nul (codes "PyInterpreterState_Head") ≡ true)
    × (no_nul (codes "PyString_Type") ≡ true)
    × (no_nul (codes "PyBytes_Type") ≡ true)
    × (no_nul (codes "_PyEval_RequestCodeExtraIndex") ≡ true)
    × (no_nul (codes "_PyCode_GetExtra") ≡ true)
    × (no_nul (codes "_PyCode_SetExtra") ≡ true)
unfolding no_nul codes
no_nul-names = (refl, refl, refl, refl, refl, refl, refl, refl)

-- The flags of three tests of which each one is left out where an earlier one holds.
or-skipped : (b c d : Bool) → (b || (not b && c) || (not (b || (not b && c)) && d)) ≡ (b || c || d)
or-skipped true c d = refl
or-skipped false true d = refl
or-skipped false false d = refl

if-ok :
    {W A : Type 0} (b : Bool) (v u : A) (c : Cmd W A) (s : State W)
    → c s ≡ ok u s
    → (if b then pure v else c) s ≡ ok (if b then v else u) s
if-ok true v u c s h = refl
if-ok false v u c s h = h

module _ {W : Type 0} (elf : Elf) where
  equals-HoldsText :
      (name t : Text) (a : ℕ) (s : State W)
      → HoldsText elf a name
      → no_nul t ≡ true
      → equals elf a t s ≡ ok (text_eq name t) s
  unfolding equals text_eq
  equals-HoldsText [] [] a s h n = rw (field-Reads elf 1 a 0 s h) refl
  equals-HoldsText [] (d ∷ t) a s h n = rw (field-Reads elf 1 a 0 s h, (no_nul-cons d t n).0) refl
  equals-HoldsText (c ∷ name) [] a s h n = rw (field-Reads elf 1 a c s h.0, neq_zero c h.1) refl
  equals-HoldsText (c ∷ name) (d ∷ t) a s h n =
      rw (field-Reads elf 1 a c s h.0) (elim (Bool-cases (c == d)) [
        | inl e ↦ rw e (equals-HoldsText name t (a + 1) s h.2 (no_nul-cons d t n).1)
        | inr e ↦ rw e refl
      ])

  module _ (x : Symbol) (a : ℕ) (s : State W) (h : HoldsText elf a x.name) where
    test-HoldsText :
        (b : Bool) (t : Text) → no_nul t ≡ true → test elf b a t s ≡ ok (b && named x t) s
    test-HoldsText true t n = equals-HoldsText x.name t a s h n
    test-HoldsText false t n = refl

    -- The tests on the ABI.
    walk_abi-scan : (k : Walk) → walk_abi elf a k s ≡ ok (scan_abi x k) s
    unfolding walk_abi
    walk_abi-scan k =
        let b = named x (codes "_PyEval_RequestCodeExtraIndex") in
        let c = named x (codes "_PyCode_GetExtra") in
        rw (equals-HoldsText x.name (codes "PyString_Type") a s h no_nul-names.3)
          (elim (Bool-cases (named x (codes "PyString_Type"))) [
            | inl e ↦ rw e refl
            | inr e ↦
                rw (e, equals-HoldsText x.name (codes "PyBytes_Type") a s h no_nul-names.4)
                  (elim (Bool-cases (named x (codes "PyBytes_Type"))) [
                    | inl e' ↦ rw e' refl
                    | inr e' ↦
                        rw
                          (
                            e',
                            equals-HoldsText x.name (codes "_PyEval_RequestCodeExtraIndex") a s h
                                no_nul-names.5,
                            test-HoldsText (not b) (codes "_PyCode_GetExtra") no_nul-names.6,
                            test-HoldsText (not (b || (not b && c))) (codes "_PyCode_SetExtra")
                                no_nul-names.7,
                            or-skipped b c (named x (codes "_PyCode_SetExtra")),
                          )
                          (elim (Bool-cases (b || c || named x (codes "_PyCode_SetExtra"))) [
                            | inl f ↦ rw f refl
                            | inr f ↦ rw f refl
                          ])
                  ])
          ])

    -- The body of the loop is one round of the pass.
    pub walk_symbol-scan :
        (sym : ℕ) (k : Walk)
        → Holds elf 8 (sym + 8) x.value
        → walk_symbol elf sym a k s ≡ ok (scan_symbol x k) s
    unfolding walk_symbol
    walk_symbol-scan sym k v =
        let b = k.addrs.interp_head_addr == 0 in
        rw
          (test-HoldsText (k.addrs.tstate_addr == 0) (codes "_PyThreadState_Current")
            no_nul-names.0)
          (elim (Bool-cases
            ((k.addrs.tstate_addr == 0) && named x (codes "_PyThreadState_Current"))) [
              | inl e ↦ rw (e, field-Reads elf 8 (sym + 8) x.value s v) refl
              | inr e ↦
                  rw (e, test-HoldsText b (codes "interp_head") no_nul-names.1)
                    (elim (Bool-cases (b && named x (codes "interp_head"))) [
                      | inl f ↦ rw (f, field-Reads elf 8 (sym + 8) x.value s v) refl
                      | inr f ↦
                          rw (f, test-HoldsText b (codes "PyInterpreterState_Head") no_nul-names.2)
                            (elim (Bool-cases (b && named x (codes "PyInterpreterState_Head"))) [
                              | inl g ↦ rw (g, field-Reads elf 8 (sym + 8) x.value s v) refl
                              | inr g ↦ rw g (
                                  if-ok k.have_abi k (scan_abi x k) (walk_abi elf a k) s
                                    (walk_abi-scan k))
                            ])
                    ])
            ])

-- ===== src/Symbol/Walk/Scan.antt =====
-- What WalkTable computes, without memory: a pass over the names and the values of the symbols.
use pyflame.Common.{
  ℕ, Text, codes, text_eq, Bool, true, false, not, ◌&&◌, ◌||◌, List, [], ◌∷◌, ◌≡◌, refl, arith,
  ◌==◌, if◌then◌else◌,
}
use pyflame.Symbol.Addresses.{py26, py34, py36}
use pyflame.Symbol.Walk.{Walk, is_complete}

pub record Symbol : Type 0 where
  pub name : Text
  pub value : ℕ

abbrev pub named : Symbol → Text → Bool
named x t = text_eq x.name t

-- The three symbols that are new in Python 3.6.
abbrev pub is_extra : Symbol → Bool
is_extra x =
    named x (codes "_PyEval_RequestCodeExtraIndex")
    || named x (codes "_PyCode_GetExtra")
    || named x (codes "_PyCode_SetExtra")

abbrev pub scan_abi : Symbol → Walk → Walk
scan_abi x k =
    if named x (codes "PyString_Type")
    then record k { have_abi = true; abi = py26 }
    else if named x (codes "PyBytes_Type")
    then record k { abi = py34 }
    else if is_extra x
    then record k { have_abi = true; abi = py36 }
    else k

-- One round of the loop.
abbrev pub scan_symbol : Symbol → Walk → Walk
scan_symbol x k =
    if (k.addrs.tstate_addr == 0) && named x (codes "_PyThreadState_Current")
    then record k { addrs = record (k.addrs) { tstate_addr = x.value } }
    else if (k.addrs.interp_head_addr == 0) && named x (codes "interp_head")
    then record k { addrs = record (k.addrs) { interp_head_addr = x.value } }
    else if (k.addrs.interp_head_addr == 0) && named x (codes "PyInterpreterState_Head")
    then record k { addrs = record (k.addrs) { interp_head_fn_addr = x.value } }
    else if k.have_abi
    then k
    else scan_abi x k

-- All rounds, without the `break`.
unfoldable pub scan : List Symbol → Walk → Walk
scan [] k = k
scan (x ∷ xs) k = scan xs (scan_symbol x k)

complete-flags :
    (a b c d : Bool)
    → (a && not b && not c && not d) ≡ true
    → (a ≡ true) × (b ≡ false) × (c ≡ false)
complete-flags true false false d h = (refl, refl, refl)
complete-flags true false true d h = ground arith
complete-flags true true c d h = ground arith
complete-flags false b c d h = ground arith

if-true : {A : Type 0} (b : Bool) (v u : A) → b ≡ true → (if b then v else u) ≡ v
if-true true v u h = refl
if-true false v u h = ground arith

-- What makes the loop `break` leaves nothing to find.
scan_symbol_complete : (x : Symbol) (k : Walk) → is_complete k ≡ true → scan_symbol x k ≡ k
unfolding is_complete
scan_symbol_complete x k h =
    let flags =
      complete-flags k.have_abi (k.addrs.tstate_addr == 0) (k.addrs.interp_head_addr == 0)
        (k.addrs.interp_head_fn_addr == 0) h in
    rw (flags.1, flags.2) (if-true k.have_abi k (scan_abi x k) flags.0)

pub scan_complete : (xs : List Symbol) (k : Walk) → is_complete k ≡ true → scan xs k ≡ k
unfolding scan
scan_complete [] k h = refl
scan_complete (x ∷ xs) k h = rw (scan_symbol_complete x k h) (scan_complete xs k h)

-- ===== src/Symbol/Walk/Found.antt =====
-- WalkTable finds what the symbols of its table say.
use pyflame.Common.{
  ℕ, ◌^◌, ◌<◌, false, List, [], ◌∷◌, ◌≡◌, refl, sym, ap, ◌∙◌, arith, length, ◌==◌, if◌then◌else◌,
}
use pyflame.Common.Int.{ℤ}
use pyflame.Exc.{State, ok}
use pyflame.Symbol.Addresses.{unknown, PyAddresses}
use pyflame.Symbol.Elf.{Elf, shdr}
use pyflame.Symbol.Walk.Kinds.{kind_of, step}
use pyflame.Symbol.Walk.Chain.{if-same}
use pyflame.Symbol.Walk.Steps.{scan_symbol-step}
use pyflame.Symbol.Walk.Scan.{Symbol, scan}
use pyflame.Symbol.Walk.Layout.{HoldsTable}
use pyflame.Symbol.Walk.Table.{walk_loop-scan}
use pyflame.Symbol.Walk.{Walk, walk_table}
use pyflame.Symbol.Walk.Rounds.{
  step-keeps, tstate-round, head-round, fn-round, abi_behind, abi_left, abi-round,
}
use pyflame.Symbol.Walk.Values.{
  is_thread_state, is_head, first_value, until_head, last_head_fn, first_abi, has_bytes, abi_of,
  found,
}

scan-cons :
    (x : Symbol) (xs : List Symbol) (k : Walk)
    → scan (x ∷ xs) k ≡ scan xs (step (kind_of x.name) x.value k)
unfolding scan
scan-cons x xs k = ap (scan xs) (scan_symbol-step x k)

zero-or : (n : ℕ) → n ≡ (if n == 0 then 0 else n)
zero-or n = ground arith

scan-tstate :
    (xs : List Symbol) (k : Walk)
    → (scan xs k).addrs.tstate_addr
      ≡ (if k.addrs.tstate_addr == 0 then first_value is_thread_state xs else k.addrs.tstate_addr)
unfolding scan first_value
scan-tstate [] k = zero-or k.addrs.tstate_addr
scan-tstate (x ∷ xs) k =
    ap (λ u. u.addrs.tstate_addr) (scan-cons x xs k)
    ∙ (scan-tstate xs (step (kind_of x.name) x.value k)
        ∙ tstate-round (kind_of x.name) x.value (first_value is_thread_state xs) k)

scan-head :
    (xs : List Symbol) (k : Walk)
    → (scan xs k).addrs.interp_head_addr
      ≡ (if k.addrs.interp_head_addr == 0 then first_value is_head xs else k.addrs.interp_head_addr)
unfolding scan first_value
scan-head [] k = zero-or k.addrs.interp_head_addr
scan-head (x ∷ xs) k =
    ap (λ u. u.addrs.interp_head_addr) (scan-cons x xs k)
    ∙ (scan-head xs (step (kind_of x.name) x.value k)
        ∙ head-round (kind_of x.name) x.value (first_value is_head xs) k)

scan-fn :
    (xs : List Symbol) (k : Walk)
    → (scan xs k).addrs.interp_head_fn_addr ≡ (
        if k.addrs.interp_head_addr == 0
        then last_head_fn (until_head xs) k.addrs.interp_head_fn_addr
        else k.addrs.interp_head_fn_addr)
unfolding scan until_head last_head_fn
scan-fn [] k = sym (if-same (k.addrs.interp_head_addr == 0) k.addrs.interp_head_fn_addr)
scan-fn (x ∷ xs) k =
    ap (λ u. u.addrs.interp_head_fn_addr) (scan-cons x xs k)
    ∙ (scan-fn xs (step (kind_of x.name) x.value k) ∙ fn-round (kind_of x.name) x xs k refl)

scan-abi :
    (xs : List Symbol) (k : Walk)
    → (scan xs k).abi ≡ (if k.have_abi then k.abi else abi_of xs k.abi)
unfolding scan first_abi has_bytes abi_behind abi_left
scan-abi [] k = sym (if-same k.have_abi k.abi)
scan-abi (x ∷ xs) k =
    ap (λ u. u.abi) (scan-cons x xs k)
    ∙ (scan-abi xs (step (kind_of x.name) x.value k)
        ∙ abi-round (kind_of x.name) x.value xs k.addrs k.abi k.have_abi)

scan-same :
    {A : Type 0} (f : PyAddresses → A) (xs : List Symbol) (k : Walk)
    → ((v : ℕ) (a : PyAddresses) → f (record a { tstate_addr = v }) ≡ f a)
    → ((v : ℕ) (a : PyAddresses) → f (record a { interp_head_addr = v }) ≡ f a)
    → ((v : ℕ) (a : PyAddresses) → f (record a { interp_head_fn_addr = v }) ≡ f a)
    → f (scan xs k).addrs ≡ f k.addrs
unfolding scan
scan-same f [] k h i j = refl
scan-same f (x ∷ xs) k h i j =
    ap (λ u. f u.addrs) (scan-cons x xs k)
    ∙ (scan-same f xs (step (kind_of x.name) x.value k) h i j
        ∙ step-keeps f (kind_of x.name) x.value k (λ _. h x.value k.addrs) (λ _. i x.value k.addrs)
            (λ _. j x.value k.addrs))

scan-found : (xs : List Symbol) (k : Walk) → (scan xs k).addrs ≡ found xs k.addrs
scan-found xs k = λ i. record {
  tstate_addr = scan-tstate xs k i;
  interp_head_addr = scan-head xs k i;
  interp_head_fn_addr = scan-fn xs k i;
  interp_head_hint =
      scan-same (λ a. a.interp_head_hint) xs k (λ _ _. refl) (λ _ _. refl) (λ _ _. refl) i;
  pie = scan-same (λ a. a.pie) xs k (λ _ _. refl) (λ _ _. refl) (λ _ _. refl) i;
}

module _ {W : Type 0} (elf : Elf) where
  -- Where the mapping of an ELF file holds a symbol table of fewer than 2 ^ 16 symbols, WalkTable
  -- changes nothing and gives each of the two variables that is not known yet the value of the
  -- first symbol of its name whose value is not 0, gives the function the value of the last symbol
  -- of its name before that of interp_head, and returns the ABI of the first symbol that only
  -- Python 2 or only Python 3.6 has, or else 3.4 if there is PyBytes_Type. More rounds than symbols
  -- are enough.
  pub walk_table-found :
      (symbol_table string_table : ℤ) (s d fuel : ℕ) (symbols : List Symbol) (addrs : PyAddresses)
      (t : State W)
      → shdr elf symbol_table t ≡ ok s t
      → shdr elf string_table t ≡ ok d t
      → HoldsTable elf s d symbols
      → length symbols < 2 ^ 16
      → length symbols < fuel
      → walk_table fuel elf symbol_table string_table addrs t
        ≡ ok (abi_of symbols unknown, found symbols addrs) t
  unfolding walk_table
  walk_table-found symbol_table string_table s d fuel symbols addrs t h i held small enough =
      let k : Walk = record { addrs = addrs; abi = unknown; have_abi = false } in
      rw
        (
          h,
          i,
          walk_loop-scan elf s d held.headers t symbols fuel 0 k (omega (arith, held.count))
              (omega (arith, held.count)) enough held.symbols_hold,
          scan-abi symbols k,
          scan-found symbols k,
        )
        refl

-- ===== src/Symbol/Walk/Endless.antt =====
-- The index of WalkTable's loop is a `uint16_t`.
use pyflame.Common.Int.{ℤ}
use pyflame.Common.{
  clash, ℕ, zero, suc, ◌+◌, ◌*◌, ◌/◌, ◌%◌, ◌^◌, ◌<◌, ◌≤◌, Bool, true, false, not, ◌&&◌, ◌≡◌, refl,
  ap, ◌∙◌, arith, ◌==◌,
}
use pyflame.Exc.{State, ok, out_of_fuel}
use pyflame.Symbol.Addresses.{unknown, PyAddresses}
use pyflame.Symbol.Elf.{Elf, shdr}
use pyflame.Symbol.Walk.Kinds.{kind_of}
use pyflame.Symbol.Walk.Steps.{scan_symbol-step}
use pyflame.Symbol.Walk.Rounds.{step-keeps}
use pyflame.Symbol.Walk.Scan.{Symbol, scan_symbol}
use pyflame.Symbol.Elf.Tables.{HoldsHeaders}
use pyflame.Symbol.Walk.Layout.{HoldsSymbol}
use pyflame.Symbol.Walk.Table.{walk_loop-round}
use pyflame.Symbol.Walk.Values.{is_head}
use pyflame.Symbol.Walk.{Walk, is_complete, walk_loop, walk_table}

-- A table of 2 ^ 16 symbols or more, of which the first 2 ^ 16 have no interp_head.
pub record IsHeadless (elf : Elf) (s d : ℕ) : Type 0 where
  pub headers : HoldsHeaders elf s d
  pub count : 2 ^ 16 ≤ headers.size / headers.entsize
  pub symbol : (i : ℕ) → i < 2 ^ 16 → Symbol
  pub holds :
      (i : ℕ) (h : i < 2 ^ 16)
      → HoldsSymbol elf (headers.off + i * headers.entsize) headers.str (symbol i h)
  pub headless : (i : ℕ) (h : i < 2 ^ 16) → is_head (kind_of (symbol i h).name) ≡ false

no_break : (a b c : Bool) → (a && not b && not true && not c) ≡ false
no_break true true c = refl
no_break true false c = refl
no_break false b c = refl

headless_complete : (k : Walk) → k.addrs.interp_head_addr ≡ 0 → is_complete k ≡ false
unfolding is_complete
headless_complete k h =
    rw h (no_break k.have_abi (k.addrs.tstate_addr == 0) (k.addrs.interp_head_fn_addr == 0))

headless-step :
    (x : Symbol) (k : Walk)
    → is_head (kind_of x.name) ≡ false
    → k.addrs.interp_head_addr ≡ 0
    → (scan_symbol x k).addrs.interp_head_addr ≡ 0
headless-step x k h e =
    ap (λ u. u.addrs.interp_head_addr) (scan_symbol-step x k)
    ∙ (step-keeps (λ a. a.interp_head_addr) (kind_of x.name) x.value k (λ _. refl) (λ t. clash t h)
          (λ _. refl)
        ∙ e)

module _ {W : Type 0} (elf : Elf) (s d : ℕ) (table : IsHeadless elf s d) (t : State W) where
  walk_loop-endless :
      (fuel i : ℕ) (k : Walk)
      → i < 2 ^ 16
      → k.addrs.interp_head_addr ≡ 0
      → walk_loop fuel elf s d i k t ≡ out_of_fuel
  unfolding walk_loop
  walk_loop-endless zero i k h e = refl
  walk_loop-endless (suc fuel) i k h e =
      walk_loop-round elf s d table.headers t fuel i (table.symbol i h) k
        (omega (arith, table.count)) (headless_complete k e) (table.holds i h)
      ∙ walk_loop-endless fuel ((i + 1) % 2 ^ 16) (scan_symbol (table.symbol i h) k) (omega arith)
          (headless-step (table.symbol i h) k (table.headless i h) e)

  -- On a symbol table of 2 ^ 16 entries or more whose first 2 ^ 16 symbols have no interp_head, and
  -- with interp_head not known before, WalkTable does not end: no number of rounds is enough, since
  -- its index wraps around.
  pub walk_table-endless :
      (symbol_table string_table : ℤ) (fuel : ℕ) (addrs : PyAddresses)
      → shdr elf symbol_table t ≡ ok s t
      → shdr elf string_table t ≡ ok d t
      → addrs.interp_head_addr ≡ 0
      → walk_table fuel elf symbol_table string_table addrs t ≡ out_of_fuel
  unfolding walk_table
  walk_table-endless symbol_table string_table fuel addrs h i e =
      let k : Walk = record { addrs = addrs; abi = unknown; have_abi = false } in
      rw (h, i, walk_loop-endless fuel 0 k (omega arith) e) refl

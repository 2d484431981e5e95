-- ===== src/Symbol/Walk/Still.antt =====
-- The walk over the symbols changes nothing: it keeps whatever holds of the state.
use pyflame.Common.Int.{ℤ}
use pyflame.Common.{ℕ, zero, suc, ◌+◌, ◌%◌, ◌^◌}
use pyflame.Exc.Keeps.{Keeps, keeps_rules}
use pyflame.Exc.{State}
use pyflame.Symbol.Addresses.{PyAbi, PyAddresses}
use pyflame.Symbol.Elf.Still.{
  field-Keeps, shdr-Keeps, equals-Keeps, entries-Keeps, entry_address-Keeps, get_base_address-Keeps,
}
use pyflame.Symbol.Elf.{Elf}
use pyflame.Symbol.Walk.{
  Walk, walk_abi, walk_symbol, walk_loop, walk_table, walk_symtab, get_addresses,
}

module _ {W : Type 0} (P : State W → Type 0) where
  walk_abi-Keeps : (elf : Elf) (name : ℕ) (k : Walk) → Keeps P (walk_abi elf name k)
  unfolding walk_abi
  walk_abi-Keeps elf name k = search (keeps_rules, equals-Keeps) depth 12

  walk_symbol-Keeps : (elf : Elf) (sym name : ℕ) (k : Walk) → Keeps P (walk_symbol elf sym name k)
  unfolding walk_symbol
  walk_symbol-Keeps elf sym name k =
      search (keeps_rules, equals-Keeps, field-Keeps, walk_abi-Keeps) depth 12

  walk_loop-Keeps :
      (fuel : ℕ) (elf : Elf) (s d i : ℕ) (k : Walk) → Keeps P (walk_loop fuel elf s d i k)
  unfolding walk_loop
  walk_loop-Keeps zero elf s d i k = search keeps_rules
  walk_loop-Keeps (suc fuel) elf s d i k =
      let ih = λ (k' : Walk). walk_loop-Keeps fuel elf s d ((i + 1) % 2 ^ 16) k' in
      search (keeps_rules, entries-Keeps, entry_address-Keeps, field-Keeps, walk_symbol-Keeps) depth
        12

  walk_table-Keeps :
      (fuel : ℕ) (elf : Elf) (sym str : ℤ) (addrs : PyAddresses)
      → Keeps P (walk_table fuel elf sym str addrs)
  unfolding walk_table
  walk_table-Keeps fuel elf sym str addrs = search (keeps_rules, shdr-Keeps, walk_loop-Keeps)

  walk_symtab-Keeps :
      (fuel : ℕ) (elf : Elf) (r : PyAbi × PyAddresses) → Keeps P (walk_symtab fuel elf r)
  unfolding walk_symtab
  walk_symtab-Keeps fuel elf r = search (keeps_rules, walk_table-Keeps)

  pub get_addresses-Keeps : (fuel : ℕ) (elf : Elf) → Keeps P (get_addresses fuel elf)
  unfolding get_addresses
  get_addresses-Keeps fuel elf =
      search (keeps_rules, walk_table-Keeps, walk_symtab-Keeps, field-Keeps, get_base_address-Keeps)
        depth 12

-- ===== src/Symbol/Walk.antt =====
-- WalkTable and GetAddresses of src/symbol.cc: the symbols that Pyflame looks for.
pub mod Scan
pub mod Layout
pub mod Symbols
pub mod Table
pub mod Kinds
pub mod Chain
pub mod Steps
pub mod Values
pub mod Rounds
pub mod Found
pub mod Endless
pub mod File
pub mod Still
use pyflame.Common.Int.{ℤ, is_negative}
use pyflame.Common.{
  ℕ, zero, suc, ◌+◌, ◌%◌, ◌^◌, Text, codes, Bool, true, false, not, ◌&&◌, ◌||◌, ltb, ◌==◌,
  if◌then◌else◌,
}
use pyflame.Exc.{Cmd, pure, no_fuel, ◌>>=◌}
use pyflame.Symbol.Addresses.{PyAbi, unknown, py26, py34, py36, PyAddresses, no_addresses, subtract}
use pyflame.Symbol.Elf.{Elf, field, equals, shdr, entries, entry_address, get_base_address}

-- The variables of the loop.
pub record Walk : Type 0 where
  pub addrs : PyAddresses
  pub abi : PyAbi
  pub have_abi : Bool

-- What makes the loop `break`.
unfoldable pub is_complete : Walk → Bool
is_complete k =
    k.have_abi
    && not (k.addrs.tstate_addr == 0)
    && not (k.addrs.interp_head_addr == 0)
    && not (k.addrs.interp_head_fn_addr == 0)

module _ {W : Type 0} where
  -- `c && strcmp(name, t) == 0`
  abbrev test : Elf → Bool → ℕ → Text → Cmd W Bool
  test elf c name t = if c then equals elf name t else pure false

  -- The tests under `!have_abi`.
  unfoldable pub walk_abi : Elf → ℕ → Walk → Cmd W Walk
  walk_abi elf name k = do
    is_string ← equals elf name (codes "PyString_Type")
    if is_string then pure (record k { have_abi = true; abi = py26 }) else (do
      is_bytes ← equals elf name (codes "PyBytes_Type")
      if is_bytes then pure (record k { abi = py34 }) else (do
        is_index ← equals elf name (codes "_PyEval_RequestCodeExtraIndex")
        is_get ← test elf (not is_index) name (codes "_PyCode_GetExtra")
        is_set ← test elf (not (is_index || is_get)) name (codes "_PyCode_SetExtra")
        if is_index || is_get || is_set
            then pure (record k { have_abi = true; abi = py36 })
            else pure k))

  -- The body of the loop behind the `break`, on the symbol at `sym` whose name is at `name`.
  unfoldable pub walk_symbol : Elf → ℕ → ℕ → Walk → Cmd W Walk
  walk_symbol elf sym name k = do
    is_tstate ← test elf (k.addrs.tstate_addr == 0) name (codes "_PyThreadState_Current")
    if is_tstate
        then (do
          value ← field elf 8 (sym + 8)
          pure (record k { addrs = record (k.addrs) { tstate_addr = value } }))
        else (do
          is_head ← test elf (k.addrs.interp_head_addr == 0) name (codes "interp_head")
          if is_head
              then (do
                value ← field elf 8 (sym + 8)
                pure (record k { addrs = record (k.addrs) { interp_head_addr = value } }))
              else (do
                is_fn ←
                    test elf (k.addrs.interp_head_addr == 0) name (codes "PyInterpreterState_Head")
                if is_fn
                    then (do
                      value ← field elf 8 (sym + 8)
                      pure (record k { addrs = record (k.addrs) { interp_head_fn_addr = value } }))
                    else if k.have_abi
                    then pure k
                    else walk_abi elf name k))

  -- The loop on the sections at `s` and `d`; `i` is a `uint16_t`, and wraps around.
  unfoldable pub walk_loop : ℕ → Elf → ℕ → ℕ → ℕ → Walk → Cmd W Walk
  walk_loop zero elf s d i k = no_fuel
  walk_loop (suc fuel) elf s d i k = do
    count ← entries elf s
    if not (ltb i count) then pure k else if is_complete k then pure k else (do
      sym ← entry_address elf s i
      off ← field elf 8 (d + 24)
      st_name ← field elf 4 sym
      k' ← walk_symbol elf sym (off + st_name) k
      walk_loop fuel elf s d ((i + 1) % 2 ^ 16) k')

  unfoldable pub walk_table : ℕ → Elf → ℤ → ℤ → PyAddresses → Cmd W (PyAbi × PyAddresses)
  walk_table fuel elf sym str addrs = do
    s ← shdr elf sym
    d ← shdr elf str
    k ← walk_loop fuel elf s d 0 (record { addrs = addrs; abi = unknown; have_abi = false })
    pure (k.abi, k.addrs)

  -- The second walk, where there is a `.symtab` with a `.strtab`.
  unfoldable pub walk_symtab : ℕ → Elf → PyAbi × PyAddresses → Cmd W (PyAbi × PyAddresses)
  walk_symtab fuel elf r =
      if not (is_negative elf.symtab) && not (is_negative elf.strtab)
      then walk_table fuel elf elf.symtab elf.strtab r.1
      else pure r

  -- The addresses, and the ABI that is stored by the pointer. ET_DYN is 3.
  unfoldable pub get_addresses : ℕ → Elf → Cmd W (PyAddresses × PyAbi)
  get_addresses fuel elf = do
    r ← walk_table fuel elf elf.dynsym elf.dynstr no_addresses
    detected ← walk_symtab fuel elf r
    e_type ← field elf 2 16
    let addrs = record (detected.1) { pie = e_type == 3 }
    if e_type == 3
        then (do base ← get_base_address elf; pure (subtract addrs base, detected.0))
        else pure (addrs, detected.0)

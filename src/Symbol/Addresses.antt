-- ===== src/Symbol/Addresses.antt =====
-- `PyABI` and `PyAddresses` of src/symbol.h. An address is an `unsigned long`, a number below 2 ^ 64.
pub mod Shifted
use pyflame.Common.{ℕ, ◌+◌, ◌-◌, ◌%◌, ◌^◌, Bool, false, ◌==◌, if◌then◌else◌}

pub data PyAbi : Type 0 where
  unknown py26 py34 py36 : PyAbi

pub record PyAddresses : Type 0 where
  pub tstate_addr : ℕ
  pub interp_head_addr : ℕ
  pub interp_head_fn_addr : ℕ
  pub interp_head_hint : ℕ
  pub pie : Bool

-- The constructor.
abbrev pub no_addresses : PyAddresses
no_addresses = record {
  tstate_addr = 0;
  interp_head_addr = 0;
  interp_head_fn_addr = 0;
  interp_head_hint = 0;
  pie = false;
}

-- `addr == 0 ? 0 : addr - base` and `addr == 0 ? 0 : addr + base`, which wrap around.
unfoldable pub minus_base : ℕ → ℕ → ℕ
minus_base base addr = if addr == 0 then 0 else (addr + 2 ^ 64 - base) % 2 ^ 64

unfoldable pub plus_base : ℕ → ℕ → ℕ
plus_base base addr = if addr == 0 then 0 else (addr + base) % 2 ^ 64

-- `operator-` and `operator+`: the hint and `pie` are copied.
unfoldable pub subtract : PyAddresses → ℕ → PyAddresses
unfolding minus_base
subtract a base = record a {
  tstate_addr = minus_base base a.tstate_addr;
  interp_head_addr = minus_base base a.interp_head_addr;
  interp_head_fn_addr = minus_base base a.interp_head_fn_addr;
}

unfoldable pub add : PyAddresses → ℕ → PyAddresses
unfolding plus_base
add a base = record a {
  tstate_addr = plus_base base a.tstate_addr;
  interp_head_addr = plus_base base a.interp_head_addr;
  interp_head_fn_addr = plus_base base a.interp_head_fn_addr;
}

unfoldable pub empty : PyAddresses → Bool
empty a = a.tstate_addr == 0

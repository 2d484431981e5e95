-- ===== src/Symbol/Addresses/Shifted.antt =====
-- The shift of the addresses of a moved object.
use pyflame.Common.{ℕ, ◌^◌, ◌<◌, ◌≡◌, arith}
use pyflame.Symbol.Addresses.{PyAddresses, minus_base, plus_base, subtract, add}

-- An address that is not at the base itself, or is not set.
abbrev pub IsAbove : ℕ → ℕ → Type 0
IsAbove base a = (a < 2 ^ 64) × (a ≡ base → a ≡ 0)

plus_base-minus_base :
    (base a : ℕ) → base < 2 ^ 64 → IsAbove base a → plus_base base (minus_base base a) ≡ a
unfolding plus_base minus_base
plus_base-minus_base base a h (i, j) = ground arith

-- Addresses below 2 ^ 64 that are not set or are not the base itself are the same again when the
-- base is subtracted from them and then added.
pub add-subtract :
    (a : PyAddresses) (base : ℕ)
    → base < 2 ^ 64
    → IsAbove base a.tstate_addr
    → IsAbove base a.interp_head_addr
    → IsAbove base a.interp_head_fn_addr
    → add (subtract a base) base ≡ a
unfolding add subtract
add-subtract a base h i j k = λ t. record a {
  tstate_addr = plus_base-minus_base base a.tstate_addr h i t;
  interp_head_addr = plus_base-minus_base base a.interp_head_addr h j t;
  interp_head_fn_addr = plus_base-minus_base base a.interp_head_fn_addr h k t;
}

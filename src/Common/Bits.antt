-- ===== src/Common/Bits.antt =====
-- Bit operations on words: low masks, and tags put above a small payload by `|`.
use Prim.Native.Nat.{ℕ, zero, suc, ◌+◌, ◌%◌, ◌^◌, ◌<◌, bit_or}
use mathlib.Core.Bool.{Bool, true, ◌&&◌}
use mathlib.Core.Path.{◌≡◌, refl}
use native.Mathlib.Omega.{arith}
use pyflame.Common.Tests.{◌==◌, ==_iff}

-- `x & (2 ^ k - 1)`
abbrev pub low_bits : ℕ → ℕ → ℕ
low_bits x k = x % 2 ^ k

-- Every payload below `n` leaves the bits of the tag alone.
is_tag : ℕ → ℕ → Bool
is_tag tag zero = true
is_tag tag (suc n) = bit_or tag n == tag + n && is_tag tag n

is_tag-add : (tag n x : ℕ) → is_tag tag n ≡ true → x < n → bit_or tag x ≡ tag + x
unfolding is_tag
is_tag-add tag zero x h lt = absurd (omega arith)
is_tag-add tag (suc n) x h lt = ground (arith, is_tag-add tag n x, ==_iff (bit_or tag n) (tag + n))

-- The four tags of UTF-8.
pub bit_or-two_bytes : (x : ℕ) → x < 32 → bit_or 0xc0 x ≡ 0xc0 + x
unfolding is_tag
bit_or-two_bytes x = is_tag-add 0xc0 32 x refl

pub bit_or-three_bytes : (x : ℕ) → x < 16 → bit_or 0xe0 x ≡ 0xe0 + x
unfolding is_tag
bit_or-three_bytes x = is_tag-add 0xe0 16 x refl

pub bit_or-four_bytes : (x : ℕ) → x < 8 → bit_or 0xf0 x ≡ 0xf0 + x
unfolding is_tag
bit_or-four_bytes x = is_tag-add 0xf0 8 x refl

pub bit_or-tail : (x : ℕ) → x < 64 → bit_or 0x80 x ≡ 0x80 + x
unfolding is_tag
bit_or-tail x = is_tag-add 0x80 64 x refl

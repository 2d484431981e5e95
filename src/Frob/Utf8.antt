-- ===== src/Frob/Utf8.antt =====
-- The UTF-8 encoder in StringDataPython3 of src/frob.cc.
pub mod Decode
use Prim.Native.Nat.{bit_or}
use pyflame.Common.{
  ℕ, ◌/◌, ◌^◌, Text, Option, none, some, [], ◌∷◌, low_bits, ltb, leb, if◌then◌else◌,
}

-- The bytes written for one character; `none` is the failed `assert(ch <= 0x10ffff)`.
pub encode : ℕ → Option Text
encode ch =
    if ltb ch 0x80
    then some (ch ∷ [])
    else if ltb ch 0x0800
    then some (bit_or 0xc0 (ch / 2 ^ 6) ∷ bit_or 0x80 (low_bits ch 6) ∷ [])
    else if ltb ch 0x10000
    then some (
        bit_or 0xe0 (ch / 2 ^ 12)
        ∷ bit_or 0x80 (low_bits (ch / 2 ^ 6) 6)
        ∷ bit_or 0x80 (low_bits ch 6)
        ∷ [])
    else if leb ch 0x10ffff
    then some (
        bit_or 0xf0 (ch / 2 ^ 18)
        ∷ bit_or 0x80 (low_bits (ch / 2 ^ 12) 6)
        ∷ bit_or 0x80 (low_bits (ch / 2 ^ 6) 6)
        ∷ bit_or 0x80 (low_bits ch 6)
        ∷ [])
    else none

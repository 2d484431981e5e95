-- ===== src/Frob/Utf8/Decode.antt =====
-- Decoding by the first byte, in the manner of RFC 3629, and the round trip with the encoder.
use pyflame.Common.{
  ℕ, zero, suc, ◌+◌, ◌-◌, ◌*◌, ◌/◌, ◌%◌, ◌≤◌, ◌<◌, Text, ◌&&◌, Option, none, some, [], ◌∷◌, ◌++◌,
  All, ◌≡◌, refl, sym, ◌∙◌, arith, ltb, leb, if◌then◌else◌, bit_or-two_bytes, bit_or-three_bytes,
  bit_or-four_bytes, bit_or-tail,
}
use mathlib.Core.Path.{subst}
use native.Mathlib.Decide.{dec_lt}
use pyflame.Frob.Utf8.{encode}

-- The payload of a continuation byte.
tail_bits : ℕ → Option ℕ
tail_bits b = if leb 0x80 b && ltb b 0xc0 then some (b - 0x80) else none

-- `acc` followed by the payloads of `n` continuation bytes, and what is left of the text.
decode_tail : ℕ → ℕ → Text → Option (ℕ × Text)
decode_tail zero acc t = some (acc, t)
decode_tail (suc n) acc [] = none
decode_tail (suc n) acc (b ∷ t) = elim (tail_bits b) [
  | none ↦ none
  | some x ↦ decode_tail n (64 * acc + x) t
]

-- One character, and the rest of the text.
pub decode : Text → Option (ℕ × Text)
unfolding decode_tail tail_bits
decode [] = none
decode (b ∷ t) =
    if ltb b 0x80
    then some (b, t)
    else if ltb b 0xc0
    then none
    else if ltb b 0xe0
    then decode_tail 1 (b - 0xc0) t
    else if ltb b 0xf0
    then decode_tail 2 (b - 0xe0) t
    else if ltb b 0xf8
    then decode_tail 3 (b - 0xf0) t
    else none

pub decode-nil : decode [] ≡ none
unfolding decode
decode-nil = refl

tail_bits-add : (x : ℕ) → x < 64 → tail_bits (0x80 + x) ≡ some x
unfolding tail_bits
tail_bits-add x h = ground arith

module _ (ch : ℕ) (rest : Text) where
  -- The text starts with `ch`.
  abbrev Starts : Text → Type 0
  Starts t = decode t ≡ some (ch, rest)

  decode_one : ch < 0x80 → Starts (ch ∷ rest)
  unfolding decode
  decode_one h = ground arith

  decode_two : 0x80 ≤ ch → ch < 0x800 → Starts ((0xc0 + ch / 64) ∷ (0x80 + ch % 64) ∷ rest)
  unfolding decode
  decode_two lo hi = ground arith

  decode_three :
      0x800 ≤ ch
      → ch < 0x10000
      → Starts ((0xe0 + ch / 4096) ∷ (0x80 + ch / 64 % 64) ∷ (0x80 + ch % 64) ∷ rest)
  unfolding decode
  decode_three lo hi = ground arith

  decode_four :
      0x10000 ≤ ch
      → ch ≤ 0x10ffff
      → Starts (
          (0xf0 + ch / 262144)
          ∷ (0x80 + ch / 4096 % 64)
          ∷ (0x80 + ch / 64 % 64)
          ∷ (0x80 + ch % 64)
          ∷ rest)
  unfolding decode
  decode_four lo hi = ground arith

module _ (ch : ℕ) where
  -- `t` is the encoding of `ch`: bytes that decode to `ch`
  -- whatever follows.
  pub record Encodes (t : Text) : Type 0 where
    pub bytes : All (λ b. b < 256) t
    pub back : (rest : Text) → decode (t ++ rest) ≡ some (ch, rest)

  encode_two : 0x80 ≤ ch → ch < 0x800 → encode ch ≡ some ((0xc0 + ch / 64) ∷ (0x80 + ch % 64) ∷ [])
  unfolding encode
  encode_two lo hi = ground (arith, bit_or-two_bytes (ch / 64), bit_or-tail (ch % 64))

  encode_three :
      0x800 ≤ ch
      → ch < 0x10000
      → encode ch ≡ some ((0xe0 + ch / 4096) ∷ (0x80 + ch / 64 % 64) ∷ (0x80 + ch % 64) ∷ [])
  unfolding encode
  encode_three lo hi =
      ground
        (arith, bit_or-three_bytes (ch / 4096), bit_or-tail (ch / 64 % 64), bit_or-tail (ch % 64))

  encode_four :
      0x10000 ≤ ch
      → ch ≤ 0x10ffff
      → encode ch
        ≡ some (
            (0xf0 + ch / 262144)
            ∷ (0x80 + ch / 4096 % 64)
            ∷ (0x80 + ch / 64 % 64)
            ∷ (0x80 + ch % 64)
            ∷ [])
  unfolding encode
  encode_four lo hi = ground (
    arith,
    bit_or-four_bytes (ch / 262144),
    bit_or-tail (ch / 4096 % 64),
    bit_or-tail (ch / 64 % 64),
    bit_or-tail (ch % 64),
  )

  encode_one : ch < 0x80 → encode ch ≡ some (ch ∷ [])
  unfolding encode
  encode_one h = ground arith

  -- For every code point up to 0x10ffff the encoder returns bytes, and these decode by the first
  -- byte to the code point whatever follows them.
  pub encode-Encodes : ch ≤ 0x10ffff → (t : Text) × (encode ch ≡ some t) × Encodes t
  encode-Encodes h = elim (dec_lt ch 0x80) [
    | yes one ↦ (_, encode_one one, record { bytes = omega arith; back = λ r. decode_one ch r one })
    | no one ↦ elim (dec_lt ch 0x800) [
      | yes two ↦ (
        _,
        encode_two (omega arith) two,
        record { bytes = omega arith; back = λ r. decode_two ch r (omega arith) two },
      )
      | no two ↦ elim (dec_lt ch 0x10000) [
        | yes three ↦ (
          _,
          encode_three (omega arith) three,
          record { bytes = omega arith; back = λ r. decode_three ch r (omega arith) three },
        )
        | no three ↦ (
          _,
          encode_four (omega arith) h,
          record { bytes = omega arith; back = λ r. decode_four ch r (omega arith) h },
        )
      ]
    ]
  ]

  -- Above the last code point the assertion fails.
  pub encode-above : 0x10ffff < ch → encode ch ≡ none
  unfolding encode
  encode-above h = ground arith

-- The rows of the table of RFC 3629.
pub utf8_char : ℕ → Text
utf8_char ch =
    if ltb ch 0x80
    then ch ∷ []
    else if ltb ch 0x800
    then (0xc0 + ch / 64) ∷ (0x80 + ch % 64) ∷ []
    else if ltb ch 0x10000
    then (0xe0 + ch / 4096) ∷ (0x80 + ch / 64 % 64) ∷ (0x80 + ch % 64) ∷ []
    else (0xf0 + ch / 262144)
      ∷ (0x80 + ch / 4096 % 64)
      ∷ (0x80 + ch / 64 % 64)
      ∷ (0x80 + ch % 64)
      ∷ []

pub encode-utf8_char : (ch : ℕ) → ch ≤ 0x10ffff → encode ch ≡ some (utf8_char ch)
unfolding utf8_char
encode-utf8_char ch h = elim (dec_lt ch 0x80) [
  | yes one ↦ rw (encode_one ch one) (ground arith)
  | no one ↦ elim (dec_lt ch 0x800) [
    | yes two ↦ rw (encode_two ch (omega arith) two) (ground arith)
    | no two ↦ elim (dec_lt ch 0x10000) [
      | yes three ↦ rw (encode_three ch (omega arith) three) (ground arith)
      | no three ↦ rw (encode_four ch (omega arith) h) (ground arith)
    ]
  ]
]

pub utf8_char-Encodes : (ch : ℕ) → ch ≤ 0x10ffff → Encodes ch (utf8_char ch)
utf8_char-Encodes ch h =
    let (t, encoded, e) = encode-Encodes ch h in
    let same : t ≡ utf8_char ch = same_text t (sym encoded ∙ encode-utf8_char ch h) in
    subst (Encodes ch) same e
  where
    same_text : (t : Text) → some t ≡ some (utf8_char ch) → t ≡ utf8_char ch
    same_text t e = cc

-- ===== src/Common/Numbers.antt =====
-- Numbers read from text, as strtol(3) and strtoul(3) read them.
use Prim.Native.Nat.{ℕ, zero, suc, ◌+◌, ◌-◌, ◌*◌, ◌/◌, ◌%◌, ◌^◌, ◌<◌, ◌≤◌}
use mathlib.Core.Bool.{Bool, true, false, ◌&&◌, ◌||◌}
use mathlib.Core.List.{[], ◌∷◌}
use mathlib.Core.Logic.{inl, inr}
use mathlib.Core.Option.{Option, none, some}
use mathlib.Core.Path.{◌≡◌, refl, sym, ◌∙◌, ap}
use native.Mathlib.Omega.{arith}
use pyflame.Common.Int.{ℤ, pos, negsuc}
use pyflame.Common.Lists.{All}
use pyflame.Common.Strings.{Text, decimal, digits_loop, digit}
use pyflame.Common.Tests.{◌==◌, ltb, leb, if◌then◌else◌, Bool-cases, ltb→lt, lt→ltb}

is_space : ℕ → Bool
is_space c = c == b' ' || (leb 9 c && leb c 13)

skip_space : Text → Text
skip_space [] = []
skip_space (c ∷ t) = if is_space c then skip_space t else c ∷ t

-- A sign, and the text behind it.
take_sign : Text → Bool × Text
take_sign [] = (false, [])
take_sign (c ∷ t) =
    if c == b'-' then (true, t) else if c == b'+' then (false, t) else (false, c ∷ t)

digit_value : ℕ → ℕ
digit_value c =
    if leb b'0' c && leb c b'9'
    then c - b'0'
    else if leb b'a' c && leb c b'f'
    then c - b'a' + 10
    else if leb b'A' c && leb c b'F'
    then c - b'A' + 10
    else 16

-- The number that the digits at the front of the text add to `acc`.
scan : ℕ → ℕ → Text → ℕ
scan base acc [] = acc
scan base acc (c ∷ t) =
    let rest = scan base (acc * base + digit_value c) t in
    if ltb (digit_value c) base then rest else acc

abbrev min_of : ℕ → ℕ → ℕ
min_of a b = if leb a b then a else b

-- `std::strtol(t, nullptr, 10)`, which stops at the ends of `long`; without digits it is 0.
pub strtol : Text → ℤ
unfolding skip_space is_space take_sign scan digit_value
strtol t =
    let s = take_sign (skip_space t) in
    let n = scan 10 0 s.1 in
    if s.0 && ltb 0 n then negsuc (min_of n (2 ^ 63) - 1) else pos (min_of n (2 ^ 63 - 1))

starts_with_digit : Text → Bool
starts_with_digit [] = false
starts_with_digit (c ∷ t) = ltb (digit_value c) 10

is_int : ℤ → Bool
is_int (pos n) = ltb n (2 ^ 31)
is_int (negsuc n) = ltb n (2 ^ 31)

-- `std::stoi(t)`, which throws without digits and out of the range of `int`.
unfoldable pub stoi : Text → Option ℤ
unfolding strtol skip_space take_sign starts_with_digit is_int
stoi t =
    if starts_with_digit (take_sign (skip_space t)).1 && is_int (strtol t)
    then some (strtol t)
    else none

-- `std::strtoul(t, nullptr, 16)`: an optional `0x`, and a negative number wraps around.
drop_0x : Text → Text
drop_0x (a ∷ b ∷ c ∷ t) =
    if a == b'0' && (b == b'x' || b == b'X') && ltb (digit_value c) 16 then c ∷ t else a ∷ b ∷ c ∷ t
drop_0x t = t

unfoldable pub strtoul_hex : Text → ℕ
unfolding skip_space is_space take_sign scan digit_value drop_0x
strtoul_hex t =
    let s = take_sign (skip_space t) in
    let n = scan 16 0 (drop_0x s.1) in
    if leb (2 ^ 64) n then 2 ^ 64 - 1 else if s.0 then (2 ^ 64 - n) % 2 ^ 64 else n

digit_value-digit : (d : ℕ) → d < 16 → digit_value (digit d) ≡ d
unfolding digit_value digit
digit_value-digit d h = ground arith

-- The digits of a number in a base are read back.
module _ (base : ℕ) (small : base ≤ 16) (div_lt : (n f : ℕ) → base ≤ n → n < suc f → n / base < f)
    (div_mod : (n : ℕ) → n / base * base + n % base ≡ n) (mod_lt : (n : ℕ) → n % base < base) where
  scan-digit :
      (acc d : ℕ) (t : Text) → d < base → scan base acc (digit d ∷ t) ≡ scan base (acc * base + d) t
  unfolding scan
  scan-digit acc d t h = rw (digit_value-digit d (omega arith), lt→ltb d base h) refl

  scan-digits_loop :
      (f n : ℕ) (t : Text) → n < f → scan base 0 (digits_loop base f n t) ≡ scan base n t
  unfolding digits_loop
  scan-digits_loop zero n t h = absurd (omega arith)
  scan-digits_loop (suc f) n t h = elim (Bool-cases (ltb n base)) [
    | inl less ↦
        rw less (scan-digit 0 n t (ltb→lt n base less) ∙ ap (λ m. scan base m t) (omega arith))
    | inr more ↦ rw more (
        scan-digits_loop f (n / base) (digit (n % base) ∷ t) (div_lt n f (ground arith) h)
        ∙ scan-digit (n / base) (n % base) t (mod_lt n)
        ∙ ap (λ m. scan base m t) (div_mod n))
  ]

-- The text begins with a digit.
StartsWithDigit : Text → Type 0
StartsWithDigit t = (d : ℕ) × (u : Text) × (d < 10) × (t ≡ digit d ∷ u)

digits_loop-StartsWithDigit : (f n : ℕ) (t : Text) → n < f → StartsWithDigit (digits_loop 10 f n t)
unfolding digits_loop StartsWithDigit
digits_loop-StartsWithDigit zero n t h = absurd (omega arith)
digits_loop-StartsWithDigit (suc f) n t h = elim (Bool-cases (ltb n 10)) [
  | inl small ↦ (n, t, ltb→lt n 10 small, rw small)
  | inr large ↦
      rw large (digits_loop-StartsWithDigit f (n / 10) (digit (n % 10) ∷ t) (ground arith))
]

take_sign-digit :
    (d : ℕ) (u : Text) → d < 10 → take_sign (skip_space (digit d ∷ u)) ≡ (false, digit d ∷ u)
unfolding take_sign skip_space is_space digit
take_sign-digit d u h = ground arith

take_sign-digits_loop :
    (n : ℕ)
    → take_sign (skip_space (digits_loop 10 (n + 1) n [])) ≡ (false, digits_loop 10 (n + 1) n [])
unfolding StartsWithDigit
take_sign-digits_loop n =
    let (d, u, lt, e) = digits_loop-StartsWithDigit (n + 1) n [] (omega arith) in
    ap (λ t. take_sign (skip_space t)) e
    ∙ take_sign-digit d u lt
    ∙ ap (λ (t : Text). (false, t)) (sym e)

-- A number below the end of `long` is read back from its decimal form.
pub strtol-decimal : (n : ℕ) → n < 2 ^ 63 → strtol (decimal n) ≡ pos n
unfolding strtol decimal scan
strtol-decimal n h =
    rw
      (
        take_sign-digits_loop n,
        scan-digits_loop 10 (omega arith) (λ n f h k. omega arith) (λ n. omega arith)
            (λ n. omega arith) (n + 1) n [] (omega arith),
      )
      (ground arith)

-- A hexadecimal digit.
abbrev pub IsDigit : ℕ → Type 0
IsDigit c = (d : ℕ) × (d < 16) × (c ≡ digit d)

pub digits_loop-IsDigit : (f n : ℕ) (t : Text) → All IsDigit t → All IsDigit (digits_loop 16 f n t)
unfolding digits_loop
digits_loop-IsDigit zero n t h = h
digits_loop-IsDigit (suc f) n t h = elim (Bool-cases (ltb n 16)) [
  | inl less ↦ rw less ((n, ltb→lt n 16 less, refl), h)
  | inr more ↦
      rw more (digits_loop-IsDigit f (n / 16) (digit (n % 16) ∷ t) ((n % 16, omega arith, refl), h))
]

take_sign-hex : (t : Text) → All IsDigit t → take_sign (skip_space t) ≡ (false, t)
unfolding take_sign skip_space is_space digit
take_sign-hex [] h = refl
take_sign-hex (c ∷ t) h = let (d, lt, e) = h.0 in ground (arith, e)

drop_0x-hex : (t : Text) → All IsDigit t → drop_0x t ≡ t
unfolding drop_0x digit
drop_0x-hex [] h = refl
drop_0x-hex (a ∷ []) h = refl
drop_0x-hex (a ∷ b ∷ []) h = refl
drop_0x-hex (a ∷ b ∷ c ∷ t) h = let (d, lt, e) = h.1.0 in ground (arith, e)

-- The hexadecimal form of a number.
pub hex : ℕ → Text
hex n = digits_loop 16 (n + 1) n []

pub hex-IsDigit : (n : ℕ) → All IsDigit (hex n)
unfolding hex
hex-IsDigit n = digits_loop-IsDigit (n + 1) n [] tt

scan-hex : (n : ℕ) → scan 16 0 (hex n) ≡ n
unfolding hex scan
scan-hex n =
    scan-digits_loop 16 (omega arith) (λ n f h k. omega arith) (λ n. omega arith) (λ n. omega arith)
      (n + 1) n [] (omega arith)

-- A number below the end of `unsigned long` is read back from its hexadecimal form.
pub strtoul_hex-hex : (n : ℕ) → n < 2 ^ 64 → strtoul_hex (hex n) ≡ n
unfolding strtoul_hex
strtoul_hex-hex n h =
    rw (take_sign-hex (hex n) (hex-IsDigit n), drop_0x-hex (hex n) (hex-IsDigit n), scan-hex n)
      (ground arith)

-- ===== src/Common/Strings.antt =====
-- Text as a list of bytes, and the decimal form in which a stream prints a number.
use Prim.Native.Char.{code}
use Prim.Native.Nat.{ℕ, zero, suc, ◌+◌, ◌-◌, ◌/◌, ◌%◌}
use Prim.Native.String.{String}
use mathlib.Core.Bool.{Bool, true, false, ◌&&◌}
use mathlib.Core.List.{List, [], ◌∷◌}
use mathlib.Core.Path.{◌≡◌, refl}
use native.Mathlib.Omega.{arith}
use pyflame.Common.Tests.{◌==◌, ltb, if◌then◌else◌}

abbrev pub Text : Type 0
Text = List ℕ

-- The bytes of an ASCII literal.
unfoldable pub codes : String → Text
codes String.[] = []
codes (String.◌∷◌ c s) = code c ∷ codes s

unfoldable pub digit : ℕ → ℕ
digit d = if ltb d 10 then b'0' + d else b'a' + d - 10

-- The digits of `n` before `acc`, on fuel above the number of digits.
unfoldable pub digits_loop : ℕ → ℕ → ℕ → Text → Text
digits_loop base zero n acc = acc
digits_loop base (suc f) n acc =
    let rest = digits_loop base f (n / base) (digit (n % base) ∷ acc) in
    if ltb n base then digit n ∷ acc else rest

unfoldable pub decimal : ℕ → Text
unfolding digits_loop digit
decimal n = digits_loop 10 (n + 1) n []

-- A stream's form of a `void *`.
unfoldable pub pointer : ℕ → Text
unfolding digits_loop digit
pointer n = if n == 0 then b'0' ∷ [] else b'0' ∷ b'x' ∷ digits_loop 16 (n + 1) n []

unfoldable pub text_eq : Text → Text → Bool
text_eq [] [] = true
text_eq [] (b ∷ t) = false
text_eq (a ∷ s) [] = false
text_eq (a ∷ s) (b ∷ t) = (a == b) && text_eq s t

-- Whether the first text starts the second.
unfoldable pub is_prefix : Text → Text → Bool
is_prefix [] t = true
is_prefix (a ∷ s) [] = false
is_prefix (a ∷ s) (b ∷ t) = if a == b then is_prefix s t else false

-- `t.find(s) != npos`
unfoldable pub contains : Text → Text → Bool
unfolding is_prefix
contains s [] = is_prefix s []
contains s (c ∷ t) = let rest = contains s t in if is_prefix s (c ∷ t) then true else rest

pub text_eq_refl : (s : Text) → text_eq s s ≡ true
unfolding text_eq
text_eq_refl [] = refl
text_eq_refl (a ∷ s) = ground (arith, text_eq_refl s)

pub text_eq→eq : (s t : Text) → text_eq s t ≡ true → s ≡ t
unfolding text_eq
text_eq→eq [] [] h = refl
text_eq→eq [] (b ∷ t) h = ground arith
text_eq→eq (a ∷ s) [] h = ground arith
text_eq→eq (a ∷ s) (b ∷ t) h = ground (arith, text_eq→eq s t)

-- ===== src/Aslr/Maps.antt =====
-- The text of /proc/PID/maps, as proc(5) documents it.
use pyflame.Common.{
  ℕ, Text, hex, hex-IsDigit, IsDigit, digit, false, List, [], ◌∷◌, ◌++◌, ◌≡◌, arith, All,
  All-append, ◌==◌,
}

-- A region of the address space: `fields` are the offset, the device and the inode, with the blanks
-- around them.
pub record Region : Type 0 where
  pub start : ℕ
  pub stop : ℕ
  pub perms : Text
  pub fields : Text
  pub path : Text

abbrev pub front : Region → Text
front r = b'-' ∷ hex r.stop ++ (b' ' ∷ r.perms ++ (b' ' ∷ r.fields))

abbrev pub print_region : Region → Text
print_region r = hex r.start ++ (front r ++ r.path)

abbrev pub print_maps : List Region → Text
print_maps [] = []
print_maps (r ∷ rs) = print_region r ++ (b'\n' ∷ print_maps rs)

abbrev pub Without : ℕ → Text → Type 0
Without c t = All (λ b. (b == c) ≡ false) t

pub All-map : {P Q : ℕ → Type 0} (t : Text) → ((c : ℕ) → P c → Q c) → All P t → All Q t
All-map [] f h = tt
All-map (c ∷ t) f h = (f c h.0, All-map t f h.1)

digit-punctuation :
    (c : ℕ)
    → IsDigit c
    → ((c == b'-') ≡ false) × ((c == b'/') ≡ false) × ((c == b'\n') ≡ false) × ((c == b' ') ≡ false)
unfolding digit
digit-punctuation c (d, lt, e) =
    (ground (arith, e), ground (arith, e), ground (arith, e), ground (arith, e))

pub hex-no_dash : (n : ℕ) → Without b'-' (hex n)
hex-no_dash n = All-map (hex n) (λ c h. (digit-punctuation c h).0) (hex-IsDigit n)

pub hex-no_slash : (n : ℕ) → Without b'/' (hex n)
hex-no_slash n = All-map (hex n) (λ c h. (digit-punctuation c h).1) (hex-IsDigit n)

pub hex-no_newline : (n : ℕ) → Without b'\n' (hex n)
hex-no_newline n = All-map (hex n) (λ c h. (digit-punctuation c h).2) (hex-IsDigit n)

pub hex-no_blank : (n : ℕ) → Without b' ' (hex n)
hex-no_blank n = All-map (hex n) (λ c h. (digit-punctuation c h).3) (hex-IsDigit n)

pub Without-append : (c : ℕ) (s t : Text) → Without c s → Without c t → Without c (s ++ t)
Without-append c = All-append (λ b. (b == c) ≡ false)

-- ===== src/Aslr/Mentions.antt =====
-- The lines of /proc/PID/maps that have the hint and ` r-xp ` in them are those of the executable
-- regions with the hint in the path.
use mathlib.Core.List.{append_assoc}
use pyflame.Aslr.Maps.{Region, front, print_region, Without, All-map, hex-no_blank, Without-append}
use pyflame.Common.{
  ℕ, ◌<◌, Text, codes, contains, is_prefix, text_eq, hex, hex-IsDigit, digit, Bool, true, false,
  ◌&&◌, [], ◌∷◌, ◌++◌, ◌≡◌, refl, ap, ◌∙◌, arith, ◌==◌, if◌then◌else◌, ◌⊎◌,
}

-- The test of LocateLibPython on a line.
abbrev pub mentions : Text → Text → Bool
mentions hint line = contains hint line && contains (codes " r-xp ") line

-- An executable region that is not writable, with the hint in its path.
abbrev pub is_wanted : Text → Region → Bool
is_wanted hint r = contains hint r.path && text_eq r.perms (codes "r-xp")

-- The hint cannot begin before the path: its first character is none of those that stand there.
pub record StartsInPath (hint : Text) (r : Region) : Type 0 where
  pub first : ℕ
  pub others : Text
  pub is_hint : hint ≡ first ∷ others
  pub no_digit : (first < b'0') ⊎ (b'f' < first)
  pub no_dash : (b'-' == first) ≡ false
  pub no_blank : (b' ' == first) ≡ false
  pub not_in_perms : Without first r.perms
  pub not_in_fields : Without first r.fields

-- A text whose first character does not occur in `s` begins behind `s`.
contains-behind :
    (c : ℕ) (h s t : Text) → Without c s → contains (c ∷ h) (s ++ t) ≡ contains (c ∷ h) t
unfolding contains is_prefix
contains-behind c h [] t w = refl
contains-behind c h (b ∷ s) t w = ground (arith, w.0, contains-behind c h s t w.1)

-- A word of a text is what stands before the next blank.
is_prefix-word :
    (q perms rest : Text)
    → Without b' ' q
    → Without b' ' perms
    → is_prefix (q ++ (b' ' ∷ [])) (perms ++ (b' ' ∷ rest)) ≡ text_eq perms q
unfolding is_prefix text_eq
is_prefix-word [] [] rest wq wp = ground arith
is_prefix-word [] (p ∷ ps) rest wq wp = ground arith
is_prefix-word (c ∷ q) [] rest wq wp = ground arith
is_prefix-word (c ∷ q) (p ∷ ps) rest wq wp = ground (arith, is_prefix-word q ps rest wq.1 wp.1)

hex-Without : (c n : ℕ) → (c < b'0') ⊎ (b'f' < c) → Without c (hex n)
unfolding digit
hex-Without c n out =
    All-map (hex n) (λ b h. let (d, lt, e) = h in ground (arith, e)) (hex-IsDigit n)

contains-path :
    (hint : Text) (r : Region)
    → StartsInPath hint r
    → contains hint (print_region r) ≡ contains hint r.path
contains-path hint r h = rw h.is_hint (
    contains-behind h.first h.others (hex r.start) (front r ++ r.path)
      (hex-Without h.first r.start h.no_digit)
    ∙ contains-behind h.first h.others (front r) r.path (
      h.no_dash,
      Without-append h.first (hex r.stop) _ (hex-Without h.first r.stop h.no_digit) (
        h.no_blank,
        Without-append h.first r.perms _ h.not_in_perms (h.no_blank, h.not_in_fields),
      ),
    ))

if_not_else : (a b c : Bool) → a ≡ c → b ≡ false → (if a then true else b) ≡ c
if_not_else a b c e n = ground arith

contains-word :
    (perms rest : Text)
    → Without b' ' perms
    → contains (codes " r-xp ") (b' ' ∷ rest) ≡ false
    → contains (codes " r-xp ") (b' ' ∷ (perms ++ (b' ' ∷ rest))) ≡ text_eq perms (codes "r-xp")
unfolding contains is_prefix codes
contains-word perms rest w h =
    let word : is_prefix (codes "r-xp ") (perms ++ (b' ' ∷ rest)) ≡ text_eq perms (codes "r-xp") =
      is_prefix-word (codes "r-xp") perms rest (refl, (refl, (refl, (refl, tt)))) w in
    let behind = contains-behind b' ' (codes "r-xp ") perms (b' ' ∷ rest) w ∙ h in
    if_not_else _ _ _ word behind

contains-perms :
    (r : Region)
    → Without b' ' r.perms
    → contains (codes " r-xp ") (b' ' ∷ (r.fields ++ r.path)) ≡ false
    → contains (codes " r-xp ") (print_region r) ≡ text_eq r.perms (codes "r-xp")
unfolding codes
contains-perms r w h =
    contains-behind b' ' (codes "r-xp ") (hex r.start) (front r ++ r.path) (hex-no_blank r.start)
    ∙ ap (λ t. contains (codes " r-xp ") (b'-' ∷ t))
        (append_assoc (hex r.stop) (b' ' ∷ (r.perms ++ (b' ' ∷ r.fields))) r.path)
    ∙ contains-behind b' ' (codes "r-xp ") (b'-' ∷ hex r.stop)
        (b' ' ∷ ((r.perms ++ (b' ' ∷ r.fields)) ++ r.path)) (refl, hex-no_blank r.stop)
    ∙ ap (λ t. contains (codes " r-xp ") (b' ' ∷ t)) (append_assoc r.perms (b' ' ∷ r.fields) r.path)
    ∙ contains-word r.perms (r.fields ++ r.path) w h

-- The lines that LocateLibPython takes are those of the regions that are wanted.
pub mentions-is_wanted :
    (hint : Text) (r : Region)
    → StartsInPath hint r
    → Without b' ' r.perms
    → contains (codes " r-xp ") (b' ' ∷ (r.fields ++ r.path)) ≡ false
    → mentions hint (print_region r) ≡ is_wanted hint r
mentions-is_wanted hint r h w once = rw (contains-path hint r h, contains-perms r w once)

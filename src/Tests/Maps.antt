-- ===== src/Tests/Maps.antt =====
-- The search for a library in the address space of a small process.
use pyflame.Aslr.Maps.{Region, Without, print_maps}
use pyflame.Aslr.Regions.{IsRegion, first_region, locate_lib_python-regions}
use pyflame.Aslr.{locate_lib_python}
use pyflame.Common.Int.{pos}
use pyflame.Common.{
  All, ℕ, ◌^◌, ◌<◌, Text, codes, Bool, true, false, List, [], ◌∷◌, ◌≡◌, refl, arith, ltb→lt, ◌==◌,
  if◌then◌else◌, ◌++◌, ◌⊎◌, inl, inr, contains,
}
use pyflame.Exc.{ok}
use pyflame.Posix.{Files}
use pyflame.Tests.Executable.{static, start}

without : ℕ → Text → Bool
without c [] = true
without c (b ∷ t) = if b == c then false else without c t

without-Without : (c : ℕ) (t : Text) → without c t ≡ true → Without c t
unfolding without
without-Without c [] h = tt
without-Without c (b ∷ t) h = (ground arith, without-Without c t (ground arith))

abbrev pub regions : List Region
regions =
    record {
      start = 0x400000;
      stop = 0x600000;
      perms = codes "r-xp";
      fields = codes "00000000 08:01 7   ";
      path = codes "/usr/bin/python";
    }
    ∷ record {
      start = 0x7f2a40000000;
      stop = 0x7f2a40200000;
      perms = codes "r-xp";
      fields = codes "00001000 08:01 9   ";
      path = codes "/usr/lib/libpython2.7.so.1.0";
    }
    ∷ []

abbrev pub hint : Text
hint = codes "libpython2.7.so"

-- Names that begin with a character of no blank, number or permission.
record IsName (c : ℕ) : Type 0 where
  pub no_digit : (c < b'0') ⊎ (b'f' < c)
  pub no_dash : (b'-' == c) ≡ false
  pub no_blank : (b' ' == c) ≡ false
  pub perms : without c (codes "r-xp") ≡ true

executable-IsRegion :
    (c : ℕ) (others : Text) (low high : ℕ) (fields rest : Text)
    → IsName c
    → without c fields ≡ true
    → low < 2 ^ 64
    → without b'/' fields ≡ true
    → without b'\n' fields ≡ true
    → without b'\n' rest ≡ true
    → contains (codes " r-xp ") (b' ' ∷ (fields ++ (b'/' ∷ rest))) ≡ false
    → IsRegion (c ∷ others) (record {
      start = low;
      stop = high;
      perms = codes "r-xp";
      fields = fields;
      path = b'/' ∷ rest;
    })
unfolding without codes
executable-IsRegion c others low high fields rest n f h i j k once = record {
  start_lt = h;
  perms_no_slash = without-Without b'/' (codes "r-xp") refl;
  fields_no_slash = without-Without b'/' fields i;
  perms_no_newline = without-Without b'\n' (codes "r-xp") refl;
  fields_no_newline = without-Without b'\n' fields j;
  path_no_newline = (refl, without-Without b'\n' rest k);
  perms_no_blank = without-Without b' ' (codes "r-xp") refl;
  perms_once = once;
  hint_in_path = record {
    first = c;
    others = others;
    is_hint = refl;
    no_digit = n.no_digit;
    no_dash = n.no_dash;
    no_blank = n.no_blank;
    not_in_perms = without-Without c (codes "r-xp") n.perms;
    not_in_fields = without-Without c fields f;
  };
  absolute = λ _. (rest, refl);
}

abbrev pub mapped : Files ℕ
mapped = record static { read_file = λ path w. (print_maps regions, w) }

regions-IsRegion :
    (c : ℕ) (others : Text)
    → IsName c
    → without c (codes "00000000 08:01 7   ") ≡ true
    → without c (codes "00001000 08:01 9   ") ≡ true
    → All (IsRegion (c ∷ others)) regions
unfolding without codes contains
regions-IsRegion c others n f g = (
  executable-IsRegion c others 0x400000 0x600000 (codes "00000000 08:01 7   ")
      (codes "usr/bin/python") n f (ltb→lt 0x400000 (2 ^ 64) refl) refl refl refl refl,
  (
    executable-IsRegion c others 0x7f2a40000000 0x7f2a40200000 (codes "00001000 08:01 9   ")
        (codes "usr/lib/libpython2.7.so.1.0") n g (ltb→lt 0x7f2a40000000 (2 ^ 64) refl) refl refl
        refl refl,
    tt,
  ),
)

-- Names of libraries, and absolute paths.
pub lib-IsRegion : All (IsRegion hint) regions
unfolding without codes
lib-IsRegion =
    regions-IsRegion b'l' (codes "ibpython2.7.so")
      (record {
        no_digit = inr (ltb→lt b'f' b'l' refl);
        no_dash = refl;
        no_blank = refl;
        perms = refl;
      })
      refl refl

pub exe-IsRegion : All (IsRegion (codes "/usr/bin/python")) regions
unfolding without codes
exe-IsRegion =
    regions-IsRegion b'/' (codes "usr/bin/python")
      (record {
        no_digit = inl (ltb→lt b'/' b'0' refl);
        no_dash = refl;
        no_blank = refl;
        perms = refl;
      })
      refl refl

locate_lib_python-regions_example :
    locate_lib_python mapped (pos 2) hint start ≡ ok (first_region hint regions) start
locate_lib_python-regions_example =
    locate_lib_python-regions mapped (pos 2) hint regions start refl lib-IsRegion

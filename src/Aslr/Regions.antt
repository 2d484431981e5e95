-- ===== src/Aslr/Regions.antt =====
-- LocateLibPython on the lines that proc(5) documents for /proc/PID/maps.
use pyflame.Aslr.Maps.{
  Region, front, print_region, print_maps, Without, hex-no_dash, hex-no_slash, hex-no_newline,
  Without-append,
}
use pyflame.Aslr.Mentions.{is_wanted, StartsInPath, mentions-is_wanted}
use pyflame.Aslr.{
  lines, suffix_from, prefix_to, maps_path, locate_in, locate_loop, locate_lib_python,
}
use pyflame.Common.{
  ℕ, ◌<◌, ◌^◌, Text, codes, contains, hex, strtoul_hex, strtoul_hex-hex, true, false, some, List,
  [], ◌∷◌, ◌++◌, ◌≡◌, refl, sym, ap, ◌∙◌, All, ◌==◌, if◌then◌else◌, Bool-cases, inl, inr,
}
use mathlib.Core.List.{append_assoc}
use pyflame.Exc.{State, ok}
use pyflame.Os.{Pid}
use pyflame.Posix.{Files}

-- The start and the path of the first region that is looked for.
abbrev pub first_region : Text → List Region → ℕ × Text
first_region hint [] = (0, [])
first_region hint (r ∷ rs) =
    let rest = first_region hint rs in if is_wanted hint r then (r.start, r.path) else rest

-- What proc(5) says of a line: no slash before the path, no newline, and permissions without a blank;
-- the permissions of an executable region are not repeated behind them, and the hint cannot begin
-- before the path, which is absolute where it is looked for.
pub record IsRegion (hint : Text) (r : Region) : Type 0 where
  pub start_lt : r.start < 2 ^ 64
  pub perms_no_slash : Without b'/' r.perms
  pub fields_no_slash : Without b'/' r.fields
  pub perms_no_newline : Without b'\n' r.perms
  pub fields_no_newline : Without b'\n' r.fields
  pub path_no_newline : Without b'\n' r.path
  pub perms_no_blank : Without b' ' r.perms
  pub perms_once : contains (codes " r-xp ") (b' ' ∷ (r.fields ++ r.path)) ≡ false
  pub hint_in_path : StartsInPath hint r
  pub absolute : is_wanted hint r ≡ true → (t : Text) × (r.path ≡ b'/' ∷ t)

suffix_from-append :
    (c : ℕ) (s t : Text)
    → (c == c) ≡ true
    → Without c s
    → suffix_from c (s ++ (c ∷ t)) ≡ some (c ∷ t)
unfolding suffix_from
suffix_from-append c [] t e h = rw e refl
suffix_from-append c (b ∷ s) t e h = rw h.0 (suffix_from-append c s t e h.1)

prefix_to-append :
    (c : ℕ) (s t : Text) → (c == c) ≡ true → Without c s → prefix_to c (s ++ (c ∷ t)) ≡ some s
unfolding prefix_to
prefix_to-append c [] t e h = rw e refl
prefix_to-append c (b ∷ s) t e h = rw (h.0, prefix_to-append c s t e h.1) refl

lines-append : (s t : Text) → Without b'\n' s → lines (s ++ (b'\n' ∷ t)) ≡ s ∷ lines t
unfolding lines
lines-append [] t h = refl
lines-append (c ∷ s) t h = rw (h.0, lines-append s t h.1) refl

locate_in-line :
    {W : Type 0} (line path start : Text) (s : State W)
    → suffix_from b'/' line ≡ some path
    → prefix_to b'-' line ≡ some start
    → locate_in line s ≡ ok (strtoul_hex start, path) s
unfolding locate_in
locate_in-line line path start s h i = rw (h, i, locate_in) refl

module _ (hint : Text) (r : Region) (held : IsRegion hint r) where
  region-no_newline : Without b'\n' (print_region r)
  region-no_newline =
      Without-append b'\n' (hex r.start) (front r ++ r.path) (hex-no_newline r.start) (
        Without-append b'\n' (front r) r.path
          (
            refl,
            Without-append b'\n' (hex r.stop) _ (hex-no_newline r.stop) (
              refl,
              Without-append b'\n' r.perms _ held.perms_no_newline (refl, held.fields_no_newline),
            ),
          )
          held.path_no_newline)

  front-no_slash : Without b'/' (hex r.start ++ front r)
  front-no_slash = Without-append b'/' (hex r.start) (front r) (hex-no_slash r.start) (
    refl,
    Without-append b'/' (hex r.stop) _ (hex-no_slash r.stop)
        (refl, Without-append b'/' r.perms _ held.perms_no_slash (refl, held.fields_no_slash)),
  )

  region-path : (t : Text) → r.path ≡ b'/' ∷ t → suffix_from b'/' (print_region r) ≡ some r.path
  region-path t e =
      ap (suffix_from b'/') (
        sym (append_assoc (hex r.start) (front r) r.path)
        ∙ ap (λ u. (hex r.start ++ front r) ++ u) e)
      ∙ suffix_from-append b'/' (hex r.start ++ front r) t refl front-no_slash
      ∙ ap some (sym e)

  region-start : prefix_to b'-' (print_region r) ≡ some (hex r.start)
  region-start = prefix_to-append b'-' (hex r.start) _ refl (hex-no_dash r.start)

  -- The line gives back the start of the region and the path.
  locate_in-region :
      {W : Type 0} (s : State W)
      → is_wanted hint r ≡ true
      → locate_in (print_region r) s ≡ ok (r.start, r.path) s
  locate_in-region s h =
      let (t, e) = held.absolute h in
      locate_in-line (print_region r) r.path (hex r.start) s (region-path t e) region-start
      ∙ ap (λ n. ok (n, r.path) s) (strtoul_hex-hex r.start held.start_lt)

locate_loop-regions :
    {W : Type 0} (hint : Text) (rs : List Region) (s : State W)
    → All (IsRegion hint) rs
    → locate_loop hint (lines (print_maps rs)) s ≡ ok (first_region hint rs) s
unfolding locate_loop lines
locate_loop-regions hint [] s h = refl
locate_loop-regions hint (r ∷ rs) s h =
    rw (lines-append (print_region r) (print_maps rs) (region-no_newline hint r h.0)) (
      rw (mentions-is_wanted hint r h.0.hint_in_path h.0.perms_no_blank h.0.perms_once)
        (elim (Bool-cases (is_wanted hint r)) [
          | inl e ↦ rw e (locate_in-region hint r h.0 s e)
          | inr e ↦ rw e (locate_loop-regions hint rs s h.1)
        ]))

module _ {W : Type 0} (files : Files W) where
  -- On a text of /proc/PID/maps printed from regions as proc(5) describes them, whose starts are
  -- below 2 ^ 64, without a newline, a slash before the path or a blank in the permissions, where `
  -- r-xp ` does not occur behind the permissions, the hint begins with a character that does not
  -- occur before the path, and the regions that are looked for have an absolute path,
  -- LocateLibPython returns the start and the path of the first region with the permissions `r-xp`
  -- and the hint in its path, and 0 with an empty path if there is none.
  pub locate_lib_python-regions :
      (pid : Pid) (hint : Text) (rs : List Region) (s : State W)
      → (files.read_file (maps_path pid) s.world).0 ≡ print_maps rs
      → All (IsRegion hint) rs
      → locate_lib_python files pid hint s
        ≡ ok
            (first_region hint rs)
            (record s { world = (files.read_file (maps_path pid) s.world).1 })
  unfolding locate_lib_python
  locate_lib_python-regions pid hint rs s e h = rw e (locate_loop-regions hint rs _ h)

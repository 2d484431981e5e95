-- ===== src/Frob/Lines/Table.antt =====
-- What the loop over `co_lnotab` computes: the table as pairs of steps, summed without a `break`.
use pyflame.Common.{
  ℕ, ◌+◌, ◌*◌, ◌^◌, ◌<◌, some, List, [], ◌∷◌, ◌++◌, ◌≡◌, refl, arith, leb, if◌then◌else◌, length,
  All,
}
use pyflame.Frob.Lines.{int_add, line_loop}

-- The steps of address and line, and the bytes that hold them.
abbrev pub Steps : Type 0
Steps = List (ℕ × ℕ)

abbrev pub flat : Steps → List ℕ
flat [] = []
flat ((da, dl) ∷ es) = da ∷ dl ∷ flat es

abbrev pub SmallSteps : Steps → Type 0
SmallSteps es = All (λ (e : ℕ × ℕ). (e.0 < 256) × (e.1 < 256)) es

-- The line steps at those addresses that do not pass `f_lasti`.
unfoldable pub lines_until : ℕ → ℕ → Steps → ℕ
lines_until f_lasti addr [] = 0
lines_until f_lasti addr ((da, dl) ∷ es) =
    (if leb (addr + da) f_lasti then dl else 0) + lines_until f_lasti (addr + da) es

lines_until-past :
    (f_lasti addr : ℕ) (es : Steps) → f_lasti < addr → lines_until f_lasti addr es ≡ 0
unfolding lines_until
lines_until-past f_lasti addr [] h = refl
lines_until-past f_lasti addr ((da, dl) ∷ es) h =
    ground (arith, lines_until-past f_lasti (addr + da) es)

-- For a table of steps below 256 that keeps the address and the line in the range of `int`, the
-- loop over `co_lnotab` returns the first line and the line steps at all addresses up to `f_lasti`,
-- whatever follows the table in the buffer.
pub line_loop-lines_until :
    (es : Steps) (rest : List ℕ) (addr line f_lasti : ℕ)
    → SmallSteps es
    → addr + 255 * length es < 2 ^ 31
    → line + 255 * length es < 2 ^ 31
    → line_loop (length es) (flat es ++ rest) addr line f_lasti
      ≡ some (line + lines_until f_lasti addr es)
unfolding line_loop lines_until int_add
line_loop-lines_until [] rest addr line f_lasti small fa fl = ground arith
line_loop-lines_until ((da, dl) ∷ es) rest addr line f_lasti small fa fl = ground (
  arith,
  lines_until-past f_lasti (addr + da) es,
  line_loop-lines_until es rest (addr + da) (line + dl) f_lasti small.1,
)

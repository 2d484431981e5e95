-- ===== src/Prober/Report/Buckets.antt =====
-- The buckets count the stacks: no two hold equal stacks, and each stack is counted as often as it
-- was sampled.
use pyflame.Common.{
  ℕ, ◌+◌, true, false, List, [], ◌∷◌, All, ◌≡◌, sym, ◌∙◌, arith, if◌then◌else◌, eq_of_iff,
  Bool-cases, inl, inr,
}
use pyflame.Frame.Equality.{frames_eq_iff}
use pyflame.Frame.{Frames, frames_eq}
use pyflame.Prober.Report.{FrameTs, Buckets, count_stack, fill_buckets}

-- The counts of the buckets that equal `q`, and the samples that do.
pub counted : Frames → Buckets → ℕ
counted q [] = 0
counted q ((key, n) ∷ buckets) = (if frames_eq key q then n else 0) + counted q buckets

pub sampled : Frames → List FrameTs → ℕ
sampled q [] = 0
sampled q (c ∷ call_stacks) = (if frames_eq c.frames q then 1 else 0) + sampled q call_stacks

-- No two buckets hold equal stacks.
abbrev pub IsFresh : Frames → Buckets → Type 0
IsFresh key buckets = All (λ (b : Frames × ℕ). frames_eq b.0 key ≡ false) buckets

abbrev pub IsDistinct : Buckets → Type 0
IsDistinct [] = Unit
IsDistinct ((key, n) ∷ buckets) = IsFresh key buckets × IsDistinct buckets

frames_eq_congr : (a b q : Frames) → frames_eq a b ≡ true → frames_eq a q ≡ frames_eq b q
frames_eq_congr a b q e =
    let same = (frames_eq_iff a b).0 e in
    eq_of_iff (frames_eq a q) (frames_eq b q)
      (λ h. (frames_eq_iff b q).1 (sym same ∙ (frames_eq_iff a q).0 h))
      (λ h. (frames_eq_iff a q).1 (same ∙ (frames_eq_iff b q).0 h))

counted-count_stack :
    (q fs : Frames) (buckets : Buckets)
    → counted q (count_stack fs buckets) ≡ (if frames_eq fs q then 1 else 0) + counted q buckets
unfolding counted count_stack
counted-count_stack q fs [] = ground arith
counted-count_stack q fs ((key, n) ∷ buckets) =
    ground (arith, counted-count_stack q fs buckets, frames_eq_congr key fs q)

counted-fill_buckets :
    (q : Frames) (buckets : Buckets) (call_stacks : List FrameTs)
    → counted q (fill_buckets buckets call_stacks) ≡ counted q buckets + sampled q call_stacks
unfolding fill_buckets sampled
counted-fill_buckets q buckets [] = omega arith
counted-fill_buckets q buckets (c ∷ call_stacks) = omega (
  arith,
  counted-fill_buckets q (count_stack c.frames buckets) call_stacks,
  counted-count_stack q c.frames buckets,
)

-- A stack that equals no key stays apart from the keys that are added for another.
IsFresh-count_stack :
    (key fs : Frames) (buckets : Buckets)
    → IsFresh key buckets
    → frames_eq fs key ≡ false
    → IsFresh key (count_stack fs buckets)
unfolding count_stack
IsFresh-count_stack key fs [] h ne = (ne, tt)
IsFresh-count_stack key fs ((k, n) ∷ buckets) h ne = elim (Bool-cases (frames_eq k fs)) [
  | inl e ↦ rw e h
  | inr e ↦ rw e (h.0, IsFresh-count_stack key fs buckets h.1 ne)
]

frames_eq_flip : (a b : Frames) → frames_eq a b ≡ false → frames_eq b a ≡ false
frames_eq_flip a b e =
    sym (
      eq_of_iff (frames_eq a b) (frames_eq b a)
        (λ h. (frames_eq_iff b a).1 (sym ((frames_eq_iff a b).0 h)))
        (λ h. (frames_eq_iff a b).1 (sym ((frames_eq_iff b a).0 h))))
    ∙ e

IsDistinct-count_stack :
    (fs : Frames) (buckets : Buckets) → IsDistinct buckets → IsDistinct (count_stack fs buckets)
unfolding count_stack
IsDistinct-count_stack fs [] d = (tt, tt)
IsDistinct-count_stack fs ((k, n) ∷ buckets) d = elim (Bool-cases (frames_eq k fs)) [
  | inl e ↦ rw e d
  | inr e ↦ rw e (
    IsFresh-count_stack k fs buckets d.0 (frames_eq_flip k fs e),
    IsDistinct-count_stack fs buckets d.1,
  )
]

IsDistinct-fill_buckets :
    (buckets : Buckets) (call_stacks : List FrameTs)
    → IsDistinct buckets
    → IsDistinct (fill_buckets buckets call_stacks)
unfolding fill_buckets
IsDistinct-fill_buckets buckets [] d = d
IsDistinct-fill_buckets buckets (c ∷ call_stacks) d =
    IsDistinct-fill_buckets (count_stack c.frames buckets) call_stacks
      (IsDistinct-count_stack c.frames buckets d)

-- For every list of samples, no two buckets hold equal stacks, and the counts of the buckets that
-- equal a stack sum up to the number of samples that equal it.
pub fill_buckets-sampled :
    (call_stacks : List FrameTs)
    → IsDistinct (fill_buckets [] call_stacks)
      × ((q : Frames) → counted q (fill_buckets [] call_stacks) ≡ sampled q call_stacks)
fill_buckets-sampled call_stacks = (
  IsDistinct-fill_buckets [] call_stacks tt,
  λ q. counted-fill_buckets q [] call_stacks ∙ (unfold counted in omega arith),
)

-- The keys are stacks that were sampled.
abbrev pub HasFrames : Frames → Type 0
HasFrames [] = ⊥
HasFrames (f ∷ fs) = Unit

abbrev pub AreFull : Buckets → Type 0
AreFull buckets = All (λ (b : Frames × ℕ). HasFrames b.0) buckets

AreFull-count_stack :
    (fs : Frames) (buckets : Buckets)
    → HasFrames fs
    → AreFull buckets
    → AreFull (count_stack fs buckets)
unfolding count_stack
AreFull-count_stack fs [] h full = (h, tt)
AreFull-count_stack fs ((k, n) ∷ buckets) h full = elim (Bool-cases (frames_eq k fs)) [
  | inl e ↦ rw e full
  | inr e ↦ rw e (full.0, AreFull-count_stack fs buckets h full.1)
]

pub AreFull-fill_buckets :
    (buckets : Buckets) (call_stacks : List FrameTs)
    → AreFull buckets
    → All (λ (c : FrameTs). HasFrames c.frames) call_stacks
    → AreFull (fill_buckets buckets call_stacks)
unfolding fill_buckets
AreFull-fill_buckets buckets [] full h = full
AreFull-fill_buckets buckets (c ∷ call_stacks) full h =
    AreFull-fill_buckets (count_stack c.frames buckets) call_stacks
      (AreFull-count_stack c.frames buckets h.0 full) h.1

-- ===== src/Frame/Equality.antt =====
-- The equality and the hash of stacks, by which `std::unordered_map` tells buckets apart.
use Prim.Native.Nat.{bit_xor}
use pyflame.Common.{
  List, map, ℕ, ◌+◌, Text, text_eq_refl, text_eq→eq, true, [], ◌∷◌, ◌≡◌, refl, ap, ◌∙◌, ◌↔◌, arith,
}
use pyflame.Frame.{Frame, Frames, frame_eq, frames_eq, StdHash, hash_from, frame_hash}

frame_eq_iff : (a b : Frame) → (frame_eq a b ≡ true) ↔ ((a.file ≡ b.file) × (a.line ≡ b.line))
unfolding frame_eq
frame_eq_iff a b = (
  λ h. (text_eq→eq a.file b.file (ground arith), ground arith),
  λ (f, l). rw (f, l, text_eq_refl b.file) (ground arith),
)

-- What two equal stacks share: the files and the lines, frame by frame.
abbrev pub places : Frames → List (Text × ℕ)
places fs = map (λ f. (f.file, f.line)) fs

places_of_eq : (xs ys : Frames) → frames_eq xs ys ≡ true → places xs ≡ places ys
unfolding frames_eq
places_of_eq [] [] h = refl
places_of_eq [] (y ∷ ys) h = ground arith
places_of_eq (x ∷ xs) [] h = ground arith
places_of_eq (x ∷ xs) (y ∷ ys) h =
    let (f, l) = (frame_eq_iff x y).0 (ground arith) in
    let rest = places_of_eq xs ys (ground arith) in λ i. (f i, l i) ∷ rest i

eq_of_places : (xs ys : Frames) → places xs ≡ places ys → frames_eq xs ys ≡ true
unfolding frames_eq
eq_of_places [] [] h = refl
eq_of_places [] (y ∷ ys) h = cc
eq_of_places (x ∷ xs) [] h = cc
eq_of_places (x ∷ xs) (y ∷ ys) h =
    let f : x.file ≡ y.file = cc in
    let l : x.line ≡ y.line = cc in rw ((frame_eq_iff x y).1 (f, l)) (eq_of_places xs ys (cc))

-- For all stacks, `operator==` holds exactly when the files and the lines agree, frame by frame.
pub frames_eq_iff : (xs ys : Frames) → (frames_eq xs ys ≡ true) ↔ (places xs ≡ places ys)
frames_eq_iff xs ys = (places_of_eq xs ys, eq_of_places xs ys)

-- Equal stacks have one hash, as `std::unordered_map` requires.
hash_from-eq :
    (std : StdHash) (hash i : ℕ) (xs ys : Frames)
    → frames_eq xs ys ≡ true
    → hash_from std hash i xs ≡ hash_from std hash i ys
unfolding frames_eq hash_from
hash_from-eq std hash i [] [] h = refl
hash_from-eq std hash i [] (y ∷ ys) h = ground arith
hash_from-eq std hash i (x ∷ xs) [] h = ground arith
hash_from-eq std hash i (x ∷ xs) (y ∷ ys) h =
    ap (λ t. hash_from std (bit_xor (bit_xor hash (std.hash_size i)) (std.hash_text t)) (i + 1) xs)
      ((frame_eq_iff x y).0 (ground arith)).0
    ∙ hash_from-eq std (bit_xor (bit_xor hash (std.hash_size i)) (std.hash_text y.file)) (i + 1) xs
        ys (ground arith)

-- For every `std::hash`, equal stacks have one hash, as `std::unordered_map` requires of FrameHash.
pub frame_hash-eq :
    (std : StdHash) (xs ys : Frames)
    → frames_eq xs ys ≡ true
    → frame_hash std xs ≡ frame_hash std ys
unfolding frame_hash
frame_hash-eq std xs ys h = hash_from-eq std 0 0 xs ys h

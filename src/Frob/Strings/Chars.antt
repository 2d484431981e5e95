-- ===== src/Frob/Strings/Chars.antt =====
-- The loop over the characters of a compact string encodes each of them, in order.
use pyflame.Common.{
  ℕ, zero, suc, ◌+◌, ◌*◌, ◌/◌, ◌%◌, ◌^◌, ◌≤◌, ◌<◌, Text, some, List, [], ◌∷◌, ◌++◌, true, false,
  ◌≡◌, refl, sym, ap, ◌∙◌, arith, lt→ltb, length, length-append, get_elem?, All, ltb, leb,
}
use mathlib.Core.List.{append_assoc, append-nil}
use native.Mathlib.Nat.{pow-suc}
use pyflame.Frob.Strings.{number_at, char_at, encode_at, encode_loop}
use pyflame.Frob.Utf8.{encode}
use pyflame.Frob.Utf8.Decode.{utf8_char, encode-utf8_char}
use pyflame.Ptrace.{le_bytes}

-- The characters `cs` in `kind` bytes each.
abbrev pub packed : ℕ → List ℕ → List ℕ
packed kind [] = []
packed kind (c ∷ cs) = le_bytes kind c ++ packed kind cs

-- The UTF-8 form of code points.
unfoldable pub utf8 : List ℕ → Text
utf8 [] = []
utf8 (c ∷ cs) = utf8_char c ++ utf8 cs

get_elem?-past : (xs ys : List ℕ) (x i : ℕ) → length xs ≡ i → get_elem? (xs ++ (x ∷ ys)) i ≡ some x
get_elem?-past [] ys x zero e = refl
get_elem?-past [] ys x (suc i) e = absurd (omega arith)
get_elem?-past (y ∷ xs) ys x zero e = absurd (omega arith)
get_elem?-past (y ∷ xs) ys x (suc i) e = get_elem?-past xs ys x i (omega arith)

-- A number is read back where its bytes stand.
number_at-le_bytes :
    (n c : ℕ) (front rest : List ℕ) (i : ℕ)
    → length front ≡ i
    → c < 256 ^ n
    → number_at n (front ++ (le_bytes n c ++ rest)) i ≡ some c
unfolding number_at le_bytes
number_at-le_bytes zero c front rest i e h = ap some (omega arith)
number_at-le_bytes (suc n) c front rest i e h =
    let tail = le_bytes n (c / 256) ++ rest in
    let more : number_at n (front ++ ((c % 256) ∷ tail)) (i + 1) ≡ some (c / 256) =
      ap (λ b. number_at n b (i + 1)) (sym (append_assoc front ((c % 256) ∷ []) tail))
      ∙ number_at-le_bytes n (c / 256) (front ++ ((c % 256) ∷ [])) rest (i + 1)
          (omega (arith, length-append front ((c % 256) ∷ []))) (omega (arith, pow-suc 256 n)) in
    rw (get_elem?-past front tail (c % 256) i e, more, number_at) (ap some (omega arith))

length-le_bytes : (n c : ℕ) → length (le_bytes n c) ≡ n
unfolding le_bytes
length-le_bytes zero c = refl
length-le_bytes (suc n) c = ap suc (length-le_bytes n (c / 256))

-- The kinds that CPython gives to a compact string, and the characters that each one holds.
pub data IsKind : ℕ → Type 0 where
  one_byte : IsKind 1
  two_bytes : IsKind 2
  four_bytes : IsKind 4

abbrev pub AreChars : ℕ → List ℕ → Type 0
AreChars kind cs = All (λ c. (c < 256 ^ kind) × (c ≤ 0x10ffff)) cs

char_at-number_at :
    {kind : ℕ}
    → IsKind kind
    → (bytes : List ℕ) (i : ℕ) → char_at kind bytes i ≡ number_at kind bytes i
unfolding char_at
char_at-number_at one_byte bytes i = refl
char_at-number_at two_bytes bytes i = refl
char_at-number_at four_bytes bytes i = refl

kind-pos : {kind : ℕ} → IsKind kind → 0 < kind
kind-pos one_byte = omega arith
kind-pos two_bytes = omega arith
kind-pos four_bytes = omega arith

module _ (kind : ℕ) (known : IsKind kind) (str_length : ℕ) (int_range : str_length ≤ 2 ^ 31) where
  encode_at-char :
      (front rest : List ℕ) (c i : ℕ) {t : Text}
      → length front ≡ i
      → i < str_length
      → c < 256 ^ kind
      → encode c ≡ some t
      → encode_at kind (front ++ (le_bytes kind c ++ rest)) i ≡ some t
  unfolding encode_at
  encode_at-char front rest c i e lt small encoded =
      let range : leb (2 ^ 31) i ≡ false = ground arith in
      rw (
        range,
        char_at-number_at known (front ++ (le_bytes kind c ++ rest)) i,
        number_at-le_bytes kind c front rest i e small,
        encoded,
        encode_at,
      )

  pub encode_loop-packed :
      (fuel : ℕ) (front cs rest dump : List ℕ) (i : ℕ)
      → length front ≡ i
      → str_length ≡ i + kind * length cs
      → kind * length cs < fuel
      → AreChars kind cs
      → encode_loop fuel kind str_length (front ++ (packed kind cs ++ rest)) i dump
        ≡ some (dump ++ utf8 cs)
  unfolding encode_loop utf8
  encode_loop-packed zero front cs rest dump i e total enough chars = absurd (omega arith)
  encode_loop-packed (suc fuel) front [] rest dump i e total enough chars =
      let done : ltb i str_length ≡ false = ground arith in rw (done, append-nil dump, encode_loop)
  encode_loop-packed (suc fuel) front (c ∷ cs) rest dump i e total enough chars =
      let k = kind-pos known in
      let later : i + kind ≤ str_length = grind arith in
      let more : ltb i str_length ≡ true = lt→ltb i str_length (omega arith) in
      let t = utf8_char c in
      let encoded = encode-utf8_char c chars.0.1 in
      let this = le_bytes kind c in
      let others = packed kind cs ++ rest in
      let split = ap (λ b. front ++ b) (append_assoc this (packed kind cs) rest) in
      let read =
        ap (λ b. encode_at kind b i) split
        ∙ encode_at-char front others c i e (omega arith) chars.0.0 encoded in
      let step =
        ap (λ b. encode_loop fuel kind str_length b (i + kind) (dump ++ t))
          (split ∙ sym (append_assoc front this others))
        ∙ encode_loop-packed fuel (front ++ this) cs rest (dump ++ t) (i + kind)
            (omega (arith, length-append front this, length-le_bytes kind c)) (grind arith)
            (grind arith) chars.1 in
      rw (more, read, encode_loop) (step ∙ ap some (append_assoc dump t (utf8 cs)))

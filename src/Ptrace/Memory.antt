-- ===== src/Ptrace/Memory.antt =====
-- Reads of a stopped process's memory by PtracePeek, PtracePeekString and PtracePeekBytes.
use pyflame.Common.{
  ℕ, zero, suc, ◌+◌, ◌*◌, ◌/◌, ◌%◌, ◌^◌, ◌≤◌, ◌<◌, true, false, none, some, List, [], ◌∷◌, ◌++◌,
  ◌≡◌, refl, sym, ap, ◌∙◌, arith, ◌==◌, if◌then◌else◌, length, length-append,
}
use mathlib.Core.List.{append-nil, append_assoc}
use native.Mathlib.Decide.{dec_lt}
use native.Mathlib.Nat.{mod-eq_of_lt}
use pyflame.Exc.{State, ptrace_exception, ok, throw}
use pyflame.Os.{Pid, Os, Memory, IsBytes, Snapshot, word_of}
use pyflame.Ptrace.{
  peek_error, le_bytes, c_str, has_nul, ptrace_peek, peek_string_loop, ptrace_peek_string,
  peek_bytes_loop, ptrace_peek_bytes,
}

-- The memory holds the bytes `bs` from `a` on.
abbrev pub Holds : Memory → ℕ → List ℕ → Type 0
Holds mem a [] = Unit
Holds mem a (b ∷ bs) = (mem a ≡ some b) × Holds mem (a + 1) bs

module _ (mem : Memory) where
  Holds-append :
      (a c : ℕ) (xs ys : List ℕ)
      → a + length xs ≡ c
      → Holds mem a (xs ++ ys)
      → Holds mem a xs × Holds mem c ys
  Holds-append a c [] ys e h = let e' : a ≡ c = omega arith in (tt, rw (← e') h)
  Holds-append a c (x ∷ xs) ys e (m, h) =
      let (front, back) = Holds-append (a + 1) c xs ys (omega arith) h in ((m, front), back)

  word-Holds :
      (n a : ℕ) (bs : List ℕ)
      → IsBytes mem
      → length bs ≡ n
      → Holds mem a bs
      → (v : ℕ) × (word_of n mem a ≡ some v) × (le_bytes n v ≡ bs)
  unfolding word_of le_bytes
  word-Holds zero a [] small e h = (0, refl, refl)
  word-Holds zero a (b ∷ bs) small e h = absurd (omega arith)
  word-Holds (suc n) a [] small e h = absurd (omega arith)
  word-Holds (suc n) a (b ∷ bs) small e (m, h) =
      let (v, read, back) = word-Holds n (a + 1) bs small (omega arith) h in
      let lt = small a b m in
      let low : (b + 256 * v) % 256 ≡ b = omega arith in
      let high : (b + 256 * v) / 256 ≡ v = omega arith in
      (b + 256 * v, rw (m, read, word_of), rw (low, high, back))

split_list :
    (n : ℕ) (bs : List ℕ)
    → n ≤ length bs
    → (xs : List ℕ) × (ys : List ℕ) × (bs ≡ xs ++ ys) × (length xs ≡ n)
split_list zero bs h = ([], bs, refl, refl)
split_list (suc n) [] h = absurd (omega arith)
split_list (suc n) (b ∷ bs) h =
    let (xs, ys, e, l) = split_list n bs (omega arith) in (b ∷ xs, ys, ap (λ r. b ∷ r) e, ap suc l)

has_nul-append : (t rest : List ℕ) → has_nul (t ++ 0 ∷ rest) ≡ true
unfolding has_nul
has_nul-append [] rest = refl
has_nul-append (b ∷ t) rest = ground (arith, has_nul-append t rest)

c_str-append : (t rest : List ℕ) → has_nul t ≡ false → c_str (t ++ 0 ∷ rest) ≡ t
unfolding has_nul c_str
c_str-append [] rest h = refl
c_str-append (b ∷ t) rest h = ground (arith, c_str-append t rest)

c_str-whole : (t : List ℕ) → has_nul t ≡ false → c_str t ≡ t
unfolding has_nul c_str
c_str-whole [] h = refl
c_str-whole (b ∷ t) h = ground (arith, c_str-whole t)

has_nul-parts :
    (xs ys : List ℕ) → has_nul (xs ++ ys) ≡ false → (has_nul xs ≡ false) × (has_nul ys ≡ false)
unfolding has_nul
has_nul-parts [] ys h = (refl, h)
has_nul-parts (x ∷ xs) ys h = ground (arith, has_nul-parts xs ys)

module _ {W : Type 0} (os : Os W) (pid : Pid) (s : State W) {mem : Memory}
    (snap : Snapshot os pid s.world mem) where
  -- A mapped word is read as it stands, also where it is -1, and nothing else changes.
  pub ptrace_peek-word : (a v : ℕ) → word_of 8 mem a ≡ some v → ptrace_peek os pid a s ≡ ok v s
  unfolding ptrace_peek
  ptrace_peek-word a v e = rw (snap.ret a, snap.errno a, snap.same a, e) (ground arith)

  -- An address with a byte that is not mapped is an error, and nothing changes.
  pub ptrace_peek-unmapped :
      (a : ℕ)
      → word_of 8 mem a ≡ none
      → ptrace_peek os pid a s ≡ throw (ptrace_exception (peek_error os pid a 5)) s
  unfolding ptrace_peek
  ptrace_peek-unmapped a e = rw (snap.ret a, snap.errno a, snap.same a, e)

  peek_bytes_loop-Holds :
      (words addr off : ℕ) (acc bs : List ℕ)
      → length bs ≡ 8 * words
      → addr + off + 8 * words ≤ 2 ^ 64
      → Holds mem (addr + off) bs
      → peek_bytes_loop os words pid addr off acc s ≡ ok (acc ++ bs) s
  unfolding peek_bytes_loop
  peek_bytes_loop-Holds zero addr off acc [] e fits h = rw (append-nil acc)
  peek_bytes_loop-Holds zero addr off acc (b ∷ bs) e fits h = absurd (omega arith)
  peek_bytes_loop-Holds (suc words) addr off acc bs e fits h =
      let (xs, ys, whole, l) = split_list 8 bs (omega arith) in
      let (front, back) =
        Holds-append mem (addr + off) (addr + (off + 8)) xs ys (omega arith) (rw whole at h) in
      let (v, read, bytes) = word-Holds mem 8 (addr + off) xs snap.bytes l front in
      let here : (addr + off) % 2 ^ 64 ≡ addr + off = mod-eq_of_lt (omega arith) in
      rw (here, ptrace_peek-word (addr + off) v read, bytes)
        (peek_bytes_loop-Holds words addr (off + 8) (acc ++ xs) ys
            (omega (arith, ap length whole, length-append xs ys)) (omega arith) back
          ∙ ap (λ r. ok r s) (append_assoc acc xs ys ∙ ap (λ r. acc ++ r) (sym whole)))

  -- On a stopped process whose memory holds the bytes from `addr` on, up to the end of the word
  -- that holds the last of `nbytes`, PtracePeekBytes returns them and changes nothing.
  pub ptrace_peek_bytes-Holds :
      (addr nbytes : ℕ) (bs : List ℕ)
      → length bs ≡ 8 * ((nbytes + 7) / 8)
      → addr + length bs ≤ 2 ^ 64
      → Holds mem addr bs
      → ptrace_peek_bytes os pid addr nbytes s ≡ ok bs s
  unfolding ptrace_peek_bytes
  ptrace_peek_bytes-Holds addr nbytes bs e fits h =
      let words : (if nbytes % 8 == 0 then nbytes else (nbytes / 8 + 1) * 8) / 8
          ≡ (nbytes + 7) / 8 =
        ground arith in
      let from : addr + 0 ≡ addr = omega arith in
      rw words (peek_bytes_loop-Holds ((nbytes + 7) / 8) addr 0 [] bs e (omega arith) (rw from h))

  peek_string_loop-Holds :
      (fuel addr off : ℕ) (dump t rest : List ℕ)
      → length t / 8 < fuel
      → has_nul t ≡ false
      → length t + 1 + length rest ≡ 8 * (length t / 8 + 1)
      → addr + off + length t + 1 + length rest ≤ 2 ^ 64
      → Holds mem (addr + off) (t ++ 0 ∷ rest)
      → peek_string_loop os fuel pid addr off dump s ≡ ok (dump ++ t) s
  unfolding peek_string_loop
  peek_string_loop-Holds zero addr off dump t rest enough text e fits h = absurd (omega arith)
  peek_string_loop-Holds (suc fuel) addr off dump t rest enough text e fits h =
      let here : (addr + off) % 2 ^ 64 ≡ addr + off = mod-eq_of_lt (omega arith) in
      elim (dec_lt (length t) 8) [
        | yes short ↦
            let (v, read, bytes) =
              word-Holds mem 8 (addr + off) (t ++ 0 ∷ rest) snap.bytes
                (omega (arith, length-append t (0 ∷ rest))) h in
            rw (
              here,
              ptrace_peek-word (addr + off) v read,
              bytes,
              has_nul-append t rest,
              c_str-append t rest text,
            )
        | no long ↦
            let (xs, ys, whole, l) = split_list 8 t (omega arith) in
            let size : length t ≡ length xs + length ys = ap length whole ∙ length-append xs ys in
            let (front, back) =
              Holds-append mem (addr + off) (addr + (off + 8)) xs (ys ++ 0 ∷ rest) (omega arith)
                (rw (whole, append_assoc xs ys (0 ∷ rest)) at h) in
            let (v, read, bytes) = word-Holds mem 8 (addr + off) xs snap.bytes l front in
            let (first, second) = has_nul-parts xs ys (rw whole at text) in
            rw (here, ptrace_peek-word (addr + off) v read, bytes, first, c_str-whole xs first)
              (peek_string_loop-Holds fuel addr (off + 8) (dump ++ xs) ys rest (omega arith) second
                  (omega arith) (omega arith) back
                ∙ ap (λ r. ok r s) (append_assoc dump xs ys ∙ ap (λ r. dump ++ r) (sym whole)))
      ]

  -- On a stopped process whose memory holds a text without a NUL, a NUL behind it and the rest of
  -- the last word, PtracePeekString returns the text and changes nothing; more rounds than the text
  -- has whole words are enough.
  pub ptrace_peek_string-Holds :
      (fuel addr : ℕ) (t rest : List ℕ)
      → length t / 8 < fuel
      → has_nul t ≡ false
      → length t + 1 + length rest ≡ 8 * (length t / 8 + 1)
      → addr + length t + 1 + length rest ≤ 2 ^ 64
      → Holds mem addr (t ++ 0 ∷ rest)
      → ptrace_peek_string os fuel pid addr s ≡ ok t s
  unfolding ptrace_peek_string
  ptrace_peek_string-Holds fuel addr t rest enough text e fits h =
      let from : addr + 0 ≡ addr = omega arith in
      peek_string_loop-Holds fuel addr 0 [] t rest enough text e (omega arith) (rw from h)

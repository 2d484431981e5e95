-- ===== src/Frob/Strings/Read.antt =====
-- StringData on the memory of a stopped interpreter, for both kinds of string objects.
use pyflame.Common.{
  ℕ, zero, suc, ◌+◌, ◌*◌, ◌/◌, ◌^◌, ◌≤◌, ◌<◌, Text, true, false, Option, none, some, List, [], ◌∷◌,
  ◌++◌, ◌≡◌, ◌⊎◌, inl, inr, Bool, refl, ap, ◌∙◌, arith, leb, length, if◌then◌else◌,
}
use mathlib.Core.Option
use pyflame.Exc.{State, ok}
use pyflame.Frob.Layout.{Version, py26, py34, py36, Layout, member, byte_data}
use pyflame.Frob.Strings.Chars.{packed, utf8, IsKind, AreChars, encode_loop-packed}
use pyflame.Frob.Strings.{string_data_python3, string_data}
use pyflame.Frob.Utf8.Decode.{decode, decode-nil, utf8_char, utf8_char-Encodes}
use pyflame.Os.{Pid, Os, Memory, Snapshot}
use pyflame.Ptrace.Memory.{Holds, ptrace_peek_bytes-Holds, ptrace_peek_string-Holds}
use pyflame.Ptrace.{has_nul}

-- All the characters of a text, at most `n` of them.
pub decode_all : ℕ → Text → Option (List ℕ)
decode_all n [] = some []
decode_all zero (b ∷ t) = none
decode_all (suc n) (b ∷ t) = elim (decode (b ∷ t)) [
  | none ↦ none
  | some r ↦ Option.map (λ cs. r.0 ∷ cs) (decode_all n r.1)
]

decode_all-step :
    (n c : ℕ) (t rest : Text)
    → decode t ≡ some (c, rest)
    → decode_all (suc n) t ≡ Option.map (λ cs. c ∷ cs) (decode_all n rest)
unfolding decode_all
decode_all-step n c [] rest e = cc decode-nil
decode_all-step n c (b ∷ t) rest e = rw (e, decode_all)

-- For every list of code points up to 0x10ffff, what the encoder writes for them one after the
-- other decodes to the list.
decode_all-utf8 :
    (kind : ℕ) (cs : List ℕ) → AreChars kind cs → decode_all (length cs) (utf8 cs) ≡ some cs
unfolding decode_all utf8
decode_all-utf8 kind [] h = refl
decode_all-utf8 kind (c ∷ cs) h =
    decode_all-step (length cs) c (utf8_char c ++ utf8 cs) (utf8 cs)
      ((utf8_char-Encodes c h.0.1).back (utf8 cs))
    ∙ ap (Option.map (λ cs. c ∷ cs)) (decode_all-utf8 kind cs h.1)

-- A compact string object at `addr`, in state to be read, with the characters `cs`.
pub record StringObject (l : Layout) (mem : Memory) (addr : ℕ) (cs : List ℕ) : Type 0 where
  pub header : List ℕ
  pub kind : ℕ
  pub ascii : Bool
  pub rest : List ℕ
  pub header_whole : length header ≡ 8 * ((l.ascii_size + 7) / 8)
  pub header_fits : addr + length header ≤ 2 ^ 64
  pub header_at : Holds mem addr header
  pub fields :
      l.ascii_object header
      ≡ record { length = length cs; kind = kind; compact = true; ascii = ascii }
  pub known : IsKind kind
  pub chars : AreChars kind cs
  pub in_range : kind * length cs ≤ 2 ^ 31
  pub whole : length (packed kind cs ++ rest) ≡ 8 * ((kind * length cs + 7) / 8)
  pub fits :
      member addr (if ascii then l.ascii_size else l.compact_size) + length (packed kind cs ++ rest)
      ≤ 2 ^ 64
  pub data_at :
      Holds mem
        (member addr (if ascii then l.ascii_size else l.compact_size))
        (packed kind cs ++ rest)

-- The string object at `addr` has the bytes `t`, as the interpreter of version `v` lays it out;
-- `fuel` rounds are enough to read it.
pub data HasString (v : Version) (l : Layout) (mem : Memory) (fuel addr : ℕ) (t : Text)
    : Type 0 where
  bytes :
      (rest : List ℕ)
      → v ≡ py26
      → length t / 8 < fuel
      → has_nul t ≡ false
      → length t + 1 + length rest ≡ 8 * (length t / 8 + 1)
      → byte_data l addr + length t + 1 + length rest ≤ 2 ^ 64
      → Holds mem (byte_data l addr) (t ++ 0 ∷ rest)
      → HasString v l mem fuel addr t
  unicode :
      (cs : List ℕ)
      → (v ≡ py34) ⊎ (v ≡ py36)
      → StringObject l mem addr cs
      → t ≡ utf8 cs
      → HasString v l mem fuel addr t

module _ {W : Type 0} (os : Os W) (pid : Pid) (v : Version) (l : Layout) (s : State W)
    {mem : Memory} (snap : Snapshot os pid s.world mem) where
  string_data_python3-StringObject :
      (addr : ℕ) (cs : List ℕ)
      → StringObject l mem addr cs
      → string_data_python3 os v l pid addr s ≡ ok (utf8 cs) s
  unfolding string_data_python3
  string_data_python3-StringObject addr cs o =
      let range : leb (2 ^ 63) (o.kind * length cs) ≡ false = ground (arith, o.in_range) in
      rw (
        ptrace_peek_bytes-Holds os pid s snap _ _ _ o.header_whole o.header_fits o.header_at,
        o.fields,
        range,
        ptrace_peek_bytes-Holds os pid s snap _ _ _ o.whole o.fits o.data_at,
        encode_loop-packed o.kind o.known (o.kind * length cs) o.in_range (o.kind * length cs + 1)
            [] cs o.rest [] 0 refl (omega arith) (omega arith) o.chars,
      )

  -- On a stopped process whose memory holds a compact string object of a known kind with characters
  -- up to 0x10ffff, in the range of `int`, StringDataPython3 returns the UTF-8 form of its
  -- characters by the table of RFC 3629, and changes nothing; that text decodes by the first bytes
  -- to the characters.
  pub string_data_python3-utf8 :
      (addr : ℕ) (cs : List ℕ)
      → StringObject l mem addr cs
      → (string_data_python3 os v l pid addr s ≡ ok (utf8 cs) s)
        × (decode_all (length cs) (utf8 cs) ≡ some cs)
  string_data_python3-utf8 addr cs o =
      (string_data_python3-StringObject addr cs o, decode_all-utf8 o.kind cs o.chars)

  -- On a stopped process whose memory holds a string object, StringData changes nothing and
  -- returns, for Python 2, the bytes up to the first NUL, where more rounds than these have whole
  -- words are enough, and for Python 3, where the object is compact, of a known kind and in the
  -- range of `int`, the UTF-8 form of its characters.
  pub string_data-HasString :
      (fuel addr : ℕ) (t : Text)
      → HasString v l mem fuel addr t
      → string_data os v l fuel pid addr s ≡ ok t s
  unfolding string_data
  string_data-HasString fuel addr t (bytes rest is26 enough text e fits h) =
      rw (is26, string_data)
        (ptrace_peek_string-Holds os pid s snap fuel _ t rest enough text e fits h)
  string_data-HasString fuel addr t (unicode cs (inl is34) o e) =
      rw (e, is34, string_data) (string_data_python3-StringObject addr cs o)
  string_data-HasString fuel addr t (unicode cs (inr is36) o e) =
      rw (e, is36, string_data) (string_data_python3-StringObject addr cs o)

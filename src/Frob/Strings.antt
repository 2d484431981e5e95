-- ===== src/Frob/Strings.antt =====
-- StringData and StringDataPython3 of src/frob.cc.
pub mod Chars
pub mod Read
pub mod Untouched
use pyflame.Common.{
  ℕ, zero, suc, ◌+◌, ◌*◌, ◌^◌, Text, true, false, Option, none, some, List, [], ◌∷◌, ◌++◌, leb, ltb,
  ◌==◌, if◌then◌else◌, get_elem?,
}
use pyflame.Exc.{Cmd, pure, stuck, ◌>>=◌}
use pyflame.Frob.Layout.{Version, py26, py34, py36, Layout, member, byte_data}
use pyflame.Frob.Lines.{or_stuck}
use pyflame.Frob.Utf8.{encode}
use pyflame.Os.{Pid, Os}
use pyflame.Ptrace.{ptrace_peek_string, ptrace_peek_bytes}

-- The little-endian number of `n` bytes at index `i` of the buffer; `none` is out of bounds.
pub number_at : ℕ → List ℕ → ℕ → Option ℕ
number_at zero bytes i = some 0
number_at (suc n) bytes i = elim (get_elem? bytes i) [
  | none ↦ none
  | some b ↦ elim (number_at n bytes (i + 1)) [ none ↦ none | some v ↦ some (b + 256 * v) ]
]

-- The character at index `i`; `none` is the failed assertion on the kind.
pub char_at : ℕ → List ℕ → ℕ → Option ℕ
unfolding number_at
char_at kind bytes i =
    if kind == 1
    then number_at 1 bytes i
    else if kind == 2
    then number_at 2 bytes i
    else if kind == 4
    then number_at 4 bytes i
    else none

-- One round: `none` also where `i`, an `int`, has overflowed.
pub encode_at : ℕ → List ℕ → ℕ → Option Text
unfolding char_at
encode_at kind bytes i =
    if leb (2 ^ 31) i
    then none
    else elim (char_at kind bytes i) [ none ↦ none | some ch ↦ encode ch ]

-- The loop, with `fuel` rounds at most; `none` is a round that failed, or the end of the fuel.
pub encode_loop : ℕ → ℕ → ℕ → List ℕ → ℕ → Text → Option Text
unfolding encode_at
encode_loop zero kind str_length bytes i dump = none
encode_loop (suc fuel) kind str_length bytes i dump = elim (ltb i str_length) [
  | false ↦ some dump
  | true ↦ elim (encode_at kind bytes i) [
    | none ↦ none
    | some t ↦ encode_loop fuel kind str_length bytes (i + kind) (dump ++ t)
  ]
]

module _ {W : Type 0} (os : Os W) (v : Version) (l : Layout) where
  -- `length` is a `Py_ssize_t` that no string makes negative, and a product out of range is
  -- undefined. A round adds `kind` to `i`, so that
  -- `str_length + 1` rounds are enough.
  pub string_data_python3 : Pid → ℕ → Cmd W Text
  string_data_python3 pid addr = do
    unicode_bytes ← ptrace_peek_bytes os pid addr l.ascii_size
    let unicode = l.ascii_object unicode_bytes
    if unicode.compact
        then (do
          let str_offset = if unicode.ascii then l.ascii_size else l.compact_size
          let str_length = unicode.kind * unicode.length
          if leb (2 ^ 63) str_length then stuck else (do
            bytes ← ptrace_peek_bytes os pid (member addr str_offset) str_length
            or_stuck (encode_loop (str_length + 1) unicode.kind str_length bytes 0 [])))
        else stuck

  pub string_data : ℕ → Pid → ℕ → Cmd W Text
  string_data fuel pid addr = elim v [
    | py26 ↦ ptrace_peek_string os fuel pid (byte_data l addr)
    | py34 ↦ string_data_python3 pid addr
    | py36 ↦ string_data_python3 pid addr
  ]

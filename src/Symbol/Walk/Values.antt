-- ===== src/Symbol/Walk/Values.antt =====
-- What WalkTable is to find, stated of the kinds of the symbols.
use pyflame.Common.{
  ℕ, Bool, true, false, not, ◌&&◌, Option, none, some, List, [], ◌∷◌, ◌==◌, if◌then◌else◌,
}
use pyflame.Symbol.Addresses.{PyAbi, py26, py34, py36, PyAddresses}
use pyflame.Symbol.Walk.Kinds.{
  Kind, thread_state, interp_head, interp_head_fn, string_type, bytes_type, extra_index, kind_of,
}
use pyflame.Symbol.Walk.Scan.{Symbol}

abbrev pub is_thread_state : Kind → Bool
is_thread_state thread_state = true
is_thread_state _ = false

abbrev pub is_head : Kind → Bool
is_head interp_head = true
is_head _ = false

abbrev pub is_head_fn : Kind → Bool
is_head_fn interp_head_fn = true
is_head_fn _ = false

abbrev pub is_bytes : Kind → Bool
is_bytes bytes_type = true
is_bytes _ = false

-- The value of the first symbol of a kind whose value is not 0, and 0 if there is none.
unfoldable pub first_value : (Kind → Bool) → List Symbol → ℕ
first_value is [] = 0
first_value is (x ∷ xs) =
    let rest = first_value is xs in
    if is (kind_of x.name) && not (x.value == 0) then x.value else rest

-- The symbols before the first interp_head whose value is not 0.
unfoldable pub until_head : List Symbol → List Symbol
until_head [] = []
until_head (x ∷ xs) =
    let rest = until_head xs in
    if is_head (kind_of x.name) && not (x.value == 0) then [] else x ∷ rest

-- The value of the last PyInterpreterState_Head, and `v` if there is none.
unfoldable pub last_head_fn : List Symbol → ℕ → ℕ
last_head_fn [] v = v
last_head_fn (x ∷ xs) v = last_head_fn xs (if is_head_fn (kind_of x.name) then x.value else v)

abbrev pub decided : Kind → Option PyAbi → Option PyAbi
decided string_type rest = some py26
decided extra_index rest = some py36
decided _ rest = rest

-- The ABI of the first symbol that only Python 2, or only Python 3.6, has.
unfoldable pub first_abi : List Symbol → Option PyAbi
first_abi [] = none
first_abi (x ∷ xs) = decided (kind_of x.name) (first_abi xs)

unfoldable pub has_bytes : List Symbol → Bool
has_bytes [] = false
has_bytes (x ∷ xs) = let rest = has_bytes xs in if is_bytes (kind_of x.name) then true else rest

-- Without such a symbol, PyBytes_Type stands for Python 3.4.
abbrev pub abi_of : List Symbol → PyAbi → PyAbi
abi_of xs d = elim (first_abi xs) [ some a ↦ a | none ↦ if has_bytes xs then py34 else d ]

-- What is found, where `a` is what an earlier walk has found.
abbrev pub found : List Symbol → PyAddresses → PyAddresses
found xs a = record a {
  tstate_addr = if a.tstate_addr == 0 then first_value is_thread_state xs else a.tstate_addr;
  interp_head_addr = if a.interp_head_addr == 0 then first_value is_head xs else a.interp_head_addr;
  interp_head_fn_addr =
      if a.interp_head_addr == 0
      then last_head_fn (until_head xs) a.interp_head_fn_addr
      else a.interp_head_fn_addr;
}

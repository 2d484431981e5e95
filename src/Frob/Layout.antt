-- ===== src/Frob/Layout.antt =====
-- The build of src/frob.cc for one Python ABI: src/frob26.cc, src/frob34.cc and src/frob36.cc set
-- PYFLAME_PY_VERSION, and Python.h of that version gives the offsets and sizes.
use pyflame.Common.{ℕ, ◌+◌, ◌%◌, ◌^◌, Bool, List}

pub data Version : Type 0 where
  py26 py34 py36 : Version

-- The header of a `PyASCIIObject` as the code reads it.
pub record AsciiObject : Type 0 where
  pub length : ℕ
  pub kind : ℕ
  pub compact : Bool
  pub ascii : Bool

-- `offsetof` and `sizeof` of the interpreter's structures; `ascii_object` reads the bit fields.
-- `ob_size` and `ob_sval` are those of `PyStringObject` (2.6), or of `PyVarObject` and
-- `PyBytesObject`.
pub record Layout : Type 0 where
  pub f_trace : ℕ
  pub f_lineno : ℕ
  pub f_lasti : ℕ
  pub f_code : ℕ
  pub f_back : ℕ
  pub co_lnotab : ℕ
  pub co_firstlineno : ℕ
  pub co_filename : ℕ
  pub co_name : ℕ
  pub ob_size : ℕ
  pub ob_sval : ℕ
  pub ascii_size : ℕ
  pub compact_size : ℕ
  pub ascii_object : List ℕ → AsciiObject
  pub interp : ℕ
  pub thread_id : ℕ
  pub frame : ℕ
  pub next : ℕ
  pub tstate_head : ℕ

-- `addr + offset` on `unsigned long`
unfoldable pub member : ℕ → ℕ → ℕ
member addr offset = (addr + offset) % 2 ^ 64

module _ (l : Layout) where
  unfoldable pub string_size : ℕ → ℕ
  string_size addr = member addr l.ob_size

  unfoldable pub byte_data : ℕ → ℕ
  byte_data addr = member addr l.ob_sval

-- ===== src/Symbol/Walk/Kinds.antt =====
-- What the names stand for that WalkTable looks for, and its round by the kind of the symbol.
use pyflame.Common.{ℕ, Text, codes, text_eq, true, ◌==◌, if◌then◌else◌}
use pyflame.Symbol.Addresses.{py26, py34, py36}
use pyflame.Symbol.Walk.{Walk}

-- What a name stands for.
pub data Kind : Type 0 where
  thread_state interp_head interp_head_fn string_type bytes_type extra_index other : Kind

unfoldable pub kind_of : Text → Kind
kind_of t =
    if text_eq t (codes "_PyThreadState_Current")
    then thread_state
    else if text_eq t (codes "interp_head")
    then interp_head
    else if text_eq t (codes "PyInterpreterState_Head")
    then interp_head_fn
    else if text_eq t (codes "PyString_Type")
    then string_type
    else if text_eq t (codes "PyBytes_Type")
    then bytes_type
    else if text_eq t (codes "_PyEval_RequestCodeExtraIndex")
    then extra_index
    else if text_eq t (codes "_PyCode_GetExtra")
    then extra_index
    else if text_eq t (codes "_PyCode_SetExtra")
    then extra_index
    else other

-- One round of the pass, by the kind of the symbol.
unfoldable pub step : Kind → ℕ → Walk → Walk
step thread_state v k =
    if k.addrs.tstate_addr == 0
    then record k { addrs = record (k.addrs) { tstate_addr = v } }
    else k
step interp_head v k =
    if k.addrs.interp_head_addr == 0
    then record k { addrs = record (k.addrs) { interp_head_addr = v } }
    else k
step interp_head_fn v k =
    if k.addrs.interp_head_addr == 0
    then record k { addrs = record (k.addrs) { interp_head_fn_addr = v } }
    else k
step string_type v k = if k.have_abi then k else record k { have_abi = true; abi = py26 }
step bytes_type v k = if k.have_abi then k else record k { abi = py34 }
step extra_index v k = if k.have_abi then k else record k { have_abi = true; abi = py36 }
step other v k = k

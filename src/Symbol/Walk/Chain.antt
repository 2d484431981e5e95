-- ===== src/Symbol/Walk/Chain.antt =====
-- The chain of conditions in WalkTable's round, with the tests of the name as Booleans.
use pyflame.Common.{ℕ, Bool, true, false, ◌&&◌, ◌≡◌, refl, ◌==◌, if◌then◌else◌}
use pyflame.Symbol.Addresses.{py26, py34, py36}
use pyflame.Symbol.Walk.{Walk}
use pyflame.Symbol.Walk.Kinds.{thread_state, interp_head, interp_head_fn, step}

and_true : (b : Bool) → (b && true) ≡ b
and_true true = refl
and_true false = refl

pub and_false : (b : Bool) → (b && false) ≡ false
and_false true = refl
and_false false = refl

pub if-same : {A : Type 0} (b : Bool) (v : A) → (if b then v else v) ≡ v
if-same true v = refl
if-same false v = refl

-- The chain of conditions in `scan_symbol`, with the tests as Booleans.
unfoldable pub chain : (a b c s y e : Bool) → ℕ → Walk → Walk
chain a b c s y e v k =
    if (k.addrs.tstate_addr == 0) && a
    then record k { addrs = record (k.addrs) { tstate_addr = v } }
    else if (k.addrs.interp_head_addr == 0) && b
    then record k { addrs = record (k.addrs) { interp_head_addr = v } }
    else if (k.addrs.interp_head_addr == 0) && c
    then record k { addrs = record (k.addrs) { interp_head_fn_addr = v } }
    else if k.have_abi
    then k
    else if s
    then record k { have_abi = true; abi = py26 }
    else if y
    then record k { abi = py34 }
    else if e
    then record k { have_abi = true; abi = py36 }
    else k

module _ (v : ℕ) (k : Walk) where
  pub chain-thread_state : chain true false false false false false v k ≡ step thread_state v k
  unfolding chain step
  chain-thread_state =
      rw
        (
          and_true (k.addrs.tstate_addr == 0),
          and_false (k.addrs.interp_head_addr == 0),
          if-same k.have_abi k,
        )
        refl

  pub chain-interp_head : chain false true false false false false v k ≡ step interp_head v k
  unfolding chain step
  chain-interp_head =
      rw
        (
          and_false (k.addrs.tstate_addr == 0),
          and_true (k.addrs.interp_head_addr == 0),
          and_false (k.addrs.interp_head_addr == 0),
          if-same k.have_abi k,
        )
        refl

  pub chain-interp_head_fn : chain false false true false false false v k ≡ step interp_head_fn v k
  unfolding chain step
  chain-interp_head_fn =
      rw
        (
          and_false (k.addrs.tstate_addr == 0),
          and_false (k.addrs.interp_head_addr == 0),
          and_true (k.addrs.interp_head_addr == 0),
          if-same k.have_abi k,
        )
        refl

  pub chain-abi :
      (s y e : Bool)
      → chain false false false s y e v k ≡ (
          if k.have_abi
          then k
          else if s
          then record k { have_abi = true; abi = py26 }
          else if y
          then record k { abi = py34 }
          else if e
          then record k { have_abi = true; abi = py36 }
          else k)
  unfolding chain
  chain-abi s y e =
      rw (and_false (k.addrs.tstate_addr == 0), and_false (k.addrs.interp_head_addr == 0)) refl

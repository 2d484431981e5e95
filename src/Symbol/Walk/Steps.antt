-- ===== src/Symbol/Walk/Steps.antt =====
-- A round of WalkTable depends on the kind of the symbol: which of the names it has, if any.
use pyflame.Common.{
  ℕ, Text, codes, text_eq, text_eq→eq, true, false, ◌≡◌, refl, sym, ◌==◌, Bool-cases, inl, inr,
}
use mathlib.Core.Path.{subst}
use pyflame.Symbol.Walk.Scan.{Symbol, named, scan_symbol}
use pyflame.Symbol.Walk.{Walk}
use pyflame.Symbol.Walk.Kinds.{kind_of, step}
use pyflame.Symbol.Walk.Chain.{
  and_false, if-same, chain, chain-thread_state, chain-interp_head, chain-interp_head_fn, chain-abi,
}

module _ (v : ℕ) (k : Walk) where
  -- A text that is one of the names.
  scan_symbol-at :
      (name t : Text)
      → text_eq name t ≡ true
      → scan_symbol (record { name = t; value = v }) k ≡ step (kind_of t) v k
      → scan_symbol (record { name = name; value = v }) k ≡ step (kind_of name) v k
  scan_symbol-at name t e h =
      subst (λ u. scan_symbol (record { name = u; value = v }) k ≡ step (kind_of u) v k)
        (sym (text_eq→eq name t e)) h

  scan_symbol-thread_state :
      scan_symbol (record { name = codes "_PyThreadState_Current"; value = v }) k
      ≡ step (kind_of (codes "_PyThreadState_Current")) v k
  unfolding codes text_eq kind_of chain
  scan_symbol-thread_state = chain-thread_state v k

  scan_symbol-interp_head :
      scan_symbol (record { name = codes "interp_head"; value = v }) k
      ≡ step (kind_of (codes "interp_head")) v k
  unfolding codes text_eq kind_of chain
  scan_symbol-interp_head = chain-interp_head v k

  scan_symbol-interp_head_fn :
      scan_symbol (record { name = codes "PyInterpreterState_Head"; value = v }) k
      ≡ step (kind_of (codes "PyInterpreterState_Head")) v k
  unfolding codes text_eq kind_of chain
  scan_symbol-interp_head_fn = chain-interp_head_fn v k

  scan_symbol-string_type :
      scan_symbol (record { name = codes "PyString_Type"; value = v }) k
      ≡ step (kind_of (codes "PyString_Type")) v k
  unfolding codes text_eq kind_of chain step
  scan_symbol-string_type = chain-abi v k true false false

  scan_symbol-bytes_type :
      scan_symbol (record { name = codes "PyBytes_Type"; value = v }) k
      ≡ step (kind_of (codes "PyBytes_Type")) v k
  unfolding codes text_eq kind_of chain step
  scan_symbol-bytes_type = chain-abi v k false true false

  scan_symbol-request :
      scan_symbol (record { name = codes "_PyEval_RequestCodeExtraIndex"; value = v }) k
      ≡ step (kind_of (codes "_PyEval_RequestCodeExtraIndex")) v k
  unfolding codes text_eq kind_of chain step
  scan_symbol-request = chain-abi v k false false true

  scan_symbol-get_extra :
      scan_symbol (record { name = codes "_PyCode_GetExtra"; value = v }) k
      ≡ step (kind_of (codes "_PyCode_GetExtra")) v k
  unfolding codes text_eq kind_of chain step
  scan_symbol-get_extra = chain-abi v k false false true

  scan_symbol-set_extra :
      scan_symbol (record { name = codes "_PyCode_SetExtra"; value = v }) k
      ≡ step (kind_of (codes "_PyCode_SetExtra")) v k
  unfolding codes text_eq kind_of chain step
  scan_symbol-set_extra = chain-abi v k false false true

-- A round depends on the kind of the symbol alone.
pub scan_symbol-step : (x : Symbol) (k : Walk) → scan_symbol x k ≡ step (kind_of x.name) x.value k
unfolding kind_of step
scan_symbol-step x k =
    let v = x.value in
    elim (Bool-cases (named x (codes "_PyThreadState_Current"))) [
      | inl e ↦ scan_symbol-at v k x.name _ e (scan_symbol-thread_state v k)
      | inr a ↦ elim (Bool-cases (named x (codes "interp_head"))) [
        | inl e ↦ scan_symbol-at v k x.name _ e (scan_symbol-interp_head v k)
        | inr b ↦ elim (Bool-cases (named x (codes "PyInterpreterState_Head"))) [
          | inl e ↦ scan_symbol-at v k x.name _ e (scan_symbol-interp_head_fn v k)
          | inr c ↦ elim (Bool-cases (named x (codes "PyString_Type"))) [
            | inl e ↦ scan_symbol-at v k x.name _ e (scan_symbol-string_type v k)
            | inr d ↦ elim (Bool-cases (named x (codes "PyBytes_Type"))) [
              | inl e ↦ scan_symbol-at v k x.name _ e (scan_symbol-bytes_type v k)
              | inr f ↦ elim (Bool-cases (named x (codes "_PyEval_RequestCodeExtraIndex"))) [
                | inl e ↦ scan_symbol-at v k x.name _ e (scan_symbol-request v k)
                | inr g ↦ elim (Bool-cases (named x (codes "_PyCode_GetExtra"))) [
                  | inl e ↦ scan_symbol-at v k x.name _ e (scan_symbol-get_extra v k)
                  | inr h ↦ elim (Bool-cases (named x (codes "_PyCode_SetExtra"))) [
                    | inl e ↦ scan_symbol-at v k x.name _ e (scan_symbol-set_extra v k)
                    | inr i ↦
                        rw
                          (
                            a,
                            b,
                            c,
                            d,
                            f,
                            g,
                            h,
                            i,
                            and_false (k.addrs.tstate_addr == 0),
                            and_false (k.addrs.interp_head_addr == 0),
                            if-same k.have_abi k,
                          )
                          refl
                  ]
                ]
              ]
            ]
          ]
        ]
      ]
    ]

-- ===== src/Prober/Loop/Retries.antt =====
-- FindSymbols calls DetectABI until it succeeds, at most MaxRetries() times.
use pyflame.Common.Int.{ℤ, pos, int_eq}
use pyflame.Common.{
  if◌then◌else◌, Text, ℕ, zero, suc, ◌<◌, codes, true, false, ◌++◌, ◌==◌, ◌≡◌, arith,
}
use pyflame.Exc.Post.{Ensures, Ensures-resume, Ensures-if, Ensures-catch, Ensures-any}
use pyflame.Exc.{pure, print_err, State, Cmd, ok, is_fatal, ◌>>◌}
use pyflame.Os.{Os}
use pyflame.Prober.Loop.{max_retries, pause, find_rounds, find_symbols}
use pyflame.Prober.{Prober}
use pyflame.Symbol.Addresses.{PyAbi}

-- The message of a search that gives up.
abbrev pub late : Text
late = codes "Failed to locate libpython within timeout period.\n"

module _ {W D F : Type 0} (os : Os W) (wait_fuel : ℕ) (p : Prober D)
    (detect : PyAbi → F → Cmd W (ℤ × F)) where
  -- `n` calls of DetectABI fail, each with a pause behind it; the state is then `t`, and `g` that of
  -- the frobber.
  pub data Failures : ℕ → State W → F → State W → F → Type 0 where
    none_yet : {s : State W} {f : F} → Failures zero s f s f
    failure :
        {n : ℕ} {s u v t : State W} {f h g : F} (code : ℤ)
        → detect p.abi f s ≡ ok (code, h) u
        → int_eq code (pos 0) ≡ false
        → pause os wait_fuel p u ≡ ok tt v
        → Failures n v h t g
        → Failures (suc n) s f t g

  find_rounds-found :
      (k n : ℕ) (s t u : State W) (f g h : F)
      → Failures n s f t g
      → n < k
      → detect p.abi g t ≡ ok (pos 0, h) u
      → find_rounds os wait_fuel p detect k f s ≡ ok (pos 0, h) u
  unfolding find_rounds
  find_rounds-found zero n s t u f g h fails enough found = absurd (omega arith)
  find_rounds-found (suc k) _ s t u f g h none_yet enough found = rw found
  find_rounds-found (suc k) _ s t u f g h (failure {n} {v = w} {h = f'} code d bad c rest) enough
        found =
      let more : k == 0 ≡ false = ground arith in
      rw (d, bad, more, c) (find_rounds-found k n w t u f' g h rest (omega arith) found)

  find_rounds-timeout :
      (k n : ℕ) (s t u : State W) (f g h : F) (code : ℤ)
      → Failures n s f t g
      → suc n ≡ k
      → detect p.abi g t ≡ ok (code, h) u
      → int_eq code (pos 0) ≡ false
      → find_rounds os wait_fuel p detect k f s ≡ ok (pos 1, h) (record u { cerr = u.cerr ++ late })
  unfolding find_rounds
  find_rounds-timeout zero n s t u f g h code fails e d bad = absurd (omega arith)
  find_rounds-timeout (suc k) _ s t u f g h code none_yet e d bad =
      let last : k == 0 ≡ true = ground arith in rw (d, bad, last)
  find_rounds-timeout (suc k) _ s t u f g h code (failure {n} {v = w} {h = f'} c d' bad' p' rest) e
        d bad =
      let more : k == 0 ≡ false = ground arith in
      rw (d', bad', more, p') (find_rounds-timeout k n w t u f' g h code rest (omega arith) d bad)

  -- Where `n` calls of DetectABI fail, each with a pause behind it, and the next succeeds,
  -- FindSymbols returns 0 if `n` is below MaxRetries().
  pub find_symbols-found :
      (n : ℕ) (s t u : State W) (f g h : F)
      → Failures n s f t g
      → n < max_retries p
      → detect p.abi g t ≡ ok (pos 0, h) u
      → find_symbols os wait_fuel p detect f s ≡ ok (pos 0, h) u
  unfolding find_symbols
  find_symbols-found n s t u f g h fails enough found =
      rw (find_rounds-found (max_retries p) n s t u f g h fails enough found)

  -- Where MaxRetries() calls of DetectABI fail, with a pause behind all but the last, FindSymbols
  -- returns 1 and prints that libpython was not located in time.
  pub find_symbols-timeout :
      (n : ℕ) (s t u : State W) (f g h : F) (code : ℤ)
      → Failures n s f t g
      → suc n ≡ max_retries p
      → detect p.abi g t ≡ ok (code, h) u
      → int_eq code (pos 0) ≡ false
      → find_symbols os wait_fuel p detect f s ≡ ok (pos 1, h) (record u { cerr = u.cerr ++ late })
  unfolding find_symbols
  find_symbols-timeout n s t u f g h code fails e d bad =
      rw (find_rounds-timeout (max_retries p) n s t u f g h code fails e d bad)

  module _ (P : F → Type 0)
      (finds : (f : F) (s : State W)
        → Ensures (λ r. int_eq r.0 (pos 0) ≡ true → P r.1) (detect p.abi f s)) where
    find_rounds-Ensures :
        (k : ℕ) (f : F) (s : State W)
        → Ensures (λ r. int_eq r.0 (pos 0) ≡ true → P r.1) (find_rounds os wait_fuel p detect k f s)
    unfolding find_rounds
    find_rounds-Ensures zero f s = tt
    find_rounds-Ensures (suc k) f s =
        Ensures-resume (λ r. int_eq r.0 (pos 0) ≡ true → P r.1) _ (detect p.abi f s) _ (finds f s)
          (next (λ g v. find_rounds-Ensures k g v))
      where
        next :
            ((g : F) (v : State W)
              → Ensures
                  (λ r. int_eq r.0 (pos 0) ≡ true → P r.1)
                  (find_rounds os wait_fuel p detect k g v))
            → (r : ℤ × F) (t : State W) → (int_eq r.0 (pos 0) ≡ true → P r.1)
            → Ensures
                (λ r. int_eq r.0 (pos 0) ≡ true → P r.1)
                ((if int_eq r.0 (pos 0)
                    then pure (pos 0, r.1)
                    else if k == 0
                    then print_err late >> pure (pos 1, r.1)
                    else pause os wait_fuel p >> find_rounds os wait_fuel p detect k r.1)
                  t)
        next rec r t h =
            Ensures-if (λ r. int_eq r.0 (pos 0) ≡ true → P r.1) (int_eq r.0 (pos 0)) _ _ t
              (λ e _. h e)
              λ _.
                Ensures-if (λ r. int_eq r.0 (pos 0) ≡ true → P r.1) (k == 0) _ _ t (λ _ e. cc)
                  λ _.
                    Ensures-resume (λ _. Unit) _ (pause os wait_fuel p t) _
                      (Ensures-any (pause os wait_fuel p t)) (λ _ v _. rec r.1 v)

    -- What DetectABI ensures of the object when it succeeds, FindSymbols ensures when it returns 0.
    pub find_symbols-Ensures :
        (f : F) (s : State W)
        → Ensures (λ r. int_eq r.0 (pos 0) ≡ true → P r.1) (find_symbols os wait_fuel p detect f s)
    unfolding find_symbols
    find_symbols-Ensures f s =
        Ensures-catch (λ r. int_eq r.0 (pos 0) ≡ true → P r.1)
          (find_rounds os wait_fuel p detect (max_retries p) f s) _
          (find_rounds-Ensures (max_retries p) f s)
          λ e t.
            Ensures-if (λ r. int_eq r.0 (pos 0) ≡ true → P r.1) (is_fatal e) _ _ t (λ _ e. cc)
              (λ _. tt)

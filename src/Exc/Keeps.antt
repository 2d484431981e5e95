-- ===== src/Exc/Keeps.antt =====
-- What commands keep of the state, whichever way they end: one rule for each way to build a command.
use pyflame.Common.{Bool, true, false, Option, none, some, if◌then◌else◌}
use pyflame.Exc.Post.{Ends, Ends-resume}
use pyflame.Exc.{
  Exception, State, Run, Cmd, ok, throw, undefined, out_of_fuel, pure, raise, stuck, no_fuel, ◌>>=◌,
  try, catch_run,
}

-- Where `c` returns or throws, `P` is kept.
pub record Keeps {W A : Type 0} (P : State W → Type 0) (c : Cmd W A) : Type 0 where
  pub at : (s : State W) → P s → Ends (Unit {0}) (λ _. P) P (c s)

module _ {W A : Type 0} (P : State W → Type 0) where
  pub Keeps-pure : (a : A) → Keeps P (pure a)
  Keeps-pure a = record { at = λ s h. h }

  pub Keeps-raise : (e : Exception) → Keeps {A = A} P (raise e)
  Keeps-raise e = record { at = λ s h. h }

  pub Keeps-stuck : Keeps {A = A} P stuck
  Keeps-stuck = record { at = λ s h. tt }

  pub Keeps-no_fuel : Keeps {A = A} P no_fuel
  Keeps-no_fuel = record { at = λ s h. tt }

  pub Keeps-if : (b : Bool) (c d : Cmd W A) → Keeps P c → Keeps P d → Keeps P (if b then c else d)
  Keeps-if true c d kc kd = kc
  Keeps-if false c d kc kd = kd

  pub Keeps-sys :
      (f : W → A × W)
      → ((s : State W) → P s → P (record s { world = (f s.world).1 }))
      → Keeps P (λ s. ok (f s.world).0 (record s { world = (f s.world).1 }))
  Keeps-sys f h = record { at = λ s p. h s p }

  pub Keeps-option :
      {B : Type 0} (o : Option B) (n : Cmd W A) (k : B → Cmd W A)
      → Keeps P n
      → ((b : B) → Keeps P (k b))
      → Keeps P (elim o as (λ _. Cmd W A) [ none ↦ n | some b ↦ k b ])
  Keeps-option none n k kn kk = kn
  Keeps-option (some b) n k kn kk = kk b

  pub Keeps-try :
      (c : Cmd W A) (h : Exception → Cmd W A)
      → Keeps P c
      → ((e : Exception) → Keeps P (h e))
      → Keeps P (try c h)
  Keeps-try c h kc kh = record { at = λ s p. caught (c s) (kc.at s p) }
    where
      caught :
          (r : Run W A) → Ends (Unit {0}) (λ _. P) P r → Ends (Unit {0}) (λ _. P) P (catch_run r h)
      caught (ok a t) p = p
      caught (throw e t) p = (kh e).at t p
      caught undefined p = tt
      caught out_of_fuel p = tt

module _ {W A B : Type 0} (P : State W → Type 0) where
  pub Keeps-bind :
      (c : Cmd W A) (k : A → Cmd W B) → Keeps P c → ((a : A) → Keeps P (k a)) → Keeps P (c >>= k)
  Keeps-bind c k kc kk = record {
    at = λ s h.
        Ends-resume (Unit {0}) (λ _. P) (λ _. P) P (c s) k (kc.at s h) (λ a t p. (kk a).at t p);
  }

pub ruleset keeps_rules =
    (Keeps-pure, Keeps-raise, Keeps-stuck, Keeps-no_fuel, Keeps-if, Keeps-bind)

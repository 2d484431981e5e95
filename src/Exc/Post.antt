-- ===== src/Exc/Post.antt =====
-- Postconditions of the values that runs return.
use pyflame.Common.{Bool, true, false, ◌≡◌, refl, if◌then◌else◌}
use pyflame.Exc.{Exception, State, Run, Cmd, ok, throw, undefined, out_of_fuel, resume, catch_run}

-- A run that returns, returns a value with `P`.
abbrev pub Ensures : {W A : Type 0} → (A → Type 0) → Run W A → Type 0
Ensures P (ok a s) = P a
Ensures P (throw e s) = Unit
Ensures P undefined = Unit
Ensures P out_of_fuel = Unit

pub Ensures-any : {W A : Type 0} (r : Run W A) → Ensures (λ _. Unit) r
Ensures-any (ok a s) = tt
Ensures-any (throw e s) = tt
Ensures-any undefined = tt
Ensures-any out_of_fuel = tt

pub Ensures-resume :
    {W A B : Type 0} (P : A → Type 0) (Q : B → Type 0) (r : Run W A) (k : A → Cmd W B)
    → Ensures P r
    → ((a : A) (s : State W) → P a → Ensures Q (k a s))
    → Ensures Q (resume r k)
Ensures-resume P Q (ok a s) k h next = next a s h
Ensures-resume P Q (throw e s) k h next = tt
Ensures-resume P Q undefined k h next = tt
Ensures-resume P Q out_of_fuel k h next = tt

pub Ensures-if :
    {W B : Type 0} (Q : B → Type 0) (b : Bool) (c d : Cmd W B) (s : State W)
    → (b ≡ true → Ensures Q (c s))
    → (b ≡ false → Ensures Q (d s))
    → Ensures Q ((if b then c else d) s)
Ensures-if Q true c d s f g = f refl
Ensures-if Q false c d s f g = g refl

pub Ensures-catch :
    {W A : Type 0} (P : A → Type 0) (r : Run W A) (h : Exception → Cmd W A)
    → Ensures P r
    → ((e : Exception) (s : State W) → Ensures P (h e s))
    → Ensures P (catch_run r h)
Ensures-catch P (ok a s) h p handler = p
Ensures-catch P (throw e s) h p handler = handler e s
Ensures-catch P undefined h p handler = tt
Ensures-catch P out_of_fuel h p handler = tt

-- A run returns, with a value and a state that have `P`.
abbrev pub Returns : {W A : Type 0} → (A → State W → Type 0) → Run W A → Type 0
Returns P (ok a s) = P a s
Returns P (throw e s) = ⊥
Returns P undefined = ⊥
Returns P out_of_fuel = ⊥

pub Returns-map :
    {W A : Type 0} (P Q : A → State W → Type 0) (r : Run W A)
    → ((a : A) (s : State W) → P a s → Q a s)
    → Returns P r
    → Returns Q r
Returns-map P Q (ok a s) f h = f a s h
Returns-map P Q (throw e s) f h = h
Returns-map P Q undefined f h = h
Returns-map P Q out_of_fuel f h = h

pub Returns-resume :
    {W A B : Type 0} (P : A → State W → Type 0) (Q : B → State W → Type 0) (r : Run W A)
    (k : A → Cmd W B)
    → Returns P r
    → ((a : A) (s : State W) → P a s → Returns Q (k a s))
    → Returns Q (resume r k)
Returns-resume P Q (ok a s) k h next = next a s h
Returns-resume P Q (throw e s) k h next = absurd h
Returns-resume P Q undefined k h next = absurd h
Returns-resume P Q out_of_fuel k h next = absurd h

-- A run returns with `P`, or throws with `Q` of the state; `U` is what an undefined run and a run
-- without fuel have.
abbrev pub Ends :
    {W A : Type 0} → Type 0 → (A → State W → Type 0) → (State W → Type 0) → Run W A → Type 0
Ends U P Q (ok a s) = P a s
Ends U P Q (throw e s) = Q s
Ends U P Q undefined = U
Ends U P Q out_of_fuel = U

pub Ends-resume :
    {W A B : Type 0} (U : Type 0) (P : A → State W → Type 0) (P' : B → State W → Type 0)
    (Q : State W → Type 0) (r : Run W A) (k : A → Cmd W B)
    → Ends U P Q r
    → ((a : A) (s : State W) → P a s → Ends U P' Q (k a s))
    → Ends U P' Q (resume r k)
Ends-resume U P P' Q (ok a s) k h next = next a s h
Ends-resume U P P' Q (throw e s) k h next = h
Ends-resume U P P' Q undefined k h next = h
Ends-resume U P P' Q out_of_fuel k h next = h

pub Ends-if :
    {W B : Type 0} (U : Type 0) (P : B → State W → Type 0) (Q : State W → Type 0) (b : Bool)
    (c d : Cmd W B) (s : State W)
    → (b ≡ true → Ends U P Q (c s))
    → (b ≡ false → Ends U P Q (d s))
    → Ends U P Q ((if b then c else d) s)
Ends-if U P Q true c d s f g = f refl
Ends-if U P Q false c d s f g = g refl

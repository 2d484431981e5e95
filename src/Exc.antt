-- ===== src/Exc.antt =====
-- src/exc.h, and the runs of a program that throws: the exceptions of Pyflame, the state that its
-- functions change, and the commands over that state.
pub mod Post
pub mod Keeps
use pyflame.Common.{◌++◌, ℕ, Text, Bool, true, false}

-- `SymbolException` derives from `FatalException`; `generic` stands for any other `std::exception`.
pub data Exception : Type 0 where
  terminate_exception : Text → Exception
  fatal_exception : Text → Exception
  symbol_exception : Text → Exception
  ptrace_exception : Text → Exception
  generic_exception : Text → Exception

-- `exc.what()`
unfoldable pub what : Exception → Text
what (terminate_exception t) = t
what (fatal_exception t) = t
what (symbol_exception t) = t
what (ptrace_exception t) = t
what (generic_exception t) = t

-- `catch (const FatalException &)` takes a `SymbolException` too.
unfoldable pub is_fatal : Exception → Bool
is_fatal (fatal_exception t) = true
is_fatal (symbol_exception t) = true
is_fatal _ = false

-- `catch (const PtraceException &)`
unfoldable pub is_ptrace : Exception → Bool
is_ptrace (ptrace_exception t) = true
is_ptrace _ = false

-- The operating system with the traced process, the static variable `probe_` of ptrace.cc, and
-- what has been written to `std::cout` and to `std::cerr`.
pub record State (W : Type 0) : Type 0 where
  pub world : W
  pub probe : ℕ
  pub cout : Text
  pub cerr : Text

-- `undefined` is a failed `assert`, `abort()`, or a step that C++ leaves undefined.
pub data Run (W A : Type 0) : Type 0 where
  ok : A → State W → Run W A
  throw : Exception → State W → Run W A
  undefined : Run W A
  out_of_fuel : Run W A

abbrev pub Cmd : Type 0 → Type 0 → Type 0
Cmd W A = State W → Run W A

module _ {W : Type 0} where
  abbrev pub pure : {A : Type 0} → A → Cmd W A
  pure a s = ok a s

  abbrev pub raise : {A : Type 0} → Exception → Cmd W A
  raise e s = throw e s

  abbrev pub stuck : {A : Type 0} → Cmd W A
  stuck s = undefined

  abbrev pub no_fuel : {A : Type 0} → Cmd W A
  no_fuel s = out_of_fuel

  abbrev pub resume : {A B : Type 0} → Run W A → (A → Cmd W B) → Run W B
  resume (ok a s) k = k a s
  resume (throw e s) k = throw e s
  resume undefined k = undefined
  resume out_of_fuel k = out_of_fuel

  infixl 5 ◌>>=◌ ◌>>◌
  abbrev pub ◌>>=◌ : {A B : Type 0} → Cmd W A → (A → Cmd W B) → Cmd W B
  c >>= k = λ s. resume (c s) k

  abbrev pub ◌>>◌ : {A B : Type 0} → Cmd W A → Cmd W B → Cmd W B
  c >> d = c >>= λ _. d

  -- `std::cout << t` and `std::cerr << t`
  abbrev pub print_out : Text → Cmd W (Unit {0})
  print_out t s = ok tt (record s { cout = s.cout ++ t })

  abbrev pub print_err : Text → Cmd W (Unit {0})
  print_err t s = ok tt (record s { cerr = s.cerr ++ t })

  -- `try { c } catch (...)`, with the handler's own tests of the exception.
  abbrev pub catch_run : {A : Type 0} → Run W A → (Exception → Cmd W A) → Run W A
  catch_run (ok a s) h = ok a s
  catch_run (throw e s) h = h e s
  catch_run undefined h = undefined
  catch_run out_of_fuel h = out_of_fuel

  abbrev pub try : {A : Type 0} → Cmd W A → (Exception → Cmd W A) → Cmd W A
  try c h = λ s. catch_run (c s) h

  -- A destructor that throws nothing, run behind `c` on either way out.
  abbrev pub finally_run : {A : Type 0} → Run W A → Cmd W (Unit {0}) → Run W A
  finally_run (ok a s) d = resume (d s) (λ _. pure a)
  finally_run (throw e s) d = resume (d s) (λ _. raise e)
  finally_run undefined d = undefined
  finally_run out_of_fuel d = out_of_fuel

  abbrev pub finally : {A : Type 0} → Cmd W A → Cmd W (Unit {0}) → Cmd W A
  finally c d = λ s. finally_run (c s) d

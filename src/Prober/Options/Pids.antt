-- ===== src/Prober/Options/Pids.antt =====
-- What ParsePid accepts.
use pyflame.Common.Int.{ℤ, pos, negsuc, int_eq}
use pyflame.Common.{
  ℕ, ◌-◌, ◌^◌, ◌<◌, Text, decimal, strtol, strtol-decimal, false, ◌||◌, ◌≡◌, refl, arith, ltb, ◌==◌,
  Bool-cases, inl, inr,
}
use pyflame.Exc.Post.{Ensures}
use pyflame.Exc.{State, ok}
use pyflame.Prober.Options.{pid_of, parse_pid}

-- -1, or a positive `int`.
abbrev pub IsPid : ℤ → Type 0
IsPid (negsuc n) = n ≡ 0
IsPid (pos n) = (0 < n) × (n < 2 ^ 31)

pid_of-IsPid : (z : ℤ) → IsPid (pid_of z)
unfolding pid_of
pid_of-IsPid (negsuc n) = refl
pid_of-IsPid (pos n) = elim (Bool-cases (n == 0 || ltb (2 ^ 31 - 1) n)) [
  | inl e ↦ rw e refl
  | inr e ↦ rw e (ground arith)
]

abbrev pub PosPid : ℤ → Type 0
PosPid z = (n : ℕ) × (z ≡ pos n) × (0 < n) × (n < 2 ^ 31)

pub IsPid-PosPid : (z : ℤ) → IsPid z → int_eq z (negsuc 0) ≡ false → PosPid z
IsPid-PosPid (pos n) h ne = (n, refl, h.0, h.1)
IsPid-PosPid (negsuc n) h ne = ground arith

module _ {W : Type 0} where
  -- For every positive `int`, ParsePid reads its decimal form as that number, and prints nothing.
  pub parse_pid-decimal :
      (n : ℕ) (s : State W) → 0 < n → n < 2 ^ 31 → parse_pid (decimal n) s ≡ ok (pos n) s
  unfolding parse_pid pid_of
  parse_pid-decimal n s lo hi = rw (strtol-decimal n (omega arith)) (ground arith)

  -- For every text, ParsePid returns -1 or a positive `int`.
  pub parse_pid-IsPid : (t : Text) (s : State W) → Ensures IsPid (parse_pid t s)
  unfolding parse_pid
  parse_pid-IsPid t s = elim (Bool-cases (int_eq (pid_of (strtol t)) (negsuc 0))) [
    | inl e ↦ rw e refl
    | inr e ↦ rw e (pid_of-IsPid (strtol t))
  ]

-- ===== src/Prober/Options/Accepted.antt =====
-- What ParseOpts accepts.
use pyflame.Common.Int.{ℤ, pos, negsuc, int_eq, int_eq→eq}
use pyflame.Common.{
  ℕ, ◌+◌, ◌^◌, ◌<◌, Text, strtol, true, false, Option, none, some, List, [], ◌∷◌, ◌≡◌, refl, ◌==◌,
  if◌then◌else◌, length, get_elem?, Bool-cases, inl, inr, Option-cases,
}
use pyflame.Exc.Post.{Ensures, Ensures-resume, Ensures-if}
use pyflame.Exc.{State, Cmd, ok, resume}
use pyflame.Prober.Options.{
  Flag, abi, dump, help, threads, pid, rate, seconds, trace, flamechart, version, exclude_idle,
  output, no_line_numbers, invalid, other, stod_or_throw, show_version, parse_abi, Event, Next,
  Parsed, exits, again, finish, returns, parsed, parse_pid, parse_event, parse_events, finish_trace,
  legacy_pid, finish_attach, parse_opts,
}
use pyflame.Prober.{Doubles, Build, Prober}
use pyflame.Prober.Options.Pids.{IsPid, IsPid-PosPid, parse_pid-IsPid}

-- `p` is ready to be traced: with -t there is no other source of a PID, and the target is an
-- argument; otherwise the PID is a positive `int`.
abbrev pub IsReady : {D : Type 0} → List Text → Prober D → Type 0
IsReady argv p = elim p.trace [
  | true ↦
      (p.dump ≡ false) × (p.pid ≡ negsuc 0) × ((i : ℕ) × (get_elem? argv i ≡ some p.trace_target))
  | false ↦ (n : ℕ) × (p.pid ≡ pos n) × (0 < n) × (n < 2 ^ 31)
]

abbrev IsCode : ℤ → Type 0
IsCode c = int_eq c (negsuc 0) ≡ false

abbrev NextOk : {D : Type 0} → Next D → Type 0
NextOk (exits c) = IsCode c
NextOk (again p) = IsPid p.pid × (p.trace ≡ false)
NextOk (finish p) = IsPid p.pid

abbrev ParsedOk : {D : Type 0} → Parsed D → Type 0
ParsedOk (returns c) = IsCode c
ParsedOk (parsed p i) = IsPid p.pid

abbrev DoneOk : {D : Type 0} → List Text → Option ℤ × Prober D → Type 0
DoneOk argv r = elim r.0 [ none ↦ IsReady argv r.1 | some c ↦ IsCode c ]

-- -1 comes with an object that is ready.
abbrev Accepts : {D : Type 0} → List Text → ℤ × Prober D → Type 0
Accepts argv r = int_eq r.0 (negsuc 0) ≡ true → IsReady argv r.1

module _ {W D : Type 0} (fl : Doubles D) (build : Build) where
  parse_event-flag :
      (f : Flag) (arg : Text) (i : ℕ) (p : Prober D) (s : State W)
      → IsPid p.pid
      → p.trace ≡ false
      → Ensures NextOk (parse_event fl build (record { flag = f; optarg = arg; optind = i }) p s)
  unfolding parse_event show_version stod_or_throw
  parse_event-flag abi arg i p s h off = elim (Option-cases (parse_abi (strtol arg))) [
    | inl e ↦ rw (e, parse_event) refl
    | inr (a, e) ↦ rw (e, parse_event) (h, off)
  ]
  parse_event-flag dump arg i p s h off = (h, off)
  parse_event-flag help arg i p s h off = refl
  parse_event-flag threads arg i p s h off = (h, off)
  parse_event-flag pid arg i p s h off =
      Ensures-resume IsPid NextOk (parse_pid arg s) _ (parse_pid-IsPid arg s) λ n t is.
        elim (Bool-cases (int_eq n (negsuc 0))) [ inl e ↦ rw e refl | inr e ↦ rw e (is, off) ]
  parse_event-flag rate arg i p s h off = elim (Option-cases (fl.stod arg)) [
    | inl e ↦ rw (e, stod_or_throw) tt
    | inr (a, e) ↦ rw (e, stod_or_throw) (h, off)
  ]
  parse_event-flag seconds arg i p s h off = elim (Option-cases (fl.stod arg)) [
    | inl e ↦ rw (e, stod_or_throw) tt
    | inr (a, e) ↦ rw (e, stod_or_throw) (h, off)
  ]
  parse_event-flag trace arg i p s h off = h
  parse_event-flag flamechart arg i p s h off = (h, off)
  parse_event-flag version arg i p s h off = refl
  parse_event-flag exclude_idle arg i p s h off = (h, off)
  parse_event-flag output arg i p s h off = (h, off)
  parse_event-flag no_line_numbers arg i p s h off = (h, off)
  parse_event-flag invalid arg i p s h off = (h, off)
  parse_event-flag other arg i p s h off = tt

  parse_events-ParsedOk :
      (events : List Event) (i : ℕ) (p : Prober D) (s : State W)
      → IsPid p.pid
      → p.trace ≡ false
      → Ensures ParsedOk (parse_events fl build events i p s)
  unfolding parse_events
  parse_events-ParsedOk [] i p s h off = h
  parse_events-ParsedOk (e ∷ events) i p s h off =
      Ensures-resume NextOk ParsedOk (parse_event fl build e p s) _
        (parse_event-flag e.flag e.optarg e.optind p s h off)
        λ next t fine.
          after next t fine (λ p' u h' off'. parse_events-ParsedOk events i p' u h' off')
    where
      after :
          (next : Next D) (t : State W)
          → NextOk next
          → ((p' : Prober D) (u : State W)
              → IsPid p'.pid
              → p'.trace ≡ false
              → Ensures ParsedOk (parse_events fl build events i p' u))
          → Ensures ParsedOk (
              (elim next as (λ _. Cmd W (Parsed D)) [
                | exits code ↦ λ u. ok (returns code) u
                | again p' ↦ parse_events fl build events i p'
                | finish p' ↦ λ u. ok (parsed p' e.optind) u
              ])
                t)
      after (exits code) t fine rec = fine
      after (again p') t fine rec = rec p' t fine.0 fine.1
      after (finish p') t fine rec = fine

  finish_trace-DoneOk :
      (argv : List Text) (i : ℕ) (p : Prober D) (s : State W)
      → p.trace ≡ true
      → Ensures (DoneOk argv) (finish_trace fl build argv i p s)
  unfolding finish_trace
  finish_trace-DoneOk argv i p s on = elim (Bool-cases p.dump) [
    | inl d ↦ rw d refl
    | inr d ↦ elim (Bool-cases (int_eq p.pid (negsuc 0))) [
      | inr e ↦ rw (d, e) refl
      | inl e ↦ elim (Bool-cases (i == length argv)) [
        | inl f ↦ rw (d, e, f) refl
        | inr f ↦ elim (Option-cases (get_elem? argv i)) [
          | inl g ↦ rw (d, e, f, g, finish_trace) tt
          | inr (target, g) ↦
              rw (d, e, f, g, finish_trace, on) (d, int_eq→eq p.pid (negsuc 0) e, (i, g))
        ]
      ]
    ]
  ]

  legacy_pid-IsPid :
      (argv : List Text) (i : ℕ) (s : State W) → Ensures IsPid (legacy_pid fl build argv i s)
  unfolding legacy_pid
  legacy_pid-IsPid argv i s = elim (Bool-cases (i + 1 == length argv)) [
    | inr e ↦ rw e refl
    | inl e ↦ elim (Option-cases (get_elem? argv i)) [
      | inl g ↦ rw (e, g, legacy_pid) tt
      | inr (t, g) ↦ rw (e, g, legacy_pid) (parse_pid-IsPid t s)
    ]
  ]

  finish_attach-DoneOk :
      (argv : List Text) (i : ℕ) (p : Prober D) (s : State W)
      → IsPid p.pid
      → p.trace ≡ false
      → Ensures (DoneOk argv) (finish_attach fl build argv i p s)
  unfolding finish_attach
  finish_attach-DoneOk argv i p s h off = elim (Bool-cases (int_eq p.pid (negsuc 0))) [
    | inr e ↦ rw (e, off) (IsPid-PosPid p.pid h e)
    | inl e ↦ rw e (
        Ensures-resume IsPid (DoneOk argv) (legacy_pid fl build argv i s) _
          (legacy_pid-IsPid argv i s)
          λ n t is. elim (Bool-cases (int_eq n (negsuc 0))) [
            | inl f ↦ rw f refl
            | inr f ↦ rw (f, off) (IsPid-PosPid n is f)
          ])
  ]

  finish-DoneOk :
      (argv : List Text) (i : ℕ) (p : Prober D) (s : State W)
      → IsPid p.pid
      → Ensures
          (DoneOk argv)
          ((if p.trace then finish_trace fl build argv i p else finish_attach fl build argv i p) s)
  finish-DoneOk argv i p s h =
      Ensures-if (DoneOk argv) p.trace _ _ s (λ on. finish_trace-DoneOk argv i p s on)
        (λ off. finish_attach-DoneOk argv i p s h off)

  parse_opts-Accepts :
      (argv : List Text) (events : List Event) (i : ℕ) (p : Prober D) (s : State W)
      → IsPid p.pid
      → p.trace ≡ false
      → Ensures (Accepts argv) (parse_opts fl build argv events i p s)
  unfolding parse_opts
  parse_opts-Accepts argv events i p s h off =
      Ensures-resume ParsedOk (Accepts argv) (parse_events fl build events i p s) _
        (parse_events-ParsedOk events i p s h off) last
    where
      close :
          (c : Option ℤ) (q : Prober D) (t : State W)
          → DoneOk argv (c, q)
          → Ensures (Accepts argv) (
              (elim c as (λ _. Cmd W (ℤ × Prober D)) [
                | some code ↦ λ u. ok (code, q) u
                | none ↦
                    λ u. ok (negsuc 0, record q { interval = fl.to_microseconds q.sample_rate }) u
              ])
                t)
      close (some code) q t is = λ e. cc
      close none q t is = λ e. is

      last :
          (r : Parsed D) (t : State W)
          → ParsedOk r
          → Ensures (Accepts argv) (
              (elim r as (λ _. Cmd W (ℤ × Prober D)) [
                | returns code ↦ λ u. ok (code, p) u
                | parsed q j ↦ λ u.
                    resume
                      ((if q.trace
                          then finish_trace fl build argv j q
                          else finish_attach fl build argv j q)
                        u)
                      (λ done. elim done.0 [
                        | some code ↦ λ v. ok (code, done.1) v
                        | none ↦ λ v.
                            ok
                              (
                                negsuc 0,
                                record (done.1) {
                                  interval = fl.to_microseconds done.1.sample_rate;
                                },
                              )
                              v
                      ])
              ])
                t)
      last (returns code) t is = λ e. cc
      last (parsed q j) t is =
          Ensures-resume (DoneOk argv) (Accepts argv) _ _ (finish-DoneOk argv j q t is)
            (λ done u fine. close done.0 done.1 u fine)

  -- From an object without -t whose PID is -1 or a positive `int`, when ParseOpts returns -1 the
  -- program has one target: with -t, a command that stands among the arguments, and then neither -d
  -- nor -p was given; otherwise a PID that is a positive `int`.
  pub parse_opts-IsReady :
      (argv : List Text) (events : List Event) (i : ℕ) (p q : Prober D) (s t : State W)
      → IsPid p.pid
      → p.trace ≡ false
      → parse_opts fl build argv events i p s ≡ ok (negsuc 0, q) t
      → IsReady argv q
  parse_opts-IsReady argv events i p q s t h off e =
      (rw e at (parse_opts-Accepts argv events i p s h off)) refl

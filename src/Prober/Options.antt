-- ===== src/Prober/Options.antt =====
-- ParsePid and ParseOpts of src/prober.cc.
pub mod Pids
pub mod Accepted
use pyflame.Common.Int.{ℤ, pos, negsuc, int_eq, decimal_ℤ}
use pyflame.Common.{
  ℕ, suc, ◌+◌, ◌-◌, ◌^◌, Text, codes, decimal, strtol, Bool, true, false, not, ◌&&◌, ◌||◌, Option,
  none, some, List, [], ◌∷◌, ◌++◌, ltb, leb, ◌==◌, if◌then◌else◌, length, get_elem?,
}
use pyflame.Exc.{
  State, Cmd, generic_exception, pure, raise, stuck, ◌>>=◌, ◌>>◌, print_out, print_err,
}
use pyflame.Os.{Pid}
use pyflame.Prober.{Doubles, Build, Prober}
use pyflame.Symbol.Addresses.{PyAbi, py26, py34, py36}

-- The case labels: `abi` is 'a', `threads` 'L', `flamechart` 'T', `invalid` '?', and `other` any
-- value without a label.
pub data Flag : Type 0 where
  abi dump help threads pid rate seconds trace flamechart version exclude_idle output : Flag
  no_line_numbers invalid other : Flag

-- What a call of getopt_long(3) returns, with the `optarg` and the `optind` that it leaves.
pub record Event : Type 0 where
  pub flag : Flag
  pub optarg : Text
  pub optind : ℕ

-- The switch leaves the loop by `return`, goes round again, or jumps to `finish_arg_parse`.
pub data Next (D : Type 0) : Type 0 where
  exits : ℤ → Next D
  again : Prober D → Next D
  finish : Prober D → Next D

pub data Parsed (D : Type 0) : Type 0 where
  returns : ℤ → Parsed D
  parsed : Prober D → ℕ → Parsed D

unfoldable pub parse_abi : ℤ → Option PyAbi
parse_abi (negsuc n) = none
parse_abi (pos n) =
    if n == 26 || n == 27
    then some py26
    else if n == 34 || n == 35
    then some py34
    else if n == 36
    then some py36
    else none

-- The number as a PID, if it is positive and an `int`.
pub pid_of : ℤ → Pid
pid_of (negsuc n) = negsuc 0
pid_of (pos n) = if n == 0 || ltb (2 ^ 31 - 1) n then negsuc 0 else pos n

unfoldable pub print_abis : List ℕ → Text
print_abis [] = []
print_abis (a ∷ []) = decimal a ++ codes ")\n"
print_abis (a ∷ b ∷ abis) = decimal a ++ (codes " " ++ print_abis (b ∷ abis))

-- `usage_str`, built with ENABLE_THREADS.
unfoldable pub usage_str : Text
usage_str =
    codes "Usage: pyflame [options] [-p] PID\n"
    ++ (codes "       pyflame [options] -t command arg1 arg2...\n"
        ++ (codes "\nCommon Options:\n"
            ++ (codes "  --threads                Enable multi-threading support\n"
                ++ (codes
                      "  -d, --dump               Dump stacks from all threads (implies --threads)\n"
                    ++ (codes "  -h, --help               Show help\n"
                        ++ (codes
                              "  -n, --no-line-numbers    Do not append line numbers to function names\n"
                            ++ (codes "  -o, --output=PATH        Output to file path\n"
                                ++ (codes "  -p, --pid=PID            The PID to trace\n"
                                    ++ (codes
                                          "  -r, --rate=RATE          Sample rate, as a fractional value of seconds "
                                        ++ (codes "(default 0.01)\n"
                                            ++ (codes
                                                  "  -s, --seconds=SECS       How many seconds to run for (default 1)\n"
                                                ++ (codes
                                                      "  -t, --trace              Trace a child process\n"
                                                    ++ (codes
                                                          "  -v, --version            Show the version\n"
                                                        ++ (codes
                                                            "  -x, --exclude-idle       Exclude idle time from statistics\n"
                                                            ++ (codes "\nAdvanced Options:\n"
                                                            ++ (codes
                                                            "  --abi                    Force a particular Python ABI (26, 34, 36)\n"
                                                            ++ (codes
                                                            "  --flamechart             Include timestamps for generating Chrome "
                                                            ++ codes
                                                            "\"flamecharts\"\n")))))))))))))))))

module _ {W : Type 0} where
  pub parse_pid : Text → Cmd W Pid
  parse_pid pid_str =
      if int_eq (pid_of (strtol pid_str)) (negsuc 0)
      then print_err (codes "Error: failed to parse \"" ++ (pid_str ++ codes "\" as a PID.\n\n"))
        >> pure (negsuc 0)
      else pure (pid_of (strtol pid_str))

  pub show_version : Build → Cmd W (Unit {0})
  show_version build = print_out (build.version ++ (codes " (ABI list: " ++ print_abis build.abis))

  -- `std::stod(optarg)`
  pub stod_or_throw : {D : Type 0} → Doubles D → Text → Cmd W D
  stod_or_throw fl t = elim (fl.stod t) [
    | none ↦ raise (generic_exception (codes "stod"))
    | some d ↦ pure d
  ]

module _ {W D : Type 0} (fl : Doubles D) (build : Build) where
  -- The body of the loop.
  unfoldable pub parse_event : Event → Prober D → Cmd W (Next D)
  parse_event e p = elim e.flag [
    | abi ↦ elim (parse_abi (strtol e.optarg)) [
      | none ↦ do
        print_err (
            codes "Unknown or unsupported ABI version: "
            ++ (decimal_ℤ (strtol e.optarg) ++ codes "\n"))
        pure (exits (pos 1))
      | some a ↦ pure (again (record p { abi = a }))
    ]
    | dump ↦ pure (again (record p { dump = true; enable_threads = true }))
    | help ↦ do print_out (build.version ++ (codes "\n\n" ++ usage_str)); pure (exits (pos 0))
    | threads ↦ pure (again (record p { enable_threads = true }))
    | pid ↦ do
      n ← parse_pid e.optarg
      if int_eq n (negsuc 0) then pure (exits (pos 1)) else pure (again (record p { pid = n }))
    | rate ↦ do d ← stod_or_throw fl e.optarg; pure (again (record p { sample_rate = d }))
    | seconds ↦ do d ← stod_or_throw fl e.optarg; pure (again (record p { seconds = d }))
    | trace ↦ pure (finish (record p { trace = true; seconds = fl.minus_one }))
    | flamechart ↦ pure (again (record p { include_ts = true }))
    | version ↦ do show_version build; pure (exits (pos 0))
    | exclude_idle ↦ pure (again (record p { include_idle = false }))
    | output ↦ pure (again (record p { output_file = e.optarg }))
    | no_line_numbers ↦ pure (again (record p { include_line_number = false }))
    | invalid ↦ pure (again p)
    | other ↦ stuck
  ]

  -- `last_optind` is the `optind` with which getopt_long returns -1.
  unfoldable pub parse_events : List Event → ℕ → Prober D → Cmd W (Parsed D)
  parse_events [] last_optind p = pure (parsed p last_optind)
  parse_events (e ∷ events) last_optind p = do
    next ← parse_event e p
    elim next [
      | exits code ↦ pure (returns code)
      | again p' ↦ parse_events events last_optind p'
      | finish p' ↦ pure (parsed p' e.optind)
    ]

  -- The part behind `finish_arg_parse`, up to the last two lines; `none` goes on to them.
  pub finish_trace : List Text → ℕ → Prober D → Cmd W (Option ℤ × Prober D)
  finish_trace argv optind p =
      if p.dump
      then print_err (codes "Options -t and -d are not mutually compatible.\n")
        >> pure (some (pos 1), p)
      else if not (int_eq p.pid (negsuc 0))
      then print_err (codes "Options -t and -p are not mutually compatible.\n")
        >> pure (some (pos 1), p)
      else if optind == length argv
      then print_err (codes "Option -t requires a command to run.\n\n")
        >> (print_err usage_str >> pure (some (pos 1), p))
      else elim (get_elem? argv optind) [
        | none ↦ stuck
        | some target ↦ pure (none, record p { trace_target = target })
      ]

  -- The PID as the last argument.
  pub legacy_pid : List Text → ℕ → Cmd W Pid
  legacy_pid argv optind =
      if not (optind + 1 == length argv)
      then pure (negsuc 0)
      else elim (get_elem? argv optind) [ none ↦ stuck | some t ↦ parse_pid t ]

  unfoldable pub finish_attach : List Text → ℕ → Prober D → Cmd W (Option ℤ × Prober D)
  finish_attach argv optind p = if not (int_eq p.pid (negsuc 0)) then pure (none, p) else (do
    n ← legacy_pid argv optind
    if int_eq n (negsuc 0)
        then print_err usage_str >> pure (some (pos 1), record p { pid = n })
        else (do
          print_err (
              codes "WARNING: Specifying a PID to trace without -p is deprecated; "
              ++ codes "see Pyflame issue #99 for details.\n")
          pure (none, record p { pid = n })))

  -- The return value, -1 to go on, and the object; an early return of the loop leaves it unused.
  unfoldable pub parse_opts : List Text → List Event → ℕ → Prober D → Cmd W (ℤ × Prober D)
  parse_opts argv events last_optind p = do
    r ← parse_events events last_optind p
    elim r [
      | returns code ↦ pure (code, p)
      | parsed p' optind ↦ do
        done ← (if p'.trace then finish_trace argv optind p' else finish_attach argv optind p')
        elim done.0 [
          | some code ↦ pure (code, done.1)
          | none ↦
              pure (negsuc 0, record (done.1) { interval = fl.to_microseconds done.1.sample_rate })
        ]
    ]

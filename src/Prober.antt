-- ===== src/Prober.antt =====
-- src/prober.h and src/prober.cc: the options, the sampling loop and the reports.
pub mod Initiate
pub mod Loop
pub mod Options
pub mod Report
use pyflame.Common.Int.{ℤ, pos, negsuc}
use pyflame.Common.{ℕ, Text, Bool, true, false, Option, List, []}
use pyflame.Os.{Pid}
use pyflame.Symbol.Addresses.{PyAbi, unknown}

-- The type `double`, with what the code does with it. `stod` fails where `std::stod` throws.
pub record Doubles (D : Type 0) : Type 0 where
  pub one : D
  pub hundredth : D
  pub minus_one : D
  pub stod : Text → Option D
  -- `static_cast<long>(val * 1000000)`
  pub to_microseconds : D → ℤ
  -- `val >= 0`
  pub is_nonneg : D → Bool

-- What configure fixes: PYFLAME_VERSION_STR, and the ABIs for which Python.h was found. The build
-- has ENABLE_THREADS.
pub record Build : Type 0 where
  pub version : Text
  pub abis : List ℕ

-- The fields of the class; times are in microseconds.
pub record Prober (D : Type 0) : Type 0 where
  pub abi : PyAbi
  pub pid : Pid
  pub dump : Bool
  pub trace : Bool
  pub include_idle : Bool
  pub include_ts : Bool
  pub include_line_number : Bool
  pub enable_threads : Bool
  pub seconds : D
  pub sample_rate : D
  pub interval : ℤ
  pub output_file : Text
  pub trace_target : Text

-- The constructor; `interval_` is first set by ParseOpts.
unfoldable pub new_prober : {D : Type 0} → Doubles D → Prober D
new_prober fl = record {
  abi = unknown;
  pid = negsuc 0;
  dump = false;
  trace = false;
  include_idle = true;
  include_ts = false;
  include_line_number = true;
  enable_threads = false;
  seconds = fl.one;
  sample_rate = fl.hundredth;
  interval = pos 0;
  output_file = [];
  trace_target = [];
}

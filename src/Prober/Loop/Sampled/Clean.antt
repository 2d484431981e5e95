-- ===== src/Prober/Loop/Sampled/Clean.antt =====
-- The report of ProbeLoop of src/prober.cc on the threads that GetThreads of src/frob.cc reads.
use mathlib.Core.List.{Permᴰ, append-nil}
use mathlib.Core.Path.{subst}
use pyflame.Common.Int.{ℤ}
use pyflame.Common.{ℕ, Text, Bool, false, none, some, List, ◌≡◌, sym, ap, ◌∙◌}
use pyflame.Exc.Post.{Ensures, Ends}
use pyflame.Exc.{State, Cmd, Run, ok, throw, undefined, out_of_fuel, stuck}
use pyflame.Frob.Layout.{Version, Layout}
use pyflame.Frob.Threads.Full.{AllFull, get_threads-AllFull}
use pyflame.Frob.Threads.{get_threads}
use pyflame.Os.{Os, Pid}
use pyflame.Prober.Loop.Sampled.Printed.{HaveFrames, printed, report-printed}
use pyflame.Prober.Loop.Sampled.Rounds.{
  Rounds, sampled, unread, unpaused, timed_out, left, left_later, LoopRounds, outcome,
}
use pyflame.Prober.Loop.Sampled.Told.{Reports, probe_loop-Reports}
use pyflame.Prober.Loop.Sampled.{Event}
use pyflame.Prober.Loop.{probe_loop}
use pyflame.Prober.Report.{Buckets}
use pyflame.Prober.{Doubles, Prober}
use pyflame.PyFrob.{PyFrob, frob_threads}
use pyflame.Symbol.Addresses.{PyAddresses}
use pyflame.Thread.{Thread}

ok-value : {W A : Type 0} (a b : A) (s t : State W) → ok a s ≡ ok b t → a ≡ b
ok-value a b s t e = cc

ok-state : {W A : Type 0} (a b : A) (s t : State W) → ok a s ≡ ok b t → s ≡ t
ok-state a b s t e = cc

module _ {W D : Type 0} (os : Os W) (fl : Doubles D) (wait_fuel : ℕ) (p : Prober D)
    (get_threads : Cmd W (List Thread)) where
  -- A run of ProbeLoop that returns ends where its history of rounds does, with the code of the
  -- last round and the report on its events.
  pub Prints : (Buckets → Buckets) → State W → Run W (ℤ × Text) → Type 0
  Prints order s r =
      Ends (Unit {0})
        (λ a t.
          (es : List Event) × LoopRounds os fl wait_fuel p get_threads s a.0 es t
          × (a.1 ≡ printed order p es))
        (λ _. Unit {0}) r

module _ {W D : Type 0} (os : Os W) (fl : Doubles D) (wait_fuel : ℕ) (p : Prober D)
    (get_threads : Cmd W (List Thread))
    (full : (u : State W) → Ensures AllFull (get_threads u)) where
  seen-AllFull : (u v : State W) (ts : List Thread) → get_threads u ≡ ok ts v → AllFull ts
  seen-AllFull u v ts e = rw e at (full u)

  Rounds-HaveFrames :
      (check_end : Bool) (end : ℕ) (s : State W) (code : ℤ) (es : List Event) (t : State W)
      → Rounds os fl wait_fuel p get_threads check_end end s code es t
      → HaveFrames es
  Rounds-HaveFrames c end s code _ t (sampled {u} {v} {es} ts g o z rest) =
      (seen-AllFull _ u ts g, Rounds-HaveFrames c end v code es t rest)
  Rounds-HaveFrames c end s code _ t (unread {es} m g rest) =
      Rounds-HaveFrames c end _ code es t rest
  Rounds-HaveFrames c end s code _ t (unpaused {u} {es} ts m g o z rest) =
      (seen-AllFull _ u ts g, Rounds-HaveFrames c end _ code es t rest)
  Rounds-HaveFrames c end s code _ t (timed_out ts g o) = (seen-AllFull _ t ts g, tt)
  Rounds-HaveFrames c end s code _ t (left e g l) = tt
  Rounds-HaveFrames c end s code _ t (left_later {u} ts e g o z l) = (seen-AllFull _ u ts g, tt)

  Reports-Prints :
      (order : Buckets → Buckets) (s : State W) (r : Run W (ℤ × Text))
      → ((buckets : Buckets) → Permᴰ buckets (order buckets))
      → p.include_ts ≡ false
      → Reports os fl wait_fuel p get_threads order s r
      → Prints os fl wait_fuel p get_threads order s r
  unfolding Prints
  Reports-Prints order s (ok a t) permutes plain (es, u, rounds, e) =
      let full_es = Rounds-HaveFrames _ _ _ a.0 es u rounds in
      let shown = sym (outcome-printed a.0 es u full_es) ∙ e in
      let same : u ≡ t = ok-state _ _ u t shown in
      (
        es,
        subst (λ (x : State W). LoopRounds os fl wait_fuel p get_threads s a.0 es x) same rounds,
        sym (ap (λ (x : ℤ × Text). x.1) (ok-value _ _ u t shown)),
      )
    where
      outcome-printed :
          (code : ℤ) (es : List Event) (u : State W)
          → HaveFrames es
          → outcome os fl wait_fuel p get_threads order code es u ≡ ok (code, printed order p es) u
      outcome-printed code es u h = rw (report-printed p order permutes es plain h, append-nil)
  Reports-Prints order s (throw e t) permutes plain h = tt
  Reports-Prints order s undefined permutes plain h = tt
  Reports-Prints order s out_of_fuel permutes plain h = tt

module _ {W D : Type 0} (os : Os W) (fl : Doubles D) (wait_fuel : ℕ) (p : Prober D)
    (layout : Version → Layout) (rounds depth words : ℕ) where
  -- The GetThreads of each ABI.
  abbrev pub read_threads : Version → Pid → PyAddresses → Bool → Cmd W (List Thread)
  read_threads v pid addrs enable_threads =
      get_threads os v (layout v) depth words pid rounds addrs enable_threads

  frob_threads-AllFull :
      (f : PyFrob) (u : State W) → Ensures AllFull (frob_threads read_threads f u)
  unfolding frob_threads
  frob_threads-AllFull f u =
      elim f.get_threads
        as (λ o. Ensures AllFull (
          (elim o as (λ _. Cmd W (List Thread)) [
            | none ↦ stuck
            | some v ↦ read_threads v f.pid f.addrs f.enable_threads
          ])
            u)) [
              | none ↦ tt
              | some v ↦
                  get_threads-AllFull os v (layout v) depth words f.pid rounds f.addrs
                    f.enable_threads u
            ]

  -- Whatever the memory of the process holds and whatever the process does, where no time stamps
  -- are asked for and the table is gone through in some order, when ProbeLoop on GetThreads returns
  -- there is a history of rounds that ends in the state that ProbeLoop ends in, with the code that
  -- it returns, and what it writes is the counts of idle and failed rounds and the lines of the
  -- stacks of that history; PrintFrames meets no stack without a frame and writes nothing to
  -- `std::cerr`.
  pub probe_loop-Prints :
      (f : PyFrob) (order : Buckets → Buckets) (fuel : ℕ) (s : State W)
      → ((buckets : Buckets) → Permᴰ buckets (order buckets))
      → p.include_ts ≡ false
      → Prints os fl wait_fuel p
          (frob_threads read_threads f)
          order
          s
          (probe_loop os fl wait_fuel p (frob_threads read_threads f) order fuel s)
  probe_loop-Prints f order fuel s permutes plain =
      Reports-Prints os fl wait_fuel p (frob_threads read_threads f) (frob_threads-AllFull f) order
        s _ permutes plain
        (probe_loop-Reports os fl wait_fuel p (frob_threads read_threads f) order fuel s)

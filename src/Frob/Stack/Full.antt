-- ===== src/Frob/Stack/Full.antt =====
-- A stack that FollowFrame returns has a frame, whatever the memory holds.
use pyflame.Common.{ℕ, zero, suc, [], ◌∷◌, ◌++◌, ◌==◌}
use pyflame.Exc.Post.{Ensures, Ensures-resume, Ensures-if, Ensures-any}
use pyflame.Exc.{State}
use pyflame.Frame.{Frame, Frames}
use pyflame.Frob.Layout.{Version, Layout}
use pyflame.Frob.Stack.{read_frame, follow_frame}
use pyflame.Os.{Os, Pid}
use pyflame.Prober.Report.Buckets.{HasFrames}

HasFrames-append : (stack : Frames) (f : Frame) → HasFrames (stack ++ f ∷ [])
HasFrames-append [] f = tt
HasFrames-append (g ∷ gs) f = tt

module _ {W : Type 0} (os : Os W) (v : Version) (l : Layout) where
  pub follow_frame-HasFrames :
      (depth fuel : ℕ) (pid : Pid) (frame : ℕ) (stack : Frames) (s : State W)
      → Ensures HasFrames (follow_frame os v l depth fuel pid frame stack s)
  unfolding follow_frame
  follow_frame-HasFrames zero fuel pid frame stack s = tt
  follow_frame-HasFrames (suc depth) fuel pid frame stack s =
      let ih =
        λ (a : ℕ) (st : Frames) (t : State W). follow_frame-HasFrames depth fuel pid a st t in
      Ensures-resume (λ _. Unit) HasFrames (read_frame os v l fuel pid frame s) _
        (Ensures-any (read_frame os v l fuel pid frame s))
        (λ r t _.
          Ensures-if HasFrames (r.1 == 0) _ _ t (λ _. HasFrames-append stack r.0)
            (λ _. ih r.1 (stack ++ (r.0 ∷ [])) t))

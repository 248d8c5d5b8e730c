-- ===== src/Tcp/Timer/Turn.antt =====
-- A turn of the manager: `ExecuteAllTimeoutTimer`.
use restful_cweb.Prelude.{ℕ, Bool, true, false, List, [], ◌∷◌, ◌++◌}
use restful_cweb.Tcp.Timer.{Timer, called, pretend_execute}

-- The timers that are put back, as their execution leaves them, and the callbacks made.
abbrev pub returning : Bool × Timer → List Timer → List Timer
returning (true, t) ts = t ∷ ts
returning (false, t) ts = ts

abbrev pub put_back : List Timer → List Timer
unfolding pretend_execute
put_back [] = []
put_back (t ∷ ts) = returning (pretend_execute t) (put_back ts)

abbrev pub calls_of : List Timer → List ℕ
calls_of [] = []
calls_of (t ∷ ts) = called t ++ calls_of ts

-- ===== src/Tests/Timers.antt =====
-- Tests of the model of src/tcpserver/timer.cc.
use restful_cweb.Prelude.{ℕ, false, [], ◌∷◌, some, pos}
use restful_cweb.Tcp.Timer.{Timer, Timers}

abbrev timer : ℕ → ℕ → Timer
timer time n = record {
  cancelled = false;
  execution_time = time;
  interval = 5;
  repeats = pos 2;
  callback = some n;
}

abbrev queue : Timers
queue = timer 10 1 ∷ timer 30 2 ∷ timer 20 3 ∷ []

-- ===== src/Tcp/Timer.antt =====
-- `Timer` and `TimerManager` of src/tcpserver/timer.h and src/tcpserver/timer.cc. Times are
-- microseconds since the epoch and stay below 2 ^ 63, so that comparing them as `int64_t` is
-- comparing numbers. `Time::Now()` is an argument, which gives for each call what it returns.
pub mod Due
pub mod Turn
use restful_cweb.Prelude.{
  ℕ, zero, suc, ◌+◌, ◌-◌, ◌*◌, ◌^◌, ◌%◌, Bool, true, false, List, [], ◌∷◌, ◌++◌, ltb, ◌==◌, ◌||◌,
  if◌then◌else◌, Option, none, some, length, ℤ, pos, negsuc, increment, decrement,
}
use restful_cweb.Util.PriorityQueue.{at, key_at, push, pop}

-- The callback by its number; `none` is an empty function.
pub record Timer : Type 0 where
  pub cancelled : Bool
  pub execution_time : ℕ
  pub interval : ℕ
  pub repeats : ℤ
  pub callback : Option ℕ

unfoldable pub new_timer : ℕ → ℕ → Option ℕ → ℤ → Timer
new_timer now interval callback repeats = record {
  cancelled = false;
  execution_time = (now + interval * 1000 * 1000 % 2 ^ 64) % 2 ^ 64;
  interval = interval;
  repeats = repeats;
  callback = callback;
}

-- `executionTime_ += interval_ * 1000`.
abbrev pub postpone : Timer → Timer
postpone t = record t { execution_time = (t.execution_time + t.interval * 1000 % 2 ^ 64) % 2 ^ 64 }

-- What follows `--repeats_`: whether the timer goes on, and the timer.
abbrev pub go_on : ℤ → Timer → Bool × Timer
go_on (pos zero) t = (false, record t { repeats = pos zero })
go_on (pos (suc n)) t = (true, postpone (record t { repeats = pos (suc n) }))
go_on (negsuc n) t = (true, postpone (record t { repeats = increment (negsuc n) }))

unfoldable pub pretend_execute : Timer → Bool × Timer
pretend_execute t = if t.cancelled then (false, t) else go_on (decrement t.repeats) t

-- `Execute`, with the callbacks that it makes.
abbrev pub called : Timer → List ℕ
called t = if t.cancelled then [] else elim t.callback [ none ↦ [] | some n ↦ n ∷ [] ]

unfoldable pub execute : Timer → List ℕ × (Bool × Timer)
unfolding pretend_execute
execute t = (called t, pretend_execute t)

abbrev pub cancel : Timer → Timer
cancel t = record t { cancelled = true }

-- What a read outside of the heap would give; there is none.
abbrev pub no_timer : Timer
no_timer = record {
  cancelled = true;
  execution_time = 0;
  interval = 0;
  repeats = pos 0;
  callback = none;
}

abbrev pub time_of : Timer → ℕ
time_of t = t.execution_time

abbrev pub Timers : Type 0
Timers = List Timer

unfoldable pub add_timer : Timer → Timers → Timers
add_timer t q = push no_timer time_of t q

unfoldable pub pop_one_timeout_timer : ℕ → Timers → Option (Timer × Timers)
pop_one_timeout_timer now q =
    if length q == 0 || ltb now (key_at no_timer time_of q 0)
    then none
    else some (at no_timer time_of q 0, pop no_timer time_of q)

abbrev pub after_pop :
    (Timers → List Timer × Timers) → Timers → Option (Timer × Timers) → List Timer × Timers
after_pop k q none = ([], q)
after_pop k q (some (t, r)) = (t ∷ (k r).0, (k r).1)

-- The loop of `PopAllTimeoutTimer`, which reads the clock at each turn, from the `i`-th reading on.
unfoldable pub pop_loop : ℕ → (ℕ → ℕ) → ℕ → Timers → List Timer × Timers
pop_loop zero clock i q = ([], q)
pop_loop (suc k) clock i q =
    after_pop (pop_loop k clock (suc i)) q (pop_one_timeout_timer (clock i) q)

unfoldable pub pop_all_timeout_timer : (ℕ → ℕ) → Timers → List Timer × Timers
unfolding pop_loop
pop_all_timeout_timer clock q = pop_loop (suc (length q)) clock 0 q

-- The end of a turn of `ExecuteAllTimeoutTimer`: the timer is there again, or deleted.
abbrev pub add_again : Bool × Timer → Timers → Timers
add_again (true, t) q = add_timer t q
add_again (false, t) q = q

-- The loop over the timers that were popped, with the callbacks made.
unfoldable pub execute_loop : List Timer → Timers → List ℕ × Timers
execute_loop [] q = ([], q)
execute_loop (t ∷ ts) q =
    let (calls, r) = execute_loop ts (add_again (execute t).1 q) in ((execute t).0 ++ calls, r)

unfoldable pub execute_all_timeout_timer : (ℕ → ℕ) → Timers → List ℕ × Timers
unfolding execute_loop
execute_all_timeout_timer clock q =
    execute_loop (pop_all_timeout_timer clock q).0 (pop_all_timeout_timer clock q).1

-- ===== src/Tests/Wheels.antt =====
-- Tests of the model of `TimerWheelManager` of src/tcpserver/timer.cc.
use mathlib.Core.Path.{subst}
use restful_cweb.Prelude.{
  ℕ, zero, suc, ◌*◌, ◌≡◌, inl, inr, refl, sym, List, [], ◌∷◌, false, some, none, arith, pos, negsuc,
  neg_part, pos_part, ◌≤◌, ◌<◌, update, to_int,
}
use restful_cweb.Util.LinkedList.Chain.{NotIn}
use restful_cweb.Tcp.Timer.{pretend_execute}
use restful_cweb.Tcp.TimerWheel.{
  Fired, fire_slots, fire_timers, move_layers, move_slots, move_timers, add_from, WheelTimer, Wheel,
  wait_of, put_timer, add_timer, pop_timeout_timers,
}
use restful_cweb.Tcp.TimerWheel.Sums.{set_slot-cases}
use restful_cweb.Tcp.TimerWheel.Kept.{IsKept, IsFree, put_timer-IsKept}
use restful_cweb.Tcp.TimerWheel.Turn.{IsPut, waited, add_timer-IsPut}
use restful_cweb.Tcp.TimerWheel.Firing.{IsKeptWith, pop_timeout_timers-IsKept}

-- The timer at address `a` is due after `20 * a` milliseconds, and again 10 milliseconds later.
abbrev timers : ℕ → WheelTimer
timers a = record {
  timer = record {
    cancelled = false;
    execution_time = 20000 * a;
    interval = 10;
    repeats = pos 2;
    callback = some a;
  };
  layer = 0;
  step = 0;
  popped = false;
}

-- Two layers of four slots, the first slot for 10 milliseconds.
abbrev empty_wheel : Wheel
empty_wheel = record {
  tickms = 10;
  wheel_size = 4;
  layers = 2;
  steps = λ i. elim i [ zero ↦ pos 1 | suc n ↦ negsuc 0 ];
  counts = λ i. pos 0;
  slots = λ i j. [];
  last_rotate_time = 0;
  timer = timers;
}

empty_wheel-IsKept : IsKept empty_wheel
empty_wheel-IsKept = record {
  size = omega arith;
  small = omega arith;
  ticks = omega arith;
  some_layers = omega arith;
  first = 1;
  started = refl;
  turned = λ i. elim i as (λ k. neg_part (empty_wheel.steps k) ≤ 1) [
    | zero ↦ omega arith
    | suc n ↦ omega arith
  ];
  below = λ i. elim i as (λ k. pos_part (empty_wheel.steps k) < 4) [
    | zero ↦ omega arith
    | suc n ↦ omega arith
  ];
  short = λ a. omega arith;
  soon = λ i j. tt;
  counted = λ i. refl;
  placed = λ i j. tt;
  apart = λ i j. tt;
}

add_timer-IsPut_example :
    (v : Wheel) × (add_timer 1 empty_wheel ≡ some v)
    × IsKept v
    × IsPut 2 (waited 1 empty_wheel) 1 empty_wheel v
add_timer-IsPut_example =
    add_timer-IsPut 1 empty_wheel empty_wheel-IsKept (λ i j. tt) (omega arith) (omega arith)

abbrev one_timer : Wheel
one_timer = put_timer 0 3 1 empty_wheel

one_timer-IsKept : IsKept one_timer
one_timer-IsKept =
    put_timer-IsKept empty_wheel empty_wheel-IsKept 0 3 1 (omega arith) (λ i j. tt) (omega arith)
      (omega arith)

second-IsFree : IsFree one_timer 2
second-IsFree i j = elim (set_slot-cases 0 3 (1 ∷ []) empty_wheel.slots i j) [
  | inl (_, _, e) ↦ subst (NotIn 2) (sym e) (omega arith, tt)
  | inr (_, e) ↦ subst (NotIn 2) (sym e) tt
]

-- The second timer waits in the second layer.
abbrev two_timers : Wheel
two_timers = put_timer 1 0 2 one_timer

two_timers-IsKept : IsKept two_timers
unfolding update
two_timers-IsKept =
    put_timer-IsKept one_timer one_timer-IsKept 1 0 2 (omega arith) second-IsFree (omega arith)
      (omega arith)

pop_timeout_timers-IsKept_example : IsKeptWith (pop_timeout_timers 50000 two_timers)
pop_timeout_timers-IsKept_example =
    pop_timeout_timers-IsKept 50000 two_timers two_timers-IsKept (omega arith) (omega arith)

abbrev due_in : Fired → List ℕ
due_in none = []
due_in (some (due, w)) = due

-- The second timer, due after 40 and 50 milliseconds, is given twice after 30.
two_timers-early : due_in (pop_timeout_timers 30000 two_timers) ≡ 2 ∷ 1 ∷ 2 ∷ []
unfolding pop_timeout_timers to_int wait_of move_layers move_slots move_timers add_timer add_from
    fire_slots fire_timers pretend_execute update
two_timers-early = refl

-- The first timer, due after 20 milliseconds, is not given after 50.
two_timers-late : due_in (pop_timeout_timers 50000 two_timers) ≡ 2 ∷ []
unfolding pop_timeout_timers to_int wait_of move_layers move_slots move_timers add_timer add_from
    fire_slots fire_timers pretend_execute update
two_timers-late = refl

-- ===== src/Tcp/TimerWheel.antt =====
-- `TimerWheelManager` of src/tcpserver/timer.cc and src/tcpserver/timer.h. The timers are in a store
-- under their addresses, and a slot's `LinkedList`, of which only `Push`, `Pop` and `Size` are used
-- here, is the list of the addresses in it. Steps, waits and ticks are `int`: a cast keeps 32 bits,
-- quotients and remainders go towards zero, and sums stay in the range of an `int` for wheels of up
-- to 2 ^ 30 slots. Times as in `Tcp.Timer`. `none` as a result is an access out of bounds or through
-- the null pointer.
pub mod Sums
pub mod Kept
pub mod Turn
pub mod Firing
pub mod Waiting
use restful_cweb.Prelude.{
  ℕ, zero, suc, ◌+◌, ◌-◌, ◌*◌, ◌/◌, ◌%◌, ◌^◌, Option, none, some, ◌==◌, ltb, if◌then◌else◌, List,
  [], ◌∷◌, ◌++◌, length, update, ℤ, pos, negsuc, Bool, true, false, increment, decrement, ◌+ℤ◌,
  sub_ℕ, ltb_ℤ, div_int, rem_int, to_int, index_of, pos_part, neg_part,
}
use restful_cweb.Tcp.ByteBuffer.{sub_size}
use restful_cweb.Tcp.Timer.{Timer, pretend_execute}

pub record WheelTimer : Type 0 where
  pub timer : Timer
  pub layer : ℕ
  pub step : ℕ
  pub popped : Bool

pub record Wheel : Type 0 where
  pub tickms : ℕ
  pub wheel_size : ℕ
  pub layers : ℕ
  pub steps : ℕ → ℤ
  pub counts : ℕ → ℤ
  pub slots : ℕ → ℕ → List ℕ
  pub last_rotate_time : ℕ
  pub timer : ℕ → WheelTimer

abbrev pub new_wheel : ℕ → ℕ → ℕ → ℕ → (ℕ → WheelTimer) → Wheel
new_wheel tickms wheel_size layers now timer = record {
  tickms = tickms;
  wheel_size = wheel_size;
  layers = layers;
  steps = λ i. negsuc 0;
  counts = λ i. pos 0;
  slots = λ i j. [];
  last_rotate_time = now;
  timer = timer;
}

abbrev pub set_slot : ℕ → ℕ → List ℕ → (ℕ → ℕ → List ℕ) → ℕ → ℕ → List ℕ
set_slot i j xs f = update f i (update (f i) j xs)

-- `(steps_[i] + k) % wheel_size_` as an index.
abbrev pub slot_of : ℤ → ℤ → ℕ → Option ℕ
slot_of step k size = index_of (rem_int (step +ℤ k) size)

-- The timer goes into a slot of a layer.
abbrev pub put_timer : ℕ → ℕ → ℕ → Wheel → Wheel
put_timer i j a w = record w {
  slots = set_slot i j (w.slots i j ++ a ∷ []) w.slots;
  counts = update w.counts i (increment (w.counts i));
  timer = update w.timer a (record (w.timer a) { layer = i; step = j; popped = false });
}

abbrev pub put_at : ℕ → Option ℕ → ℕ → Wheel → Option Wheel
put_at i none a w = none
put_at i (some j) a w = some (put_timer i j a w)

-- The loop of `addTimer` over the layers, from the `i`-th on.
abbrev pub is_below : ℤ → ℕ → Bool
is_below (pos n) m = ltb n m
is_below (negsuc n) m = true

unfoldable pub add_from : ℕ → ℕ → ℤ → ℕ → Wheel → Option Wheel
add_from zero i interval a w = some w
add_from (suc k) i interval a w =
    let wider = add_from k (suc i) interval a w in
    if is_below interval (w.tickms * w.wheel_size ^ (i + 1))
    then put_at i
        (slot_of (w.steps i) (div_int interval (w.tickms * w.wheel_size ^ i)) w.wheel_size) a w
    else wider

unfoldable pub wait_of : ℕ → Wheel → ℤ
unfolding to_int
wait_of a w =
    if ltb (w.timer a).timer.execution_time w.last_rotate_time
    then pos 0
    else to_int (sub_size (w.timer a).timer.execution_time w.last_rotate_time / 1000)

unfoldable pub add_timer : ℕ → Wheel → Option Wheel
unfolding add_from wait_of
add_timer a w = add_from w.layers 0 (wait_of a w) a w

-- `Pop` of a slot of a layer.
abbrev pub pop_timer : ℕ → ℕ → ℕ → List ℕ → Wheel → Wheel
pop_timer i j a rest w = record w {
  slots = set_slot i j rest w.slots;
  counts = update w.counts i (decrement (w.counts i));
  timer = update w.timer a (record (w.timer a) { popped = true });
}

abbrev pub and_then : (Wheel → Option Wheel) → Option Wheel → Option Wheel
and_then f none = none
and_then f (some w) = f w

-- The loops of a turn over the timers of a slot, the slots of a layer, and the layers but the first.
abbrev pub move_first : ℕ → ℕ → List ℕ → Wheel → Option Wheel
move_first i j [] w = none
move_first i j (a ∷ rest) w = add_timer a (pop_timer i j a rest w)

unfoldable pub move_timers : ℕ → ℕ → ℕ → Wheel → Option Wheel
move_timers zero i j w = some w
move_timers (suc n) i j w = and_then (move_timers n i j) (move_first i j (w.slots i j) w)

abbrev pub at_slot : Option ℕ → (ℕ → Option Wheel) → Option Wheel
at_slot none f = none
at_slot (some j) f = f j

unfoldable pub move_slots : ℕ → ℕ → ℤ → Wheel → Option Wheel
unfolding move_timers
move_slots zero i j w = some w
move_slots (suc n) i j w =
    at_slot (index_of (rem_int j w.wheel_size))
      (λ s. and_then (move_slots n i (increment j)) (move_timers (length (w.slots i s)) i s w))

-- The first index of the loop over the slots, and the number of its turns.
abbrev pub first_slot : ℤ → ℤ
first_slot (pos n) = pos n
first_slot (negsuc n) = increment (negsuc n)

abbrev pub last_slot : ℤ → ℤ → ℕ → ℤ
last_slot to from size = if ltb_ℤ to from then to +ℤ pos size else to

abbrev pub turns_from : ℤ → ℤ → ℕ
turns_from start end =
    (pos_part (increment end) + neg_part start) - (neg_part (increment end) + pos_part start)

abbrev pub slot_count : ℤ → ℤ → ℕ → ℕ
slot_count to from size = turns_from (first_slot from) (last_slot to from size)

unfoldable pub move_layers : ℕ → (ℕ → ℤ) → Wheel → Option Wheel
unfolding move_slots
move_layers zero steps w = some w
move_layers (suc i) steps w = and_then (move_layers i steps) (
    move_slots (slot_count (steps (suc i)) (w.steps (suc i)) w.wheel_size) (suc i)
      (first_slot (w.steps (suc i))) w)

-- The same of the first layer, with the timers that are due.
abbrev pub Fired : Type 0
Fired = Option (List ℕ × Wheel)

abbrev pub with_due : List ℕ → Fired → Fired
with_due due none = none
with_due due (some (rest, w)) = some (due ++ rest, w)

abbrev pub and_fire : (Wheel → Fired) → List ℕ → Option Wheel → Fired
and_fire f due none = none
and_fire f due (some w) = with_due due (f w)

abbrev pub and_go_on : (Wheel → Fired) → Fired → Fired
and_go_on f none = none
and_go_on f (some (due, w)) = with_due due (f w)

abbrev pub set_timer : ℕ → Timer → Wheel → Wheel
set_timer a t w = record w { timer = update w.timer a (record (w.timer a) { timer = t }) }

abbrev pub add_repeated : Bool × Timer → ℕ → Wheel → Option Wheel
add_repeated (true, t) a w = add_timer a (set_timer a t w)
add_repeated (false, t) a w = some (set_timer a t w)

abbrev pub due_of : ℕ → Wheel → List ℕ
due_of a w = if (w.timer a).timer.cancelled then [] else a ∷ []

abbrev pub fire_first : (Wheel → Fired) → ℕ → List ℕ → Wheel → Fired
fire_first f j [] w = none
fire_first f j (a ∷ rest) w =
    and_fire f (due_of a w)
      (add_repeated (pretend_execute (w.timer a).timer) a (pop_timer 0 j a rest w))

unfoldable pub fire_timers : ℕ → ℕ → Wheel → Fired
fire_timers zero j w = some ([], w)
fire_timers (suc n) j w = fire_first (fire_timers n j) j (w.slots 0 j) w

abbrev pub fire_at : Option ℕ → (ℕ → Fired) → Fired
fire_at none f = none
fire_at (some j) f = f j

unfoldable pub fire_slots : ℕ → ℤ → Wheel → Fired
unfolding fire_timers
fire_slots zero j w = some ([], w)
fire_slots (suc n) j w =
    fire_at (index_of (rem_int j w.wheel_size))
      (λ s. and_go_on (fire_slots n (increment j)) (fire_timers (length (w.slots 0 s)) s w))

-- The steps after a turn: the digits of the ticks that have passed, to the base of the wheel's
-- size, added to the steps with a carry.
abbrev pub digit : ℕ → ℤ → ℕ → ℤ
digit zero ticks size = rem_int ticks size
digit (suc i) ticks size = digit i (div_int ticks size) size

abbrev pub carry : ℤ → ℕ → ℤ
carry n size = if ltb_ℤ (sub_ℕ size 1) n then pos 1 else pos 0

abbrev pub moved_step : ℕ → ℤ → Wheel → ℤ
moved_step zero ticks w = digit 0 ticks w.wheel_size +ℤ w.steps 0
moved_step (suc i) ticks w =
    digit (suc i) ticks w.wheel_size +ℤ carry (moved_step i ticks w) w.wheel_size +ℤ w.steps (suc i)

abbrev pub next_steps : ℤ → Wheel → ℕ → ℤ
next_steps ticks w i = rem_int (moved_step i ticks w) w.wheel_size

abbrev pub set_steps : (ℕ → ℤ) → Fired → Fired
set_steps steps none = none
set_steps steps (some (due, w)) = some (due, record w { steps = steps })

-- The layers, the first one last.
abbrev pub rotate : (ℕ → ℤ) → Wheel → Fired
rotate steps w = set_steps steps (
    and_fire
      (λ v. fire_slots (slot_count (steps 0) (v.steps 0) v.wheel_size) (first_slot (v.steps 0)) v)
      [] (move_layers (w.layers - 1) steps w))

-- `PopAllTimeoutTimer`, with the timers that it gives; its result is whether there are any.
unfoldable pub pop_timeout_timers : ℕ → Wheel → Fired
unfolding fire_slots to_int
pop_timeout_timers now w =
    if w.layers == 0
    then none
    else rotate (next_steps (to_int (sub_size now w.last_rotate_time / 1000 / w.tickms)) w)
        (record w { last_rotate_time = now })

-- The loop of `NextTimeoutInterval`, from the `i`-th layer on.
abbrev pub is_positive : ℤ → Bool
is_positive (pos zero) = false
is_positive (pos (suc n)) = true
is_positive (negsuc n) = false

unfoldable pub next_from : ℕ → ℕ → Wheel → ℤ
next_from zero i w = negsuc 0
next_from (suc k) i w =
    if is_positive (w.counts i) then pos (w.tickms * w.wheel_size ^ i) else next_from k (suc i) w

unfoldable pub next_timeout_interval : Wheel → ℤ
unfolding next_from
next_timeout_interval w = next_from w.layers 0 w

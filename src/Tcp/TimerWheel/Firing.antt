-- ===== src/Tcp/TimerWheel/Firing.antt =====
-- `PopAllTimeoutTimer` of `TimerWheelManager`: the first layer's timers that are due, and the whole turn.
use mathlib.Core.Path.{subst}
use native.Mathlib.Nat.{mod-lt, mod-le}
use restful_cweb.Prelude.{
  ℕ, zero, suc, ◌+◌, ◌-◌, ◌/◌, ◌%◌, ◌<◌, ◌≤◌, ◌≡◌, ◌≢◌, refl, sym, ap, ◌∙◌, List, [], ◌∷◌, ◌++◌,
  arith, length, Bool, true, false, Option, some, ◌==◌, ◌*◌, ◌^◌, ℤ, pos, negsuc, decrement,
  neg_part, pos_part, neg, rem_int, ◌+ℤ◌, sub_ℕ, if◌then◌else◌, ltb_ℤ, leb, Bool-cases, inl, inr,
  update_self,
}
use restful_cweb.Tcp.Timer.{Timer, pretend_execute, postpone, go_on}
use restful_cweb.Tcp.TimerWheel.{
  WheelTimer, Wheel, Fired, with_due, and_fire, and_go_on, set_timer, add_repeated, due_of,
  fire_first, fire_timers, fire_slots, digit, carry, moved_step, next_steps, set_steps, rotate,
  pop_timer, pop_timeout_timers, move_layers, slot_count, first_slot,
}
use restful_cweb.Tcp.TimerWheel.Kept.{
  IsKept, IsFree, pop_timer-IsKept, pop_timer-IsFree, front-AreNodes, set_timer-IsKept, AllBefore,
  range, horizon, front-AllBefore,
}
use restful_cweb.Tcp.TimerWheel.Turn.{
  IsGood, add_timer-IsGood, front-there, pop_timer-length, move_layers-IsKept, first_slot-there,
  to_int-small,
}

-- Due timers, and a wheel that keeps everything.
abbrev pub IsKeptWith : Fired → Type 0
IsKeptWith r = (due : List ℕ) × (v : Wheel) × (r ≡ some (due, v)) × IsKept v

-- The same with layers of `n` slots.
abbrev IsFired : ℕ → Fired → Type 0
IsFired n r = (due : List ℕ) × (v : Wheel) × (r ≡ some (due, v)) × IsKept v × (v.wheel_size ≡ n)

-- A timer goes on with the same interval, and not later than by one interval.
abbrev IsLater : Timer → Bool × Timer → Type 0
IsLater t r =
    (r.1.interval ≡ t.interval) × (r.1.execution_time ≤ t.execution_time + 1000 * t.interval)

postpone-IsLater : (t : Timer) → IsLater t (true, postpone t)
postpone-IsLater t = (
  refl,
  omega (
    arith,
    mod-le (t.execution_time + t.interval * 1000 % 2 ^ 64) (2 ^ 64),
    mod-le (t.interval * 1000) (2 ^ 64),
  ),
)

go_on-IsLater : (n : ℤ) (t : Timer) → IsLater t (go_on n t)
go_on-IsLater (pos zero) t = (refl, omega arith)
go_on-IsLater (pos (suc n)) t = postpone-IsLater t
go_on-IsLater (negsuc n) t = postpone-IsLater t

either-IsLater :
    (b : Bool) (t : Timer) (r : Bool × Timer)
    → IsLater t r
    → IsLater t (if b then (false, t) else r)
either-IsLater true t r h = (refl, omega arith)
either-IsLater false t r h = h

pretend_execute-IsLater : (t : Timer) → IsLater t (pretend_execute t)
unfolding pretend_execute
pretend_execute-IsLater t =
    either-IsLater t.cancelled t (go_on (decrement t.repeats) t)
      (go_on-IsLater (decrement t.repeats) t)

add_repeated-IsGood :
    (r : Bool × Timer) (a : ℕ) (w : Wheel) (q : IsKept w)
    → IsFree w a
    → a ≢ 0
    → (w.timer a).timer.execution_time < horizon w
    → IsLater (w.timer a).timer r
    → IsGood w (add_repeated r a w)
add_repeated-IsGood (true, t) a w q free n due (same, later) =
    let new : ((set_timer a t w).timer a).timer.execution_time ≡ t.execution_time =
      ap (λ z. z.timer.execution_time) (update_self w.timer a (record (w.timer a) { timer = t })) in
    add_timer-IsGood a (set_timer a t w) (set_timer-IsKept w a t q free same) free n
      (omega (arith, new, later, due, q.short a))
add_repeated-IsGood (false, t) a w q free n due (same, later) =
    (set_timer a t w, refl, set_timer-IsKept w a t q free same, (refl, λ i j. omega arith))

and_fire-IsKept :
    (n : ℕ) (f : Wheel → Fired) (due : List ℕ) (r : Option Wheel) (v : Wheel)
    → r ≡ some v
    → v.wheel_size ≡ n
    → IsFired v.wheel_size (f v)
    → IsFired n (and_fire f due r)
and_fire-IsKept n f due r v e same (rest, u, g, k, s) =
    (due ++ rest, u, ap (and_fire f due) e ∙ ap (with_due due) g, k, s ∙ same)

fire_timers-IsKept :
    (n j : ℕ) (w : Wheel)
    → IsKept w
    → j < w.wheel_size
    → n ≤ length (w.slots 0 j)
    → IsFired w.wheel_size (fire_timers n j w)
unfolding fire_timers
fire_timers-IsKept zero j w q lt h = ([], w, refl, q, refl)
fire_timers-IsKept (suc n) j w q lt h =
    let (a, rest, front, enough) = front-there (w.slots 0 j) n h in
    let popped = pop_timer 0 j a rest w in
    let same : (popped.timer a).timer ≡ (w.timer a).timer =
      ap (λ z. z.timer) (update_self w.timer a (record (w.timer a) { popped = true })) in
    let (v, added, p, longer) =
      add_repeated-IsGood (pretend_execute (w.timer a).timer) a popped
        (pop_timer-IsKept w q 0 j a lt rest front) (pop_timer-IsFree w q 0 j a lt rest front)
        (front-AreNodes w q 0 j a lt rest front).0
        (subst (λ z. z.execution_time < horizon w) (sym same)
          (front-AllBefore w q 0 j a lt rest front).0)
        (subst (λ z. IsLater z (pretend_execute (w.timer a).timer)) (sym same)
          (pretend_execute-IsLater (w.timer a).timer)) in
    let (due, u, fired, k, s) =
      and_fire-IsKept w.wheel_size (fire_timers n j) (due_of a w)
        (add_repeated (pretend_execute (w.timer a).timer) a popped) v added longer.0
        (fire_timers-IsKept n j v p (subst (λ z. j < z) (sym longer.0) lt)
          (omega (arith, longer.1 0 j, pop_timer-length 0 j a rest w, enough))) in
    (due, u, ap (λ xs. fire_first (fire_timers n j) j xs w) front ∙ fired, k, s)

and_go_on-IsKept :
    (n : ℕ) (f : Wheel → Fired) (r : Fired) (due : List ℕ) (v : Wheel)
    → r ≡ some (due, v)
    → v.wheel_size ≡ n
    → IsFired v.wheel_size (f v)
    → IsFired n (and_go_on f r)
and_go_on-IsKept n f r due v e same (rest, u, g, k, s) =
    (due ++ rest, u, ap (and_go_on f) e ∙ ap (with_due due) g, k, s ∙ same)

fire_slots-IsKept : (n j : ℕ) (w : Wheel) → IsKept w → IsFired w.wheel_size (fire_slots n (pos j) w)
unfolding fire_slots
fire_slots-IsKept zero j w q = ([], w, refl, q, refl)
fire_slots-IsKept (suc n) j w q =
    let slot = j % w.wheel_size in
    let (due, v, fired, p, same) =
      fire_timers-IsKept (length (w.slots 0 slot)) slot w q (mod-lt j q.size) (omega arith) in
    and_go_on-IsKept w.wheel_size (fire_slots n (pos (suc j)))
      (fire_timers (length (w.slots 0 slot)) slot w) due v fired same
      (fire_slots-IsKept n (suc j) v p)

-- The digits of a number of ticks are not negative, so that no step gets below -1, and the first
-- layer stands at a slot again.
pos_part-neg : (n : ℕ) → pos_part (neg n) ≡ 0
pos_part-neg zero = refl
pos_part-neg (suc n) = refl

neg_part-neg : (n : ℕ) → neg_part (neg n) ≡ n
neg_part-neg zero = refl
neg_part-neg (suc n) = refl

digit-pos : (i ticks size : ℕ) → neg_part (digit i (pos ticks) size) ≡ 0
digit-pos zero ticks size = refl
digit-pos (suc i) ticks size = digit-pos i (ticks / size) size

carry-pos : (z : ℤ) (size : ℕ) → neg_part (carry z size) ≡ 0
carry-pos z size = elim (Bool-cases (ltb_ℤ (sub_ℕ size 1) z)) [
  | inl e ↦ rw e refl
  | inr e ↦ rw e refl
]

sum-pos : (a b : ℤ) → neg_part (a +ℤ b) ≤ neg_part a + neg_part b
sum-pos a b = ground arith

rem_int-less : (z : ℤ) (size : ℕ) → neg_part (rem_int z size) ≤ neg_part z
rem_int-less (pos n) size = omega arith
rem_int-less (negsuc n) size = omega (arith, neg_part-neg (suc n % size), mod-le (suc n) size)

next_steps-turned :
    (ticks : ℕ) (w : Wheel) (q : IsKept w) (i : ℕ) → neg_part (next_steps (pos ticks) w i) ≤ 1
next_steps-turned ticks w q zero = omega (
  arith,
  rem_int-less (moved_step 0 (pos ticks) w) w.wheel_size,
  sum-pos (digit 0 (pos ticks) w.wheel_size) (w.steps 0),
  digit-pos 0 ticks w.wheel_size,
  q.turned 0,
)
next_steps-turned ticks w q (suc i) =
    let d = digit (suc i) (pos ticks) w.wheel_size in
    let c = carry (moved_step i (pos ticks) w) w.wheel_size in
    omega (
      arith,
      rem_int-less (moved_step (suc i) (pos ticks) w) w.wheel_size,
      sum-pos (d +ℤ c) (w.steps (suc i)),
      sum-pos d c,
      digit-pos (suc i) ticks w.wheel_size,
      carry-pos (moved_step i (pos ticks) w) w.wheel_size,
      q.turned (suc i),
    )

rem_int-below : (z : ℤ) (size : ℕ) → 0 < size → pos_part (rem_int z size) < size
rem_int-below (pos n) size h = mod-lt n h
rem_int-below (negsuc n) size h = omega (arith, pos_part-neg (suc n % size))

next_steps-first :
    (ticks : ℕ) (w : Wheel) (q : IsKept w)
    → next_steps (pos ticks) w 0 ≡ pos ((ticks % w.wheel_size + q.first) % w.wheel_size)
next_steps-first ticks w q =
    let sum : pos (ticks % w.wheel_size) +ℤ pos q.first ≡ pos (ticks % w.wheel_size + q.first) =
      ground arith in
    ap (λ z. rem_int (pos (ticks % w.wheel_size) +ℤ z) w.wheel_size) q.started
    ∙ ap (λ z. rem_int z w.wheel_size) sum

set_steps-IsKept :
    (steps : ℕ → ℤ) (n : ℕ) (r : Fired)
    → steps 0 ≡ pos n
    → ((i : ℕ) → neg_part (steps i) ≤ 1)
    → (due : List ℕ) (v : Wheel) → r ≡ some (due, v)
    → ((i : ℕ) → pos_part (steps i) < v.wheel_size)
    → IsKept v
    → IsKeptWith (set_steps steps r)
set_steps-IsKept steps n r e turned due v g below k = (
  due,
  record v { steps = steps },
  ap (set_steps steps) g,
  record {
    size = k.size;
    small = k.small;
    ticks = k.ticks;
    some_layers = k.some_layers;
    first = n;
    started = e;
    turned = turned;
    below = below;
    short = k.short;
    soon = k.soon;
    counted = k.counted;
    placed = k.placed;
    apart = k.apart;
  },
)

rotate-IsKept :
    (steps : ℕ → ℤ) (n : ℕ) (w : Wheel)
    → steps 0 ≡ pos n
    → ((i : ℕ) → neg_part (steps i) ≤ 1)
    → ((i : ℕ) → pos_part (steps i) < w.wheel_size)
    → IsKept w
    → IsKeptWith (rotate steps w)
rotate-IsKept steps n w e turned below q =
    let (v, moved, p, same) = move_layers-IsKept (w.layers - 1) steps w q in
    let fire : Wheel → Fired =
      λ v. fire_slots (slot_count (steps 0) (v.steps 0) v.wheel_size) (first_slot (v.steps 0)) v in
    let (j, first) = first_slot-there (v.steps 0) (p.turned 0) in
    let count = slot_count (steps 0) (v.steps 0) v.wheel_size in
    let (due, u, fired, k, still) =
      and_fire-IsKept w.wheel_size fire [] (move_layers (w.layers - 1) steps w) v moved same (
        subst (λ z. IsFired v.wheel_size (fire_slots count z v)) (sym first)
          (fire_slots-IsKept count j v p)) in
    set_steps-IsKept steps n (and_fire fire [] (move_layers (w.layers - 1) steps w)) e turned due u
      fired (λ i. subst (λ z. pos_part (steps i) < z) (sym still) (below i)) k

AllBefore-later :
    (t : ℕ → WheelTimer) (m n : ℕ) (xs : List ℕ) → m ≤ n → AllBefore t m xs → AllBefore t n xs
AllBefore-later t m n [] h s = tt
AllBefore-later t m n (x ∷ xs) h s = (omega (arith, s.0), AllBefore-later t m n xs h s.1)

set_time-IsKept :
    (now : ℕ) (w : Wheel)
    → w.last_rotate_time ≤ now
    → IsKept w
    → IsKept (record w { last_rotate_time = now })
set_time-IsKept now w h q = record {
  size = q.size;
  small = q.small;
  ticks = q.ticks;
  some_layers = q.some_layers;
  first = q.first;
  started = q.started;
  turned = q.turned;
  below = q.below;
  short = q.short;
  soon = λ i j.
      AllBefore-later w.timer (horizon w) (now + 1000 * range w) (w.slots i j) (omega arith)
        (q.soon i j);
  counted = q.counted;
  placed = q.placed;
  apart = q.apart;
}

-- A turn on a wheel that is in order: at most 2^30 slots in a layer, each layer's step one of them or
-- -1, the first layer's not -1, each count the number of the layer's timers, each timer that waits
-- once in the slot of its position and due within the range of the layers, and no interval so long
-- that with that range it comes to more than 2^31 milliseconds. If the clock has not gone back and
-- less than 2^31 ticks have passed, the turn goes through: no timer is put into a slot that is not
-- there, no loop takes a timer from an empty slot, and the wheel is in order again.
pub pop_timeout_timers-IsKept :
    (now : ℕ) (w : Wheel)
    → IsKept w
    → w.last_rotate_time ≤ now
    → (now - w.last_rotate_time) / 1000 / w.tickms < 2 ^ 31
    → IsKeptWith (pop_timeout_timers now w)
unfolding pop_timeout_timers
pop_timeout_timers-IsKept now w q forward brief =
    let ticks = (now - w.last_rotate_time) / 1000 / w.tickms in
    let there : (w.layers == 0) ≡ false = ground (arith, q.some_layers) in
    let ahead : leb w.last_rotate_time now ≡ true = ground (arith, forward) in
    let (due, v, done, k) =
      rotate-IsKept (next_steps (pos ticks) w) ((ticks % w.wheel_size + q.first) % w.wheel_size)
        (record w { last_rotate_time = now }) (next_steps-first ticks w q)
        (next_steps-turned ticks w q)
        (λ i. rem_int-below (moved_step i (pos ticks) w) w.wheel_size q.size)
        (set_time-IsKept now w forward q) in
    (
      due,
      v,
      rw there (
          rw ahead (
            ap (λ z. rotate (next_steps z w) (record w { last_rotate_time = now }))
              (to_int-small ticks brief)
            ∙ done)),
      k,
    )

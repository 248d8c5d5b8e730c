-- ===== src/Tcp/TimerWheel/Turn.antt =====
-- `AddTimer` and the turns of `TimerWheelManager`: no access is out of bounds, and what is kept stays.
use mathlib.Core.Path.{subst}
use native.Mathlib.Nat.{
  mod-lt, div-eq-sub-div, mul-pos, one-le-pow, pow-le-pow_right, mul-le-mul_left,
}
use restful_cweb.Prelude.{
  ℕ, zero, suc, ◌+◌, ◌-◌, ◌*◌, ◌/◌, ◌%◌, ◌^◌, ◌<◌, ◌≤◌, ◌≡◌, ◌≢◌, refl, sym, ap, ◌∙◌, List, [], ◌∷◌,
  ◌++◌, arith, length, length-append, ◌⊎◌, inl, inr, Option, some, Bool-cases, ltb, update_self,
  update, ℤ, pos, negsuc, pos_part, neg_part, to_int, leb, true,
}
use restful_cweb.Tcp.TimerWheel.{
  Wheel, slot_of, put_timer, add_from, wait_of, add_timer, pop_timer, and_then, move_first,
  move_timers, move_slots, move_layers, slot_count, first_slot,
}
use restful_cweb.Tcp.TimerWheel.Sums.{set_slot-cases}
use restful_cweb.Tcp.TimerWheel.Kept.{
  IsKept, IsFree, range, horizon, put_timer-IsKept, pop_timer-IsKept, pop_timer-IsFree,
  front-AllBefore, front-AreNodes,
}

-- The same wheel with no fewer timers in any slot.
abbrev pub IsLonger : Wheel → Wheel → Type 0
IsLonger w v =
    (v.wheel_size ≡ w.wheel_size) × ((i j : ℕ) → length (w.slots i j) ≤ length (v.slots i j))

-- A wheel as a result that keeps everything.
abbrev pub IsGood : Wheel → Option Wheel → Type 0
IsGood w r = (v : Wheel) × (r ≡ some v) × IsKept v × IsLonger w v

-- The slot that is `k` behind the layer's step, which can be -1 unless the slot is behind it.
abbrev pub slot_behind : ℤ → ℕ → ℕ → ℕ
slot_behind step k size = (pos_part step + k - neg_part step) % size

slot_of-there :
    (step : ℤ) (k size : ℕ)
    → neg_part step ≤ 1
    → (neg_part step ≡ 0) ⊎ (0 < k)
    → slot_of step (pos k) size ≡ some (slot_behind step k size)
slot_of-there (pos n) k size h b = let z : leb 0 (n + k) ≡ true = ground arith in rw z refl
slot_of-there (negsuc zero) k size h (inl e) = absurd (omega arith)
slot_of-there (negsuc zero) k size h (inr l) =
    let z : leb (1 + 0) (0 + k) ≡ true = ground arith in rw z refl
slot_of-there (negsuc (suc n)) k size h b = absurd (omega arith)

-- A wait in a layer that is not too wide for it has at least one of its units.
quotient-positive : (unit interval : ℕ) → 0 < unit → unit ≤ interval → 0 < interval / unit
quotient-positive unit interval p h = let quotient = div-eq-sub-div p h in omega (arith, quotient)

-- The wait in milliseconds, which an `int` holds.
abbrev pub waited : ℕ → Wheel → ℕ
waited a w = ((w.timer a).timer.execution_time - w.last_rotate_time) / 1000

abbrev pub IsSoon : ℕ → Wheel → Type 0
IsSoon a w = (w.timer a).timer.execution_time < w.last_rotate_time + 1000 * 2 ^ 31

pub to_int-small : (n : ℕ) → n < 2 ^ 31 → to_int n ≡ pos n
unfolding to_int
to_int-small n h =
    let same : n % 2 ^ 32 ≡ n = omega arith in
    let small : ltb n (2 ^ 31) ≡ true = ground arith in rw same (rw small refl)

wait_of_lem : (a : ℕ) (w : Wheel) → IsSoon a w → wait_of a w ≡ pos (waited a w)
unfolding wait_of
wait_of_lem a w h =
    let time = (w.timer a).timer.execution_time in
    elim (Bool-cases (ltb time w.last_rotate_time)) [
      | inl past ↦
          let nothing : (time - w.last_rotate_time) / 1000 ≡ 0 = ground (arith, past) in
          rw past (ap pos (sym nothing))
      | inr ahead ↦
          let there : leb w.last_rotate_time time ≡ true = ground (arith, ahead) in
          rw ahead (rw there (to_int-small (waited a w) (omega (arith, h))))
    ]

put_timer-IsLonger : (i j a : ℕ) (w : Wheel) → IsLonger w (put_timer i j a w)
put_timer-IsLonger i j a w = (
  refl,
  λ k m. elim (set_slot-cases i j (w.slots i j ++ a ∷ []) w.slots k m) [
    | inr (away, same) ↦ omega (arith, ap length same)
    | inl (here, at, new) ↦ omega (
      arith,
      ap length new,
      length-append (w.slots i j) (a ∷ []),
      ap length (ap (λ z. w.slots z j) here ∙ ap (w.slots k) at),
    )
  ],
)

-- Where the timer is afterwards: in the first layer that is wide enough, as many slots behind the
-- layer's step as the wait has whole units of the layer; or nowhere, since no layer is wide enough.
abbrev pub IsPut : ℕ → ℕ → ℕ → Wheel → Wheel → Type 0
IsPut m interval a w v =
    ((l : ℕ) × (l < m)
      × ((l ≡ 0) ⊎ (w.tickms * w.wheel_size ^ l ≤ interval))
      × (interval < w.tickms * w.wheel_size ^ (l + 1))
      × (v
          ≡ put_timer l
              (slot_behind (w.steps l) (interval / (w.tickms * w.wheel_size ^ l)) w.wheel_size) a
              w))
    ⊎ ((v ≡ w) × ((m ≡ 0) ⊎ (w.tickms * w.wheel_size ^ m ≤ interval)))

-- A timer that a layer is wide enough for is due within the range of all layers.
within_range :
    (i a : ℕ) (w : Wheel)
    → IsKept w
    → i < w.layers
    → waited a w < w.tickms * w.wheel_size ^ (i + 1)
    → (w.timer a).timer.execution_time < horizon w
within_range i a w q lt h =
    let wider : w.wheel_size ^ (i + 1) ≤ w.wheel_size ^ w.layers =
      pow-le-pow_right q.size (omega (arith, lt)) in
    let whole : w.tickms * w.wheel_size ^ (i + 1) ≤ range w = mul-le-mul_left w.tickms wider in
    omega (arith, whole, h)

slot-there :
    (i interval : ℕ) (w : Wheel)
    → IsKept w
    → (i ≡ 0) ⊎ (w.tickms * w.wheel_size ^ i ≤ interval)
    → slot_of (w.steps i) (pos (interval / (w.tickms * w.wheel_size ^ i))) w.wheel_size
      ≡ some (slot_behind (w.steps i) (interval / (w.tickms * w.wheel_size ^ i)) w.wheel_size)
slot-there i interval w q h =
    let unit = w.tickms * w.wheel_size ^ i in
    slot_of-there (w.steps i) (interval / unit) w.wheel_size (q.turned i) (elim h [
      | inl e ↦ inl (ap (λ z. neg_part (w.steps z)) e ∙ ap neg_part q.started)
      | inr wide ↦ inr (
          quotient-positive unit interval (mul-pos q.ticks (one-le-pow i w.wheel_size q.size)) wide)
    ])

add_from-IsPut :
    (k i m interval a : ℕ) (w : Wheel) (q : IsKept w)
    → m ≡ k + i
    → m ≡ w.layers
    → interval ≡ waited a w
    → IsFree w a
    → a ≢ 0
    → (i ≡ 0) ⊎ (w.tickms * w.wheel_size ^ i ≤ interval)
    → (v : Wheel) × (add_from k i (pos interval) a w ≡ some v) × IsKept v × IsPut m interval a w v
unfolding add_from
add_from-IsPut zero i m interval a w q e all wait free n h =
    let here : i ≡ m = omega (arith, e) in
    (w, refl, q, inr (refl, subst (λ z. (z ≡ 0) ⊎ (w.tickms * w.wheel_size ^ z ≤ interval)) here h))
add_from-IsPut (suc k) i m interval a w q e all wait free n h =
    elim (Bool-cases (ltb interval (w.tickms * w.wheel_size ^ (i + 1)))) [
      | inl fits ↦
          let unit = w.tickms * w.wheel_size ^ i in
          let j = slot_behind (w.steps i) (interval / unit) w.wheel_size in
          let below : interval < w.tickms * w.wheel_size ^ (i + 1) = ground (arith, fits) in
          let due =
            within_range i a w q (omega (arith, e, all))
              (subst (λ z. z < w.tickms * w.wheel_size ^ (i + 1)) wait below) in
          (
            put_timer i j a w,
            rw (fits, slot-there i interval w q h) refl,
            put_timer-IsKept w q i j a
                (mod-lt (pos_part (w.steps i) + interval / unit - neg_part (w.steps i)) q.size) free
                n due,
            inl (i, omega (arith, e), h, below, refl),
          )
      | inr wide ↦
          let next : i + 1 ≡ suc i = omega arith in
          let (v, added, p, put) =
            add_from-IsPut k (suc i) m interval a w q (omega (arith, e)) all wait free n
              (inr (subst (λ z. w.tickms * w.wheel_size ^ z ≤ interval) next (ground arith))) in
          (v, rw wide added, p, put)
    ]

-- `AddTimer` on a wheel that is in order: at most 2^30 slots in a layer, each layer's step one of
-- them or -1, the first layer's not -1, each count the number of the layer's timers, each timer that
-- waits once in the slot of its position and due within the range of the layers, and no interval so
-- long that with that range it comes to more than 2^31 milliseconds. A timer that is in no slot and
-- is due less than 2^31 milliseconds after the last turn is put at the end of one slot: in the first
-- layer that is wide enough for its wait, as many slots behind the layer's step as the wait has
-- whole units of that layer; or nowhere where no layer is wide enough. The wheel stays in order.
pub add_timer-IsPut :
    (a : ℕ) (w : Wheel)
    → IsKept w
    → IsFree w a
    → a ≢ 0
    → IsSoon a w
    → (v : Wheel) × (add_timer a w ≡ some v) × IsKept v × IsPut w.layers (waited a w) a w v
unfolding add_timer
add_timer-IsPut a w q free n soon =
    let (v, added, p, put) =
      add_from-IsPut w.layers 0 w.layers (waited a w) a w q (omega arith) refl refl free n
        (inl refl) in
    (v, ap (λ z. add_from w.layers 0 z a w) (wait_of_lem a w soon) ∙ added, p, put)

pub add_timer-IsGood :
    (a : ℕ) (w : Wheel) (q : IsKept w) → IsFree w a → a ≢ 0 → IsSoon a w → IsGood w (add_timer a w)
add_timer-IsGood a w q free n soon =
    let (v, added, p, put) = add_timer-IsPut a w q free n soon in
    (
      v,
      added,
      p,
      elim put [
        | inl (l, _, _, _, e) ↦ subst (IsLonger w) (sym e) (put_timer-IsLonger l _ a w)
        | inr (e, _) ↦ subst (IsLonger w) (sym e) (refl, λ i j. omega arith)
      ],
    )

-- A timer that was taken out of a slot can be put again.
pub pop_timer-IsSoon :
    (i j a : ℕ) (rest : List ℕ) (w : Wheel)
    → IsKept w
    → (w.timer a).timer.execution_time < horizon w
    → IsSoon a (pop_timer i j a rest w)
pop_timer-IsSoon i j a rest w q h =
    let same : ((pop_timer i j a rest w).timer a).timer.execution_time
        ≡ (w.timer a).timer.execution_time =
      ap (λ z. z.timer.execution_time)
        (update_self w.timer a (record (w.timer a) { popped = true })) in
    omega (arith, same, h, q.short a)

-- One timer of a slot, as long as there is one.
pub front-there :
    (xs : List ℕ) (n : ℕ)
    → suc n ≤ length xs
    → (a : ℕ) × (rest : List ℕ) × (xs ≡ a ∷ rest) × (n ≤ length rest)
front-there [] n h = absurd (omega arith)
front-there (a ∷ rest) n h = (a, rest, refl, omega arith)

pub pop_timer-length :
    (i j a : ℕ) (rest : List ℕ) (w : Wheel)
    → length ((pop_timer i j a rest w).slots i j) ≡ length rest
pop_timer-length i j a rest w = ap length (
    ap (λ f. f j) (update_self w.slots i (update (w.slots i) j rest))
    ∙ update_self (w.slots i) j rest)

-- What a loop's turn and the rest of the loop give, with layers of `n` slots.
abbrev pub IsKeptBy : ℕ → Option Wheel → Type 0
IsKeptBy n r = (v : Wheel) × (r ≡ some v) × IsKept v × (v.wheel_size ≡ n)

and_then-IsKept :
    (n : ℕ) (f : Wheel → Option Wheel) (r : Option Wheel) (v : Wheel)
    → r ≡ some v
    → v.wheel_size ≡ n
    → IsKeptBy v.wheel_size (f v)
    → IsKeptBy n (and_then f r)
and_then-IsKept n f r v e same (u, g, k, s) = (u, ap (and_then f) e ∙ g, k, s ∙ same)

move_timers-IsKept :
    (n i j : ℕ) (w : Wheel)
    → IsKept w
    → j < w.wheel_size
    → n ≤ length (w.slots i j)
    → IsKeptBy w.wheel_size (move_timers n i j w)
unfolding move_timers
move_timers-IsKept zero i j w q lt h = (w, refl, q, refl)
move_timers-IsKept (suc n) i j w q lt h =
    let (a, rest, front, enough) = front-there (w.slots i j) n h in
    let (v, added, p, longer) =
      add_timer-IsGood a (pop_timer i j a rest w) (pop_timer-IsKept w q i j a lt rest front)
        (pop_timer-IsFree w q i j a lt rest front) (front-AreNodes w q i j a lt rest front).0
        (pop_timer-IsSoon i j a rest w q (front-AllBefore w q i j a lt rest front).0) in
    and_then-IsKept w.wheel_size (move_timers n i j) (move_first i j (w.slots i j) w) v
      (ap (λ xs. move_first i j xs w) front ∙ added) longer.0
      (move_timers-IsKept n i j v p (subst (λ z. j < z) (sym longer.0) lt)
        (omega (arith, longer.1 i j, pop_timer-length i j a rest w, enough)))

-- From a slot on, the loop's index stays one of a slot.
move_slots-IsKept :
    (n i j : ℕ) (w : Wheel) → IsKept w → IsKeptBy w.wheel_size (move_slots n i (pos j) w)
unfolding move_slots
move_slots-IsKept zero i j w q = (w, refl, q, refl)
move_slots-IsKept (suc n) i j w q =
    let slot = j % w.wheel_size in
    let (v, moved, p, same) =
      move_timers-IsKept (length (w.slots i slot)) i slot w q (mod-lt j q.size) (omega arith) in
    and_then-IsKept w.wheel_size (move_slots n i (pos (suc j)))
      (move_timers (length (w.slots i slot)) i slot w) v moved same
      (move_slots-IsKept n i (suc j) v p)

-- A loop over the slots starts at one.
pub first_slot-there : (step : ℤ) → neg_part step ≤ 1 → (j : ℕ) × (first_slot step ≡ pos j)
first_slot-there (pos n) h = (n, refl)
first_slot-there (negsuc zero) h = (0, refl)
first_slot-there (negsuc (suc n)) h = absurd (omega arith)

pub move_layers-IsKept :
    (k : ℕ) (steps : ℕ → ℤ) (w : Wheel) → IsKept w → IsKeptBy w.wheel_size (move_layers k steps w)
unfolding move_layers
move_layers-IsKept zero steps w q = (w, refl, q, refl)
move_layers-IsKept (suc i) steps w q =
    let count = slot_count (steps (suc i)) (w.steps (suc i)) w.wheel_size in
    let start = first_slot (w.steps (suc i)) in
    let (j, first) = first_slot-there (w.steps (suc i)) (q.turned (suc i)) in
    let (v, moved, p, same) = move_slots-IsKept count (suc i) j w q in
    and_then-IsKept w.wheel_size (move_layers i steps) (move_slots count (suc i) start w) v
      (ap (λ z. move_slots count (suc i) z w) first ∙ moved) same (move_layers-IsKept i steps v p)

-- ===== src/Tcp/TimerWheel/Waiting.antt =====
-- `NextTimeoutInterval` of `TimerWheelManager`.
use restful_cweb.Prelude.{
  ℕ, zero, suc, ◌+◌, ◌*◌, ◌^◌, ◌<◌, ◌≡◌, refl, sym, ap, ◌∙◌, arith, pos, negsuc, ◌⊎◌, inl, inr,
  Bool-cases, true, false,
}
use restful_cweb.Tcp.TimerWheel.{Wheel, is_positive, next_from, next_timeout_interval}
use restful_cweb.Tcp.TimerWheel.Sums.{total}
use restful_cweb.Tcp.TimerWheel.Kept.{IsKept}

-- The number of timers in the first layers.
abbrev pub waiting : ℕ → Wheel → ℕ
waiting zero w = 0
waiting (suc i) w = waiting i w + total (w.slots i) w.wheel_size

positive-pos : (n : ℕ) → is_positive (pos n) ≡ true → 0 < n
positive-pos zero h = grind arith
positive-pos (suc n) h = omega arith

not_positive-pos : (n : ℕ) → is_positive (pos n) ≡ false → n ≡ 0
not_positive-pos zero h = refl
not_positive-pos (suc n) h = grind arith

next_from-waiting :
    (k i n : ℕ) (w : Wheel) (q : IsKept w)
    → n ≡ k + i
    → waiting i w ≡ 0
    → ((next_from k i w ≡ negsuc 0) × (waiting n w ≡ 0))
      ⊎ ((m : ℕ) × (m < n)
          × (waiting m w ≡ 0)
          × (0 < total (w.slots m) w.wheel_size)
          × (next_from k i w ≡ pos (w.tickms * w.wheel_size ^ m)))
unfolding next_from
next_from-waiting zero i n w q e none_before =
    let here : n ≡ i = omega (arith, e) in inl (refl, ap (λ z. waiting z w) here ∙ none_before)
next_from-waiting (suc k) i n w q e none_before = elim (Bool-cases (is_positive (w.counts i))) [
  | inl some_there ↦ inr (
    i,
    omega (arith, e),
    none_before,
    positive-pos (total (w.slots i) w.wheel_size) (sym (ap is_positive (q.counted i)) ∙ some_there),
    rw some_there refl,
  )
  | inr empty ↦
      let none_here =
        not_positive-pos (total (w.slots i) w.wheel_size)
          (sym (ap is_positive (q.counted i)) ∙ empty) in
      rw empty (
        next_from-waiting k (suc i) n w q (omega (arith, e))
          (omega (arith, none_before, none_here)))
]

-- `NextTimeoutInterval` is -1 where no layer has a timer, and else the time of a slot of the first
-- layer that has one.
pub next_timeout_interval-waiting :
    (w : Wheel)
    → IsKept w
    → ((next_timeout_interval w ≡ negsuc 0) × (waiting w.layers w ≡ 0))
      ⊎ ((m : ℕ) × (m < w.layers)
          × (waiting m w ≡ 0)
          × (0 < total (w.slots m) w.wheel_size)
          × (next_timeout_interval w ≡ pos (w.tickms * w.wheel_size ^ m)))
unfolding next_timeout_interval
next_timeout_interval-waiting w q = next_from-waiting w.layers 0 w.layers w q (omega arith) refl

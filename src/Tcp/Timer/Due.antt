-- ===== src/Tcp/Timer/Due.antt =====
-- Which timers a turn of the manager takes out, and what it leaves.
use mathlib.Core.Path.{subst}
use restful_cweb.Prelude.{
  ℕ, zero, suc, ◌+◌, ◌≤◌, ◌<◌, ◌≡◌, refl, ◌⊎◌, Bool, true, List, [], ◌∷◌, ltb, ◌==◌, ◌||◌, length,
  arith, Bool-cases, inl, inr,
}
use restful_cweb.Util.PriorityQueue.{at, key_at, pop}
use restful_cweb.Util.PriorityQueue.Places.{count}
use restful_cweb.Util.PriorityQueue.Up.{IsHeap}
use restful_cweb.Util.PriorityQueue.Down.{front_least, pop_lem}
use restful_cweb.Tcp.Timer.{Timer, Timers, no_timer, time_of, pop_one_timeout_timer, pop_loop}

abbrev pub IsQueue : Timers → Type 0
IsQueue q = IsHeap no_timer time_of q

-- A timer before a time.
abbrev pub before : ℕ → Timer → Bool
before m t = ltb (time_of t) m

-- The timers come in the order of their times, none before `m`.
abbrev pub Ascends : ℕ → List Timer → Type 0
Ascends m [] = Unit {0}
Ascends m (t ∷ ts) = (m ≤ time_of t) × Ascends (time_of t) ts

-- Each is due at the reading of the clock that it was taken out for.
abbrev pub AreDue : (ℕ → ℕ) → ℕ → List Timer → Type 0
AreDue clock i [] = Unit {0}
AreDue clock i (t ∷ ts) = (time_of t ≤ clock i) × AreDue clock (suc i) ts

-- Nothing is left, or the first one is not due.
abbrev pub IsDone : ℕ → Timers → Type 0
IsDone now q = (length q ≡ 0) ⊎ (now < key_at no_timer time_of q 0)

pub none_before :
    (m : ℕ) (q : Timers)
    → ((c : ℕ) → c < length q → m ≤ key_at no_timer time_of q c)
    → count (before m) q ≡ 0
unfolding count key_at at
none_before m [] h = refl
none_before m (t ∷ q) h =
    let first : m ≤ time_of t = h 0 (omega arith) in
    let later = none_before m q (λ c p. h (suc c) (omega arith)) in ground arith

front-before :
    (m : ℕ) (q : Timers) → 0 < length q → count (before m) q ≡ 0 → m ≤ key_at no_timer time_of q 0
unfolding count key_at at
front-before m [] h e = absurd (omega arith)
front-before m (t ∷ q) h e = ground arith

stopped :
    (i : ℕ) (clock : ℕ → ℕ) (q : Timers)
    → (length q == 0 || ltb (clock i) (key_at no_timer time_of q 0)) ≡ true
    → IsDone (clock i) q
stopped i clock q stop = elim (Bool-cases (length q == 0)) [
  | inl empty ↦ inl (ground arith)
  | inr some_left ↦ inr (ground arith)
]

pub record Taken (clock : ℕ → ℕ) (i m : ℕ) (q : Timers) (out : List Timer × Timers) : Type 0 where
  pub queue : IsQueue out.1
  pub kept : (p : Timer → Bool) → count p q ≡ count p out.0 + count p out.1
  pub ascends : Ascends m out.0
  pub due : AreDue clock i out.0
  pub done : IsDone (clock (i + length out.0)) out.1

pub pop_loop-Taken :
    (k : ℕ) (clock : ℕ → ℕ) (i m : ℕ) (q : Timers)
    → length q < k
    → IsQueue q
    → count (before m) q ≡ 0
    → Taken clock i m q (pop_loop k clock i q)
unfolding pop_loop pop_one_timeout_timer key_at count
pop_loop-Taken zero clock i m q h v b = absurd (omega arith)
pop_loop-Taken (suc k) clock i m q h v b =
    elim (Bool-cases (length q == 0 || ltb (clock i) (key_at no_timer time_of q 0))) [
      | inl stop ↦ rw stop (record {
        queue = v;
        kept = λ p. omega arith;
        ascends = tt;
        due = tt;
        done = subst (λ n. IsDone (clock n) q) (omega arith) (stopped i clock q stop);
      })
      | inr go ↦
          let some_left : 0 < length q = ground arith in
          let (v', counts, size) = pop_lem no_timer time_of q v some_left in
          let front = key_at no_timer time_of q 0 in
          let t = pop_loop-Taken k clock (suc i) front (pop no_timer time_of q) (omega arith) v' (
            omega (
              arith,
              counts (before front),
              none_before front q (front_least no_timer time_of q v),
            )) in
          rw go (record {
            queue = t.queue;
            kept = λ p. omega (arith, counts p, t.kept p);
            ascends = (front-before m q some_left b, t.ascends);
            due = (ground arith, t.due);
            done =
                subst (λ n. IsDone (clock n) (pop_loop k clock (suc i) (pop no_timer time_of q)).1)
                  (omega arith) t.done;
          })
    ]

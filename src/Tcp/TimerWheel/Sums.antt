-- ===== src/Tcp/TimerWheel/Sums.antt =====
-- The number of timers in the slots of a layer, and slots after an assignment.
use restful_cweb.Prelude.{
  ℕ, zero, suc, ◌+◌, ◌<◌, ◌≤◌, ◌≡◌, ◌≢◌, refl, sym, ap, ◌∙◌, List, arith, length, update,
  update_self, update_other, ◌⊎◌, inl, inr, ◌==◌, Bool-cases,
}
use restful_cweb.Tcp.TimerWheel.{set_slot}

abbrev pub total : (ℕ → List ℕ) → ℕ → ℕ
total f zero = 0
total f (suc n) = total f n + length (f n)

total-unchanged :
    (f : ℕ → List ℕ) (j : ℕ) (xs : List ℕ) (n : ℕ) → n ≤ j → total (update f j xs) n ≡ total f n
total-unchanged f j xs zero h = refl
total-unchanged f j xs (suc n) h = omega (
  arith,
  total-unchanged f j xs n (omega arith),
  ap length (update_other f j xs n (λ e. omega (arith, h, e))),
)

pub total-update :
    (f : ℕ → List ℕ) (j : ℕ) (xs : List ℕ) (n : ℕ)
    → j < n
    → total (update f j xs) n + length (f j) ≡ total f n + length xs
total-update f j xs zero h = absurd (omega arith)
total-update f j xs (suc n) h = elim (Bool-cases (j == n)) [
  | inl e ↦
      let here : j ≡ n = ground arith in
      omega (
        arith,
        total-unchanged f j xs n (omega arith),
        ap length (ap (update f j xs) (sym here) ∙ update_self f j xs),
        ap (λ k. length (f k)) here,
      )
  | inr e ↦
      let away : j ≢ n = ground arith in
      omega (
        arith,
        total-update f j xs n (omega (arith, away, h)),
        ap length (update_other f j xs n away),
      )
]

-- The slot that is written, and the others.
pub set_slot-cases :
    (i j : ℕ) (xs : List ℕ) (f : ℕ → ℕ → List ℕ) (k m : ℕ)
    → ((i ≡ k) × (j ≡ m) × (set_slot i j xs f k m ≡ xs))
      ⊎ (((i ≢ k) ⊎ (j ≢ m)) × (set_slot i j xs f k m ≡ f k m))
set_slot-cases i j xs f k m = elim (Bool-cases (i == k)) [
  | inr e ↦
      let away : i ≢ k = ground arith in
      inr (inl away, ap (λ g. g m) (update_other f i (update (f i) j xs) k away))
  | inl e ↦
      let here : i ≡ k = ground arith in
      let row : set_slot i j xs f k ≡ update (f i) j xs =
        ap (set_slot i j xs f) (sym here) ∙ update_self f i (update (f i) j xs) in
      elim (Bool-cases (j == m)) [
        | inr d ↦
            let away : j ≢ m = ground arith in
            inr
              (inr away, ap (λ g. g m) row ∙ update_other (f i) j xs m away ∙ ap (λ k. f k m) here)
        | inl d ↦
            let at : j ≡ m = ground arith in
            inl (
              here,
              at,
              ap (λ g. g m) row ∙ ap (update (f i) j xs) (sym at) ∙ update_self (f i) j xs,
            )
      ]
]

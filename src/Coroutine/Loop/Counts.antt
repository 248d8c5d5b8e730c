-- ===== src/Coroutine/Loop/Counts.antt =====
-- No coroutine is lost: what a turn of the loop does with the lists.
use restful_cweb.Prelude.{
  ℕ, ◌+◌, ◌≡◌, ◌≢◌, refl, sym, ap, ◌∙◌, List, [], ◌∷◌, ◌++◌, arith, length, Option, none, some, ◌⊎◌,
  inl, inr, ◌==◌, if◌then◌else◌, false, true, Bool, Bool-cases, ltb,
}
use restful_cweb.Coroutine.Loop.Lists.{move_ready_coroutines-IsMoved}
use restful_cweb.Coroutine.Loop.{
  without, State, ready, hold, exec, term, CoLoop, next_in, move_stateful, move_stateless,
  move_ready_coroutines, choose_next, after_exec, hold_coroutine, after_hold, after_term,
  after_switch,
}

-- How often a coroutine is in a list, and in the lists of the loop.
abbrev pub once : Bool → ℕ
once true = 1
once false = 0

abbrev pub times : ℕ → List ℕ → ℕ
times co [] = 0
times co (x ∷ xs) = once (x == co) + times co xs

abbrev pub times_in : ℕ → CoLoop → ℕ
times_in co l = times co l.running + times co l.held + times co l.stateful + times co l.stateless

times-append : (co : ℕ) (xs ys : List ℕ) → times co (xs ++ ys) ≡ times co xs + times co ys
times-append co [] ys = omega arith
times-append co (x ∷ xs) ys = omega (arith, times-append co xs ys)

-- Taking out a coroutine that is in the list.
times-without :
    (co a : ℕ) (xs : List ℕ)
    → (times a xs ≡ 0) ⊎ (times co (without a xs) + once (a == co) ≡ times co xs)
times-without co a [] = inl refl
times-without co a (x ∷ xs) = elim (Bool-cases (x == a)) [
  | inl e ↦
      let same : x ≡ a = ground arith in inr (rw e (omega (arith, ap (λ z. once (z == co)) same)))
  | inr e ↦ elim (times-without co a xs) [
    | inl h ↦ inl (rw e (omega (arith, h)))
    | inr h ↦ inr (rw e (omega (arith, h)))
  ]
]

-- The ready ones that move.
module _ (co : ℕ) (rs hs : List ℕ) where
  move_stateful-lists :
      (xs ys : List ℕ) (c : Option ℕ)
      → times_in co (
          move_stateful
            (record { running = rs; held = hs; stateful = xs; stateless = ys; current = c }))
        ≡ times co rs + times co hs + times co xs + times co ys
  move_stateful-lists [] ys c = refl
  move_stateful-lists (x ∷ xs) ys c = omega (arith, times-append co rs (x ∷ xs))

  move_stateless-lists :
      (size : ℕ) (xs ys : List ℕ) (c : Option ℕ)
      → times_in co (
          move_stateless size
            (record { running = rs; held = hs; stateful = xs; stateless = ys; current = c }))
        ≡ times co rs + times co hs + times co xs + times co ys
  move_stateless-lists size xs [] c = elim (Bool-cases (ltb size 5)) [
    | inl e ↦ rw e refl
    | inr e ↦ rw e refl
  ]
  move_stateless-lists size xs (y ∷ ys) c = elim (Bool-cases (ltb size 5)) [
    | inl e ↦ rw e (omega (arith, times-append co rs (y ∷ ys)))
    | inr e ↦ rw e refl
  ]

times_in-move_ready_coroutines :
    (co : ℕ) (l : CoLoop) → times_in co (move_ready_coroutines l) ≡ times_in co l
unfolding move_ready_coroutines
times_in-move_ready_coroutines co l =
    let m = move_stateful l in
    move_stateless-lists co m.running m.held (length l.stateful) m.stateful m.stateless m.current
    ∙ move_stateful-lists co l.running l.held l.stateful l.stateless l.current

times_in-choose_next :
    (co : ℕ) (f : CoLoop → Option ℕ) (o : Option ℕ) (l : CoLoop)
    → times_in co (choose_next f o l) ≡ times_in co l
times_in-choose_next co f none l = times_in-move_ready_coroutines co l
times_in-choose_next co f (some x) l = refl

-- A running coroutine is still running when the ready ones have moved.
still_running :
    (co : ℕ) (f : CoLoop → Option ℕ) (o : Option ℕ) (l : CoLoop)
    → times co l.running ≢ 0
    → times co (choose_next f o l).running ≢ 0
still_running co f (some x) l h = h
still_running co f none l h = λ e. elim (move_ready_coroutines-IsMoved l) [
  | inl (same, _, _) ↦ h (sym (ap (λ k. times co k.running) same) ∙ e)
  | inr (m, ms, running, _, _) ↦
      h (omega (arith, e, ap (times co) running, times-append co l.running (m ∷ ms)))
]

-- The states in which a coroutine is deleted.
abbrev pub is_deleted : State → Bool
is_deleted ready = true
is_deleted hold = false
is_deleted exec = false
is_deleted term = true

abbrev pub lost : State → ℕ → ℕ → ℕ
lost s a co = if is_deleted s then once (a == co) else 0

after_term-times :
    (co a : ℕ) (l : CoLoop)
    → times a l.running ≢ 0
    → times_in co (after_term a l) + once (a == co) ≡ times_in co l
after_term-times co a l there =
    let m = after_exec a l in
    elim (times-without co a m.running) [
      | inl h ↦ absurd (still_running a (λ k. next_in k.running a) (next_in l.running a) l there h)
      | inr h ↦
          omega
            (arith, h, times_in-choose_next co (λ k. next_in k.running a) (next_in l.running a) l)
    ]

after_hold-times :
    (co a : ℕ) (l : CoLoop) → times a l.running ≢ 0 → times_in co (after_hold a l) ≡ times_in co l
after_hold-times co a l there =
    let m = hold_coroutine a l in
    elim (times-without co a l.running) [
      | inl h ↦ absurd (there h)
      | inr h ↦ omega (
        arith,
        h,
        times-append co l.held (a ∷ []),
        times_in-choose_next co (λ k. next_in k.held a) (next_in m.held a) m,
      )
    ]

-- When a running coroutine switches back, the lists then have every coroutine as often as before,
-- those that have become ready included, but for the one that has switched back where it is deleted,
-- which they have once less.
pub after_switch-times :
    (co a : ℕ) (s : State) (l : CoLoop)
    → times a l.running ≢ 0
    → times_in co (after_switch s a l) + lost s a co ≡ times_in co l
after_switch-times co a ready l there = after_term-times co a l there
after_switch-times co a term l there = after_term-times co a l there
after_switch-times co a hold l there = omega (arith, after_hold-times co a l there)
after_switch-times co a exec l there =
    omega (arith, times_in-choose_next co (λ k. next_in k.running a) (next_in l.running a) l)

-- ===== src/Util/LockfreeQueue/Invariant.antt =====
-- What holds between the steps of the two threads.
use restful_cweb.Prelude.{
  ℕ, zero, suc, ◌+◌, ◌-◌, ◌%◌, ◌≤◌, ◌<◌, ◌≡◌, ◌≢◌, sym, ap, ◌∙◌, inl, inr, arith, Bool-cases, ltb,
  ◌==◌, List, [], ◌∷◌, ◌++◌, length, get_or, false, drop,
}
use restful_cweb.Util.LockfreeQueue.Ring.{mod-after, mod-around, mod-distinct, get_or-append_front}
use restful_cweb.Util.LockfreeQueue.{
  Producer, resting, loaded, has_room, written, Consumer, idle, loaded_front, not_empty, copied,
  Queue,
}

module _ {A : Type 0} (capacity : ℕ) (other : A) where
  -- What the threads know: with `w` pushes and `r` pops done, of which `w` is the number of the next
  -- value to push and `r` that of the next one to pop.
  abbrev pub Pushing : (w r : ℕ) → List A → ℕ → Producer A → Type 0
  Pushing w r ring back resting = 0 ≤ w
  Pushing w r ring back (loaded v b) = b ≡ back
  Pushing w r ring back (has_room v b) = (b ≡ back) × (w + 1 < r + capacity)
  Pushing w r ring back (written v b) =
      (b ≡ back) × (w + 1 < r + capacity) × (get_or ring (w % capacity) other ≡ v)

  abbrev pub Popping : (w r : ℕ) → List A → ℕ → Consumer A → Type 0
  Popping w r pushed front idle = 0 ≤ w
  Popping w r pushed front (loaded_front f) = f ≡ front
  Popping w r pushed front (not_empty f) = (f ≡ front) × (r < w)
  Popping w r pushed front (copied f v) = (f ≡ front) × (r < w) × (get_or pushed r other ≡ v)

  pub record Inv (q : Queue A) (w r : ℕ) : Type 0 where
    pub pushes : length q.pushed ≡ w
    pub pops : length q.popped ≡ r
    pub size : length q.ring ≡ capacity
    pub back_at : q.back ≡ w % capacity
    pub front_at : q.front ≡ r % capacity
    pub fewer : r ≤ w
    pub room : w < r + capacity
    pub slots :
        (k : ℕ) → r ≤ k → k < w → get_or q.ring (k % capacity) other ≡ get_or q.pushed k other
    pub prefix : q.popped ++ drop r q.pushed ≡ q.pushed
    pub pushing : Pushing w r q.ring q.back q.producer
    pub popping : Popping w r q.pushed q.front q.consumer

  pub Pushing-pop :
      (w r : ℕ) (ring : List A) (back : ℕ) (p : Producer A)
      → Pushing w r ring back p
      → Pushing w (r + 1) ring back p
  Pushing-pop w r ring back resting h = omega arith
  Pushing-pop w r ring back (loaded v b) h = h
  Pushing-pop w r ring back (has_room v b) h = (h.0, omega (arith, h.1))
  Pushing-pop w r ring back (written v b) h = (h.0, omega (arith, h.1), h.2)

  pub Popping-push :
      (w r : ℕ) (pushed : List A) (v : A) (front : ℕ) (c : Consumer A)
      → w ≡ length pushed
      → Popping w r pushed front c
      → Popping (w + 1) r (pushed ++ v ∷ []) front c
  Popping-push w r pushed v front idle e h = omega arith
  Popping-push w r pushed v front (loaded_front f) e h = h
  Popping-push w r pushed v front (not_empty f) e h = (h.0, omega (arith, h.1))
  Popping-push w r pushed v front (copied f x) e h = (
    h.0,
    omega (arith, h.1),
    get_or-append_front other pushed (v ∷ []) r (omega (arith, h.1)) ∙ h.2,
  )

  -- The write goes to a slot that no waiting value has.
  pub free_slot : (w r k : ℕ) → r ≤ k → k < w → w < r + capacity → w % capacity ≢ k % capacity
  free_slot w r k h l m e =
      let parted : k + (w - k) ≡ w = omega arith in
      absurd (
        omega (
          arith,
          mod-distinct k (w - k) capacity (omega arith) (ap (λ n. n % capacity) parted ∙ e),
        ))

  pub distinct : (a b : ℕ) → (a == b) ≡ false → a ≢ b
  distinct a b h = ground arith

  pub drop_one :
      (n : ℕ) (xs : List A) (x : A)
      → n < length xs
      → get_or xs n other ≡ x
      → x ∷ drop (suc n) xs ≡ drop n xs
  drop_one n [] x h e = absurd (omega arith)
  drop_one zero (y ∷ xs) x h e = ap (λ z. z ∷ xs) (sym e)
  drop_one (suc n) (y ∷ xs) x h e = drop_one n xs x (omega arith) e

  -- A test that finds room.
  pub room_left :
      (w r : ℕ)
      → w < r + capacity
      → r ≤ w
      → (w % capacity + 1) % capacity ≢ r % capacity
      → w + 1 < r + capacity
  room_left w r h l ne = elim (Bool-cases (ltb (w + 1) (r + capacity))) [
    | inl less ↦ ground arith
    | inr more ↦
        let full : w + 1 ≡ r + capacity = ground arith in
        absurd (ne (mod-after w capacity ∙ ap (λ n. n % capacity) full ∙ mod-around r capacity))
  ]

  pub some_left : (w r : ℕ) → r ≤ w → r % capacity ≢ w % capacity → r < w
  some_left w r l ne = elim (Bool-cases (ltb r w)) [
    | inl less ↦ ground arith
    | inr more ↦ let same : r ≡ w = ground arith in absurd (ne (ap (λ n. n % capacity) same))
  ]

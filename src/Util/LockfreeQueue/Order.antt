-- ===== src/Util/LockfreeQueue/Order.antt =====
-- The queue of one pushing and one popping thread: what is popped is what was pushed, in order.
use restful_cweb.Prelude.{
  ℕ, suc, ◌+◌, ◌-◌, ◌%◌, ◌≤◌, ◌<◌, ◌≡◌, ◌≢◌, refl, sym, ap, ◌∙◌, ◌⊎◌, inl, inr, arith, Bool-cases,
  ltb, ◌==◌, ==_iff, List, [], ◌∷◌, ◌++◌, length, length-append, get_or, drop-append, drop_all,
  length-drop, drop, length-replicate,
}
use mathlib.Core.Path.{subst}
use native.Mathlib.Nat.{mod-eq_of_lt}
use restful_cweb.Util.LockfreeQueue.Ring.{mod-after, mod-distinct}
use restful_cweb.Util.LockfreeQueue.{
  loaded, loaded_front, Queue, new_queue, after, Step, loads_back, tests_room, writes_slot,
  stores_back, loads_front, tests_empty, reads_slot, stores_front, Reach, start, later,
}
use restful_cweb.Util.LockfreeQueue.Invariant.{Inv, Pushing, Popping, drop_one, distinct}
use restful_cweb.Util.LockfreeQueue.Moves.{
  producer_to, consumer_to, test_room-Inv, test_empty-Inv, write_slot-Inv, store_back-Inv,
  read_slot-Inv, store_front-Inv,
}

module _ {A : Type 0} (capacity : ℕ) (other : A) where
  new_queue-Inv : 0 < capacity → Inv capacity other (new_queue capacity other) 0 0
  new_queue-Inv h = record {
    pushes = refl;
    pops = refl;
    size = length-replicate capacity other;
    back_at = sym (mod-eq_of_lt h);
    front_at = sym (mod-eq_of_lt h);
    fewer = omega arith;
    room = omega arith;
    slots = λ k l m. absurd (omega arith);
    prefix = refl;
    pushing = omega arith;
    popping = omega arith;
  }

  step-Inv :
      {q t : Queue A} (w r : ℕ)
      → Inv capacity other q w r
      → Step capacity other q t
      → (x y : ℕ) × Inv capacity other t x y
  step-Inv w r v (loads_back {q = q} x e) =
      (w, r, producer_to capacity other q w r (loaded x q.back) v refl)
  step-Inv w r v (tests_room {q = q} x b e) = (w, r, test_room-Inv capacity other q w r x b v e)
  step-Inv w r v (writes_slot {q = q} x b e) = (w, r, write_slot-Inv capacity other q w r x b v e)
  step-Inv w r v (stores_back {q = q} x b e) =
      (w + 1, r, store_back-Inv capacity other q w r x b v e)
  step-Inv w r v (loads_front {q = q} e) =
      (w, r, consumer_to capacity other q w r (loaded_front q.front) v refl)
  step-Inv w r v (tests_empty {q = q} f e) = (w, r, test_empty-Inv capacity other q w r f v e)
  step-Inv w r v (reads_slot {q = q} f e) = (w, r, read_slot-Inv capacity other q w r f v e)
  step-Inv w r v (stores_front {q = q} f x e) =
      (w, r + 1, store_front-Inv capacity other q w r f x v e)

  reach-Inv :
      {q : Queue A} → 0 < capacity → Reach capacity other q → (w r : ℕ) × Inv capacity other q w r
  reach-Inv h start = (0, 0, new_queue-Inv h)
  reach-Inv h (later r s) = let (w, p, v) = reach-Inv h r in step-Inv w p v s

  -- However the accesses of the pushing and the popping thread are interleaved, the values of the
  -- pushes that returned true are those of the pops that returned true, followed by fewer values
  -- than the capacity that still wait, in the order of the pushes: none is lost, doubled, changed or
  -- overtaken.
  pub reach-fifo :
      {q : Queue A}
      → 0 < capacity
      → Reach capacity other q
      → (waiting : List A) × (q.pushed ≡ q.popped ++ waiting) × (length waiting < capacity)
  reach-fifo {q = q} h r =
      let (w, p, v) = reach-Inv h r in
      (
        drop p q.pushed,
        sym v.prefix,
        omega (arith, length-drop p q.pushed, v.pushes, v.fewer, v.room),
      )

  -- The queue that the two threads share: the values that wait.
  abbrev pub waiting : Queue A → List A
  waiting q = drop (length q.popped) q.pushed

  -- What a step is to a bounded first-in first-out queue.
  abbrev pub Simulates : {q t : Queue A} → Step capacity other q t → Type 0
  Simulates {q = q} {t = t} (stores_back x b e) =
      (waiting t ≡ waiting q ++ x ∷ []) × (length (waiting q) + 1 < capacity)
  Simulates {q = q} {t = t} (stores_front f x e) = waiting q ≡ x ∷ waiting t
  Simulates {q = q} {t = t} (tests_room x b e) =
      (waiting t ≡ waiting q)
      × ((after capacity other b ≢ q.front) ⊎ (length (waiting q) + 1 ≡ capacity))
  Simulates {q = q} {t = t} (tests_empty f e) =
      (waiting t ≡ waiting q) × ((f ≢ q.back) ⊎ (waiting q ≡ []))
  Simulates {q = q} {t = t} (loads_back x e) = waiting t ≡ waiting q
  Simulates {q = q} {t = t} (writes_slot x b e) = waiting t ≡ waiting q
  Simulates {q = q} {t = t} (loads_front e) = waiting t ≡ waiting q
  Simulates {q = q} {t = t} (reads_slot f e) = waiting t ≡ waiting q

  length-waiting : (q : Queue A) (w r : ℕ) → Inv capacity other q w r → length (waiting q) + r ≡ w
  length-waiting q w r v =
      omega (arith, length-drop (length q.popped) q.pushed, v.pushes, v.pops, v.fewer)

  one_round :
      (w r n : ℕ)
      → r ≤ w
      → w < r + capacity
      → (w + 1) % capacity ≡ r % capacity
      → n + r ≡ w
      → n + 1 ≡ capacity
  one_round w r n h l e m = elim (Bool-cases (ltb (w + 1) (r + capacity))) [
    | inl less ↦
        let parted : r + (w + 1 - r) ≡ w + 1 = omega arith in
        let none_apart : w + 1 - r ≡ 0 =
          mod-distinct r (w + 1 - r) capacity (ground arith) (ap (λ n. n % capacity) parted ∙ e) in
        absurd (omega (arith, none_apart))
    | inr more ↦ ground arith
  ]

  full_or_room :
      (q : Queue A) (w r : ℕ) (x : A) (b : ℕ)
      → Inv capacity other q w r
      → q.producer ≡ loaded x b
      → (after capacity other b ≢ q.front) ⊎ (length (waiting q) + 1 ≡ capacity)
  full_or_room q w r x b v e =
      let at_back : b ≡ q.back =
        subst (λ p. Pushing capacity other w r q.ring q.back p) e v.pushing in
      elim (Bool-cases (after capacity other b == q.front)) [
        | inr different ↦ inl (distinct capacity other (after capacity other b) q.front different)
        | inl same ↦
            let met : after capacity other b ≡ q.front =
              (==_iff (after capacity other b) q.front).0 same in
            let around : (w + 1) % capacity ≡ r % capacity =
              sym (mod-after w capacity)
              ∙ ap (λ i. (i + 1) % capacity) (sym (at_back ∙ v.back_at))
              ∙ met
              ∙ v.front_at in
            inr (one_round w r (length (waiting q)) v.fewer v.room around (length-waiting q w r v))
      ]

  empty_or_some :
      (q : Queue A) (w r f : ℕ)
      → Inv capacity other q w r
      → q.consumer ≡ loaded_front f
      → (f ≢ q.back) ⊎ (waiting q ≡ [])
  empty_or_some q w r f v e =
      let at_front : f ≡ q.front =
        subst (λ c. Popping capacity other w r q.pushed q.front c) e v.popping in
      elim (Bool-cases (f == q.back)) [
        | inr different ↦ inl (distinct capacity other f q.back different)
        | inl same ↦
            let met : f ≡ q.back = (==_iff f q.back).0 same in
            let parted : r + (w - r) ≡ w = omega (arith, v.fewer) in
            let none_left : w - r ≡ 0 =
              mod-distinct r (w - r) capacity (omega (arith, v.room, v.fewer)) (
                ap (λ n. n % capacity) parted
                ∙ sym (sym (at_front ∙ v.front_at) ∙ met ∙ v.back_at)) in
            inr (drop_all q.pushed (length q.popped) (omega (arith, none_left, v.pushes, v.pops)))
      ]

  simulates :
      {q t : Queue A} (w r : ℕ) (s : Step capacity other q t)
      → Inv capacity other q w r
      → Simulates s
  simulates w r (stores_back {q = q} x b e) v =
      let (at_back, left, there) =
        subst (λ p. Pushing capacity other w r q.ring q.back p) e v.pushing in
      (
        drop-append q.pushed (x ∷ []) (length q.popped) (omega (arith, v.pushes, v.pops, v.fewer)),
        omega (arith, left, length-waiting q w r v),
      )
  simulates w r (stores_front {q = q} f x e) v =
      let (at_front, left, read) =
        subst (λ c. Popping capacity other w r q.pushed q.front c) e v.popping in
      let more : length (q.popped ++ x ∷ []) ≡ suc (length q.popped) =
        omega (arith, length-append q.popped (x ∷ [])) in
      sym (
        drop_one capacity other (length q.popped) q.pushed x (omega (arith, left, v.pushes, v.pops))
          (ap (λ i. get_or q.pushed i other) v.pops ∙ read))
      ∙ ap (λ n. x ∷ drop n q.pushed) (sym more)
  simulates w r (tests_room {q = q} x b e) v = (refl, full_or_room q w r x b v e)
  simulates w r (tests_empty {q = q} f e) v = (refl, empty_or_some q w r f v e)
  simulates w r (loads_back x e) v = refl
  simulates w r (writes_slot x b e) v = refl
  simulates w r (loads_front e) v = refl
  simulates w r (reads_slot f e) v = refl

  -- However the accesses of the pushing and the popping thread are interleaved, each step is one of
  -- a first-in first-out queue of fewer values than the capacity: the store of `back_` adds the
  -- value of the push at the end, where there is room, the store of `front_` takes the first value,
  -- which is the one that the pop returns, and the other steps change nothing. A push that finds no
  -- room does so where all slots but one are taken, and a pop that finds nothing where nothing waits.
  pub reach-Simulates :
      {q t : Queue A}
      → 0 < capacity
      → Reach capacity other q
      → (s : Step capacity other q t) → Simulates s
  reach-Simulates h r s = let (w, p, v) = reach-Inv h r in simulates w p s v

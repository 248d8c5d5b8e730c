-- ===== src/Util/PriorityQueue/Down.antt =====
-- `downturn`: an element that is too big for its place sinks to one where it belongs.
use restful_cweb.Prelude.{
  ℕ, zero, suc, ◌+◌, ◌-◌, ◌*◌, ◌/◌, ◌≤◌, ◌<◌, ◌≡◌, refl, ap, ◌∙◌, ◌≢◌, ◌⊎◌, Bool, ◌&&◌, List,
  length, ltb, ◌==◌, ==_iff, false, if◌then◌else◌, arith, Bool-cases, inl, inr, length-take,
}
use restful_cweb.Util.PriorityQueue.{
  at, key_at, swap, least_child, down_loop, downturn, pop, without_front,
}
use restful_cweb.Util.PriorityQueue.Places.{
  count, Same, length-swap, key_at-swap, at-swap, swap-Same, key_at-take, count-pop,
}
use restful_cweb.Util.PriorityQueue.Up.{IsHeap}

children : (c n : ℕ) → 0 < c → (c - 1) / 2 ≡ n → (c ≡ n * 2 + 1) ⊎ (c ≡ n * 2 + 1 + 1)
children c n p e = elim (Bool-cases (c == n * 2 + 1)) [
  | inl left ↦ inl (ground arith)
  | inr right ↦ inr (ground arith)
]

module _ {A : Type 0} (other : A) (key : A → ℕ) where
  -- A heap but for the element `n`, which may be bigger than what is below it.
  pub record SinksAt (a : List A) (n : ℕ) : Type 0 where
    pub edges :
        (c : ℕ)
        → 0 < c
        → c < length a
        → (c - 1) / 2 ≢ n
        → key_at other key a ((c - 1) / 2) ≤ key_at other key a c
    pub bridge :
        (c : ℕ)
        → 0 < n
        → 0 < c
        → c < length a
        → (c - 1) / 2 ≡ n
        → key_at other key a ((n - 1) / 2) ≤ key_at other key a c

  -- The child chosen is one that there is, and no other child is smaller.
  least_child_lem :
      (a : List A) (n : ℕ)
      → n * 2 + 1 < length a
      → (least_child other key a n < length a)
        × ((least_child other key a n - 1) / 2 ≡ n)
        × (n < least_child other key a n)
        × ((c : ℕ)
            → 0 < c
            → c < length a
            → (c - 1) / 2 ≡ n
            → key_at other key a (least_child other key a n) ≤ key_at other key a c)
  least_child_lem a n h =
      elim (Bool-cases (
        ltb (n * 2 + 1 + 1) (length a)
        && ltb (key_at other key a (n * 2 + 1 + 1)) (key_at other key a (n * 2 + 1)))) [
          | inl right ↦
              rw right
                (ground arith, omega arith, omega arith, λ c p q e. grind (arith, children c n))
          | inr left ↦
              rw left
                (omega arith, omega arith, omega arith, λ c p q e. grind (arith, children c n))
        ]

  swap-SinksAt :
      (a : List A) (n c : ℕ)
      → SinksAt a n
      → c < length a
      → (c - 1) / 2 ≡ n
      → n < c
      → ((d : ℕ)
          → 0 < d
          → d < length a
          → (d - 1) / 2 ≡ n
          → key_at other key a c ≤ key_at other key a d)
      → key_at other key a c < key_at other key a n
      → SinksAt (swap other key a n c) c
  swap-SinksAt a n c v inside up less least below =
      grind (arith, length-swap other key a n c, key_at-swap other key a n c)

  pub down_loop_lem :
      (k : ℕ) (a : List A) (n : ℕ)
      → length a ≤ n + k
      → SinksAt a n
      → IsHeap other key (down_loop other key k a n)
        × Same (down_loop other key k a n) a
        × (length (down_loop other key k a n) ≡ length a)
  unfolding down_loop
  down_loop_lem zero a n h v = ((λ c p q. v.edges c p q (omega arith)), (λ p. refl), refl)
  down_loop_lem (suc k) a n h v = elim (Bool-cases (ltb (n * 2 + 1) (length a))) [
    | inr leaf ↦ rw leaf ((λ c p q. v.edges c p q (ground arith)), (λ p. refl), refl)
    | inl inner ↦
        let child = least_child other key a n in
        let (inside, up, less, least) = least_child_lem a n (ground arith) in
        elim (Bool-cases (ltb (key_at other key a child) (key_at other key a n))) [
          | inl below ↦
              let (heap, same, size) =
                down_loop_lem k (swap other key a n child) child
                  (omega (arith, length-swap other key a n child))
                  (swap-SinksAt a n child v inside up less least (ground arith)) in
              rw (inner, below)
                (
                  heap,
                  (λ p. same p ∙ swap-Same other key a n child (omega arith) inside p),
                  size ∙ length-swap other key a n child,
                )
          | inr settled ↦
              rw (inner, settled) ((λ c p q. grind (arith, v.edges c, least c)), (λ p. refl), refl)
        ]
  ]

  least_front :
      (k : ℕ) (a : List A)
      → IsHeap other key a
      → (c : ℕ) → c ≤ k
      → c < length a
      → key_at other key a 0 ≤ key_at other key a c
  least_front k a heap zero h q = omega arith
  least_front zero a heap (suc c) h q = absurd (omega arith)
  least_front (suc k) a heap (suc c) h q =
      let up = least_front k a heap ((suc c - 1) / 2) (omega arith) (omega arith) in
      omega (arith, up, heap (suc c) (omega arith) q)

  -- No element is before the front.
  pub front_least :
      (a : List A)
      → IsHeap other key a
      → (c : ℕ) → c < length a
      → key_at other key a 0 ≤ key_at other key a c
  front_least a heap c q = least_front c a heap c (omega arith) q

  length-without_front : (a : List A) → length (without_front other key a) ≡ length a - 1
  unfolding without_front
  length-without_front a = omega (
    arith,
    length-take (length a - 1) (swap other key a 0 (length a - 1)),
    length-swap other key a 0 (length a - 1),
  )

  key_at-without_front :
      (a : List A) (c : ℕ)
      → 0 < c
      → c < length a - 1
      → key_at other key (without_front other key a) c ≡ key_at other key a c
  unfolding without_front
  key_at-without_front a c p q =
      key_at-take other key (length a - 1) (swap other key a 0 (length a - 1)) c q
      ∙ ground (arith, key_at-swap other key a 0 (length a - 1) (omega arith) (omega arith) c)

  without_front-SinksAt :
      (a : List A) → 0 < length a → IsHeap other key a → SinksAt (without_front other key a) 0
  without_front-SinksAt a h heap = record {
    edges = λ c p q ne. omega (
      arith,
      length-without_front a,
      heap c,
      key_at-without_front a c,
      key_at-without_front a ((c - 1) / 2),
    );
    bridge = λ c p. absurd (omega arith);
  }

  without_front-count :
      (a : List A) (p : A → Bool)
      → 0 < length a
      → count p a ≡ (if p (at other key a 0) then 1 else 0) + count p (without_front other key a)
  unfolding without_front
  without_front-count a p h =
      let sw = swap other key a 0 (length a - 1) in
      let size : length sw ≡ suc (length a - 1) =
        omega (arith, length-swap other key a 0 (length a - 1)) in
      let last : at other key sw (length a - 1) ≡ at other key a 0 =
        at-swap other key a 0 (length a - 1) h (omega arith) (length a - 1)
        ∙ ap
            (λ b.
              if b
              then at other key a 0
              else if 0 == length a - 1
              then at other key a (length a - 1)
              else at other key a (length a - 1))
            ((==_iff (length a - 1) (length a - 1)).1 refl) in
      omega (
        arith,
        swap-Same other key a 0 (length a - 1) h (omega arith) p,
        count-pop other key p (length a - 1) sw size,
        ap {B = ℕ} (λ x. if p x then 1 else 0) last,
      )

  -- `Pop` on a heap that has elements gives one without its front.
  pub pop_lem :
      (a : List A)
      → IsHeap other key a
      → 0 < length a
      → IsHeap other key (pop other key a)
        × ((p : A → Bool)
            → count p a ≡ (if p (at other key a 0) then 1 else 0) + count p (pop other key a))
        × (length (pop other key a) ≡ length a - 1)
  unfolding pop downturn
  pop_lem a heap h =
      let some_left : (length a == 0) ≡ false = ground arith in
      let (sunk, same, size) =
        down_loop_lem (length (without_front other key a)) (without_front other key a) 0
          (omega arith) (without_front-SinksAt a h heap) in
      rw some_left (
        sunk,
        (λ p. omega (arith, without_front-count a p h, same p)),
        size ∙ length-without_front a,
      )

-- ===== src/Util/PriorityQueue/Up.antt =====
-- `upturn`: an element that is too small for its place rises to one where it belongs.
use restful_cweb.Prelude.{
  ℕ, zero, suc, ◌-◌, ◌/◌, ◌≤◌, ◌<◌, ◌≡◌, refl, ◌∙◌, ◌≢◌, List, [], ◌∷◌, ◌++◌, length, ltb, ◌==◌,
  arith, Bool-cases, inl, inr, length-append,
}
use restful_cweb.Util.PriorityQueue.{key_at, swap, up_loop, upturn, push}
use restful_cweb.Util.PriorityQueue.Places.{
  count, Same, count-append, length-swap, key_at-swap, swap-Same, key_at-append,
}

module _ {A : Type 0} (other : A) (key : A → ℕ) where
  -- No element is above a smaller one.
  abbrev pub IsHeap : List A → Type 0
  IsHeap a =
      (c : ℕ) → 0 < c → c < length a → key_at other key a ((c - 1) / 2) ≤ key_at other key a c

  -- A heap but for the element `n`, which may be smaller than what is above it.
  pub record RisesAt (a : List A) (n : ℕ) : Type 0 where
    pub inside : n < length a
    pub edges :
        (c : ℕ)
        → 0 < c
        → c < length a
        → c ≢ n
        → key_at other key a ((c - 1) / 2) ≤ key_at other key a c
    pub bridge :
        (c : ℕ)
        → 0 < n
        → 0 < c
        → c < length a
        → (c - 1) / 2 ≡ n
        → key_at other key a ((n - 1) / 2) ≤ key_at other key a c

  swap-RisesAt :
      (a : List A) (n : ℕ)
      → RisesAt a n
      → 0 < n
      → key_at other key a n < key_at other key a ((n - 1) / 2)
      → RisesAt (swap other key a ((n - 1) / 2) n) ((n - 1) / 2)
  swap-RisesAt a n v pos below =
      grind
        (arith, length-swap other key a ((n - 1) / 2) n, key_at-swap other key a ((n - 1) / 2) n)

  pub up_loop_lem :
      (k : ℕ) (a : List A) (n : ℕ)
      → n ≤ k
      → RisesAt a n
      → IsHeap (up_loop other key k a n) × Same (up_loop other key k a n) a
  unfolding up_loop
  up_loop_lem zero a n h v = ((λ c p q. v.edges c p q (omega arith)), λ p. refl)
  up_loop_lem (suc k) a n h v = elim (Bool-cases (n == 0)) [
    | inl top ↦ rw top ((λ c p q. v.edges c p q (ground arith)), λ p. refl)
    | inr low ↦
        let pos : 0 < n = ground arith in
        elim (Bool-cases (ltb (key_at other key a n) (key_at other key a ((n - 1) / 2)))) [
          | inl below ↦
              let (heap, same) =
                up_loop_lem k (swap other key a ((n - 1) / 2) n) ((n - 1) / 2) (omega arith)
                  (swap-RisesAt a n v pos (ground arith)) in
              rw (low, below)
                (
                  heap,
                  λ p.
                      same p
                      ∙ swap-Same other key a ((n - 1) / 2) n (omega (arith, v.inside)) v.inside p,
                )
          | inr settled ↦ rw (low, settled) ((λ c p q. ground (arith, v.edges c)), λ p. refl)
        ]
  ]

  -- `Push` on a heap gives one with the new element and those that there were.
  pub push_lem :
      (x : A) (a : List A)
      → IsHeap a
      → IsHeap (push other key x a) × Same (push other key x a) (x ∷ a)
  unfolding push upturn count
  push_lem x a heap =
      let size : length (a ++ x ∷ []) ≡ suc (length a) = omega (arith, length-append a (x ∷ [])) in
      let (risen, same) =
        up_loop_lem (length (a ++ x ∷ []) - 1) (a ++ x ∷ []) (length (a ++ x ∷ []) - 1)
          (omega arith)
          (record {
            inside = omega (arith, size);
            edges = λ c p q ne. ground (
              arith,
              size,
              heap c,
              key_at-append other key a (x ∷ []) c,
              key_at-append other key a (x ∷ []) ((c - 1) / 2),
            );
            bridge = λ c p q r e. absurd (omega (arith, size));
          }) in
      (risen, λ p. same p ∙ omega (arith, count-append p a (x ∷ [])))

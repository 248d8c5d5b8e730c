-- ===== src/Tcp/Poller/Entries.antt =====
-- Entries of lists by their index.
use restful_cweb.Prelude.{
  ℕ, zero, suc, ◌<◌, ◌≡◌, ◌≢◌, refl, ap, List, [], ◌∷◌, ◌++◌, arith, length, get_elem?, set, take,
  some, ◌⊎◌, inl, inr,
}

module _ {ℓ} {A : Type ℓ} where
  pub get_elem?-lt : (xs : List A) (i : ℕ) (x : A) → get_elem? xs i ≡ some x → i < length xs
  get_elem?-lt [] i x h = grind arith
  get_elem?-lt (y ∷ xs) zero x h = omega arith
  get_elem?-lt (y ∷ xs) (suc i) x h = omega (arith, get_elem?-lt xs i x h)

  pub get_elem?-there : (xs : List A) (i : ℕ) → i < length xs → (x : A) × (get_elem? xs i ≡ some x)
  get_elem?-there [] i h = absurd (omega arith)
  get_elem?-there (x ∷ xs) zero h = (x, refl)
  get_elem?-there (x ∷ xs) (suc i) h = get_elem?-there xs i (omega arith)

  pub get_elem?-append :
      (xs ys : List A) (i : ℕ) (x : A) → get_elem? xs i ≡ some x → get_elem? (xs ++ ys) i ≡ some x
  get_elem?-append [] ys i x h = grind arith
  get_elem?-append (y ∷ xs) ys zero x h = h
  get_elem?-append (y ∷ xs) ys (suc i) x h = get_elem?-append xs ys i x h

  pub get_elem?-snoc : (xs : List A) (y : A) → get_elem? (xs ++ y ∷ []) (length xs) ≡ some y
  get_elem?-snoc [] y = refl
  get_elem?-snoc (x ∷ xs) y = get_elem?-snoc xs y

  pub get_elem?-snoc_cases :
      (xs : List A) (y : A) (i : ℕ) (x : A)
      → get_elem? (xs ++ y ∷ []) i ≡ some x
      → (get_elem? xs i ≡ some x) ⊎ ((i ≡ length xs) × (x ≡ y))
  get_elem?-snoc_cases [] y zero x h = grind arith
  get_elem?-snoc_cases [] y (suc i) x h = grind arith
  get_elem?-snoc_cases (z ∷ xs) y zero x h = inl h
  get_elem?-snoc_cases (z ∷ xs) y (suc i) x h = elim (get_elem?-snoc_cases xs y i x h) [
    | inl e ↦ inl e
    | inr e ↦ inr (ap suc e.0, e.1)
  ]

  pub get_elem?-take :
      (n : ℕ) (xs : List A) (i : ℕ) → i < n → get_elem? (take n xs) i ≡ get_elem? xs i
  get_elem?-take zero xs i h = absurd (omega arith)
  get_elem?-take (suc n) [] i h = refl
  get_elem?-take (suc n) (x ∷ xs) zero h = refl
  get_elem?-take (suc n) (x ∷ xs) (suc i) h = get_elem?-take n xs i (omega arith)

  pub length-take_le : (n : ℕ) (xs : List A) (i : ℕ) → i < length (take n xs) → i < n
  length-take_le zero xs i h = h
  length-take_le (suc n) [] i h = absurd (omega arith)
  length-take_le (suc n) (x ∷ xs) zero h = omega arith
  length-take_le (suc n) (x ∷ xs) (suc i) h = omega (arith, length-take_le n xs i (omega arith))

  pub get_elem?-set_cases :
      (xs : List A) (j i : ℕ) (v x : A)
      → get_elem? (set xs j v) i ≡ some x
      → ((j ≡ i) × (x ≡ v)) ⊎ ((j ≢ i) × (get_elem? xs i ≡ some x))
  get_elem?-set_cases [] j i v x h = grind arith
  get_elem?-set_cases (y ∷ xs) zero zero v x h = inl (refl, grind arith)
  get_elem?-set_cases (y ∷ xs) zero (suc i) v x h = inr (omega arith, h)
  get_elem?-set_cases (y ∷ xs) (suc j) zero v x h = inr (omega arith, h)
  get_elem?-set_cases (y ∷ xs) (suc j) (suc i) v x h = elim (get_elem?-set_cases xs j i v x h) [
    | inl e ↦ inl (ap suc e.0, e.1)
    | inr e ↦ inr (omega (arith, e.0), e.1)
  ]

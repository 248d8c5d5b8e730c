-- ===== src/Util/PriorityQueue/Places.antt =====
-- Exchanges in a list: what stands where, and that nothing is lost.
use restful_cweb.Prelude.{
  ℕ, zero, suc, ◌+◌, ◌<◌, ◌≡◌, refl, ap, ◌∙◌, Bool, true, false, List, [], ◌∷◌, ◌++◌, ◌==◌,
  if◌then◌else◌, length, get_or, set, take, length-set, arith,
}
use restful_cweb.Util.PriorityQueue.{at, swap, key_at}

module _ {A : Type 0} where
  -- How many elements pass a test. Lists with the same counts have the same elements.
  unfoldable pub count : (A → Bool) → List A → ℕ
  count p [] = 0
  count p (x ∷ a) = (if p x then 1 else 0) + count p a

  abbrev pub Same : List A → List A → Type 0
  Same a b = (p : A → Bool) → count p a ≡ count p b

  pub count-append : (p : A → Bool) (a b : List A) → count p (a ++ b) ≡ count p a + count p b
  unfolding count
  count-append p [] b = omega arith
  count-append p (x ∷ a) b = omega (arith, count-append p a b)

  count-set :
      (p : A → Bool) (a : List A) (i : ℕ) (v other : A)
      → i < length a
      → count p (set a i v) + (if p (get_or a i other) then 1 else 0)
        ≡ count p a + (if p v then 1 else 0)
  unfolding count
  count-set p [] i v other h = absurd (omega arith)
  count-set p (x ∷ a) zero v other h = omega arith
  count-set p (x ∷ a) (suc i) v other h = omega (arith, count-set p a i v other (omega arith))

  get_or-set :
      (a : List A) (i j : ℕ) (v other : A)
      → i < length a
      → get_or (set a i v) j other ≡ (if i == j then v else get_or a j other)
  get_or-set [] i j v other h = absurd (omega arith)
  get_or-set (x ∷ a) zero zero v other h = refl
  get_or-set (x ∷ a) zero (suc j) v other h = ground arith
  get_or-set (x ∷ a) (suc i) zero v other h = ground arith
  get_or-set (x ∷ a) (suc i) (suc j) v other h =
      ground (arith, get_or-set a i j v other (omega arith))

  get_or-append :
      (a b : List A) (i : ℕ) (other : A) → i < length a → get_or (a ++ b) i other ≡ get_or a i other
  get_or-append [] b i other h = absurd (omega arith)
  get_or-append (x ∷ a) b zero other h = refl
  get_or-append (x ∷ a) b (suc i) other h = get_or-append a b i other (omega arith)

  get_or-take :
      (n : ℕ) (a : List A) (i : ℕ) (other : A)
      → i < n
      → get_or (take n a) i other ≡ get_or a i other
  get_or-take zero a i other h = absurd (omega arith)
  get_or-take (suc n) [] i other h = refl
  get_or-take (suc n) (x ∷ a) zero other h = refl
  get_or-take (suc n) (x ∷ a) (suc i) other h = get_or-take n a i other (omega arith)

  count-take_last :
      (p : A → Bool) (n : ℕ) (a : List A) (other : A)
      → length a ≡ suc n
      → count p a ≡ (if p (get_or a n other) then 1 else 0) + count p (take n a)
  unfolding count
  count-take_last p n [] other h = absurd (omega arith)
  count-take_last p zero (x ∷ []) other h = refl
  count-take_last p zero (x ∷ y ∷ a) other h = absurd (omega arith)
  count-take_last p (suc n) (x ∷ a) other h =
      omega (arith, count-take_last p n a other (omega arith))

module _ {A : Type 0} (other : A) (key : A → ℕ) where
  pub length-swap : (a : List A) (i j : ℕ) → length (swap other key a i j) ≡ length a
  unfolding swap
  length-swap a i j =
      length-set (set a i (get_or a j other)) j (get_or a i other)
      ∙ length-set a i (get_or a j other)

  pub key_at-append :
      (a b : List A) (i : ℕ) → i < length a → key_at other key (a ++ b) i ≡ key_at other key a i
  unfolding key_at
  key_at-append a b i h = ap key (get_or-append a b i other h)

  pub key_at-take :
      (n : ℕ) (a : List A) (i : ℕ) → i < n → key_at other key (take n a) i ≡ key_at other key a i
  unfolding key_at
  key_at-take n a i h = ap key (get_or-take n a i other h)

  pub count-pop :
      (p : A → Bool) (n : ℕ) (a : List A)
      → length a ≡ suc n
      → count p a ≡ (if p (at other key a n) then 1 else 0) + count p (take n a)
  unfolding at
  count-pop p n a h = count-take_last p n a other h

  module _ (a : List A) (i j : ℕ) (hi : i < length a) (hj : j < length a) where
    pub at-swap :
        (c : ℕ)
        → at other key (swap other key a i j) c ≡ (
            if j == c
            then at other key a i
            else if i == c
            then at other key a j
            else at other key a c)
    unfolding swap at
    at-swap c =
        rw
          (
            get_or-set (set a i (get_or a j other)) j c (get_or a i other) other (rw length-set hj),
            get_or-set a i c (get_or a j other) other hi,
          )
          refl

    pub key_at-swap :
        (c : ℕ)
        → key_at other key (swap other key a i j) c ≡ (
            if j == c
            then key_at other key a i
            else if i == c
            then key_at other key a j
            else key_at other key a c)
    unfolding key_at
    key_at-swap c = ap key (at-swap c) ∙ key_if (j == c) (i == c)
      where
        key_if :
            (b d : Bool)
            → key (if b then at other key a i else if d then at other key a j else at other key a c)
              ≡ (if b
                  then key (at other key a i)
                  else if d
                  then key (at other key a j)
                  else key (at other key a c))
        key_if true d = refl
        key_if false true = refl
        key_if false false = refl

    pub swap-Same : Same (swap other key a i j) a
    unfolding swap at
    swap-Same p =
        let kept : get_or (set a i (get_or a j other)) j other ≡ get_or a j other =
          ground (arith, get_or-set a i j (get_or a j other) other hi) in
        omega (
          arith,
          count-set p a i (get_or a j other) other hi,
          count-set p (set a i (get_or a j other)) j (get_or a i other) other (rw length-set hj),
          ap {B = ℕ} (λ x. if p x then 1 else 0) kept,
        )

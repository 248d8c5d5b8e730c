-- ===== src/Util/LockfreeQueue/Ring.antt =====
-- Indices that run around a ring.
use restful_cweb.Prelude.{
  ℕ, zero, suc, ◌+◌, ◌-◌, ◌%◌, ◌≤◌, ◌<◌, ◌≡◌, ◌≢◌, refl, ap, ◌∙◌, inl, inr, arith, Bool-cases, ltb,
  List, [], ◌∷◌, ◌++◌, length, get_or, set,
}
use native.Mathlib.Nat.{mod-lt, mod-eq_of_lt, mod-add-mod, mod-eq-sub-mod}

-- One step on.
pub mod-after : (n c : ℕ) → (n % c + 1) % c ≡ (n + 1) % c
mod-after n c = mod-add-mod n c 1

-- Once around is the same place.
pub mod-around : (n c : ℕ) → (n + c) % c ≡ n % c
mod-around n c = mod-eq-sub-mod {n = n + c} {m = c} (omega arith) ∙ ap (λ m. m % c) (omega arith)

-- Numbers less than a round apart that have the same place are the same.
pub mod-distinct : (n d c : ℕ) → d < c → (n + d) % c ≡ n % c → d ≡ 0
mod-distinct n d c h e =
    let place : n % c < c = mod-lt n (omega arith) in
    let moved : (n % c + d) % c ≡ n % c = mod-add-mod n c d ∙ e in
    elim (Bool-cases (ltb (n % c + d) c)) [
      | inl inside ↦
          let same : (n % c + d) % c ≡ n % c + d = mod-eq_of_lt (ground arith) in
          omega (arith, same, moved)
      | inr around ↦
          let far : c ≤ n % c + d = ground arith in
          let back : (n % c + d) % c ≡ (n % c + d - c) % c = mod-eq-sub-mod (ground arith) in
          let same : (n % c + d - c) % c ≡ n % c + d - c = mod-eq_of_lt (omega arith) in
          absurd (omega (arith, back, same, moved, place, far))
    ]

module _ {A : Type 0} (other : A) where
  pub get_or-set_self :
      (xs : List A) (i : ℕ) (v : A) → i < length xs → get_or (set xs i v) i other ≡ v
  get_or-set_self [] i v h = absurd (omega arith)
  get_or-set_self (x ∷ xs) zero v h = refl
  get_or-set_self (x ∷ xs) (suc i) v h = get_or-set_self xs i v (omega arith)

  pub get_or-set_ne :
      (xs : List A) (i j : ℕ) (v : A) → i ≢ j → get_or (set xs i v) j other ≡ get_or xs j other
  get_or-set_ne [] i j v h = refl
  get_or-set_ne (x ∷ xs) zero zero v h = absurd (h refl)
  get_or-set_ne (x ∷ xs) zero (suc j) v h = refl
  get_or-set_ne (x ∷ xs) (suc i) zero v h = refl
  get_or-set_ne (x ∷ xs) (suc i) (suc j) v h = get_or-set_ne xs i j v (λ e. h (ap suc e))

  pub get_or-append_end : (xs : List A) (v : A) → get_or (xs ++ v ∷ []) (length xs) other ≡ v
  get_or-append_end [] v = refl
  get_or-append_end (x ∷ xs) v = get_or-append_end xs v

  pub get_or-append_front :
      (xs ys : List A) (i : ℕ) → i < length xs → get_or (xs ++ ys) i other ≡ get_or xs i other
  get_or-append_front [] ys i h = absurd (omega arith)
  get_or-append_front (x ∷ xs) ys zero h = refl
  get_or-append_front (x ∷ xs) ys (suc i) h = get_or-append_front xs ys i (omega arith)

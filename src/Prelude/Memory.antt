-- ===== src/Prelude/Memory.antt =====
-- Blocks of memory as lists: parts of a block, and `memcpy` into it.
use Prim.Native.Nat.{ℕ, zero, suc, ◌+◌, ◌-◌, ◌≤◌}
use mathlib.Core.Path.{◌≡◌, refl, ap, ◌∙◌, sym}
use mathlib.Core.List.{List, [], ◌∷◌, ◌++◌, append_assoc}
use mathlib.Core.Logic.{◌≢◌}
use native.Mathlib.Omega.{arith}
use restful_cweb.Prelude.Tests.{if◌then◌else◌, ◌==◌}
use restful_cweb.Prelude.Lists.{length, take, drop, length-append, length-take, length-drop}

module _ {ℓ} {A : Type ℓ} where
  pub take-length : (xs ys : List A) (n : ℕ) → n ≡ length xs → take n (xs ++ ys) ≡ xs
  take-length [] ys zero e = refl
  take-length [] ys (suc n) e = absurd (omega arith)
  take-length (x ∷ xs) ys zero e = absurd (omega arith)
  take-length (x ∷ xs) ys (suc n) e = ap (λ l. x ∷ l) (take-length xs ys n (omega arith))

  pub take_all : (xs : List A) (n : ℕ) → length xs ≤ n → take n xs ≡ xs
  take_all [] zero h = refl
  take_all [] (suc n) h = refl
  take_all (x ∷ xs) zero h = absurd (omega arith)
  take_all (x ∷ xs) (suc n) h = ap (λ l. x ∷ l) (take_all xs n (omega arith))

  pub drop_all : (xs : List A) (n : ℕ) → length xs ≤ n → drop n xs ≡ []
  drop_all [] zero h = refl
  drop_all [] (suc n) h = refl
  drop_all (x ∷ xs) zero h = absurd (omega arith)
  drop_all (x ∷ xs) (suc n) h = drop_all xs n (omega arith)

  pub drop-length : (xs ys : List A) (n : ℕ) → n ≡ length xs → drop n (xs ++ ys) ≡ ys
  drop-length [] ys zero e = refl
  drop-length [] ys (suc n) e = absurd (omega arith)
  drop-length (x ∷ xs) ys zero e = absurd (omega arith)
  drop-length (x ∷ xs) ys (suc n) e = drop-length xs ys n (omega arith)

  pub drop-append : (xs ys : List A) (n : ℕ) → n ≤ length xs → drop n (xs ++ ys) ≡ drop n xs ++ ys
  drop-append [] ys zero h = refl
  drop-append [] ys (suc n) h = absurd (omega arith)
  drop-append (x ∷ xs) ys zero h = refl
  drop-append (x ∷ xs) ys (suc n) h = drop-append xs ys n (omega arith)

  pub take-append : (xs ys : List A) (n : ℕ) → n ≤ length xs → take n (xs ++ ys) ≡ take n xs
  take-append xs ys zero h = refl
  take-append [] ys (suc n) h = absurd (omega arith)
  take-append (x ∷ xs) ys (suc n) h = ap (λ l. x ∷ l) (take-append xs ys n (omega arith))

  take_nil : (n : ℕ) → take {A = A} n [] ≡ []
  take_nil zero = refl
  take_nil (suc n) = refl

  drop_nil : (n : ℕ) → drop {A = A} n [] ≡ []
  drop_nil zero = refl
  drop_nil (suc n) = refl

  pub drop-take : (xs : List A) (n m : ℕ) → drop n (take m xs) ≡ take (m - n) (drop n xs)
  drop-take xs zero m = let e : m - 0 ≡ m = omega arith in rw e
  drop-take xs (suc n) zero = let e : 0 - suc n ≡ 0 = omega arith in rw e
  drop-take [] (suc n) (suc m) = sym (take_nil (suc m - suc n))
  drop-take (x ∷ xs) (suc n) (suc m) =
      let e : suc m - suc n ≡ m - n = omega arith in rw e (drop-take xs n m)

  pub drop-drop : (xs : List A) (n m : ℕ) → drop n (drop m xs) ≡ drop (m + n) xs
  drop-drop xs n zero = let e : 0 + n ≡ n = omega arith in rw e
  drop-drop [] n (suc m) = drop_nil n ∙ sym (drop_nil (suc m + n))
  drop-drop (x ∷ xs) n (suc m) =
      let e : suc m + n ≡ suc (m + n) = omega arith in rw e (drop-drop xs n m)

  -- `memcpy(dst + pos, src, length src)`, within the block.
  unfoldable pub blit : List A → ℕ → List A → List A
  blit dst pos src = take pos dst ++ (src ++ drop (pos + length src) dst)

  -- The part between two indices.
  unfoldable pub slice : List A → ℕ → ℕ → List A
  slice xs lo hi = take (hi - lo) (drop lo xs)

  pub length-blit :
      (dst : List A) (pos : ℕ) (src : List A)
      → pos + length src ≤ length dst
      → length (blit dst pos src) ≡ length dst
  unfolding blit
  length-blit dst pos src h = omega (
    arith,
    length-append (take pos dst) (src ++ drop (pos + length src) dst),
    length-append src (drop (pos + length src) dst),
    length-take pos dst,
    length-drop (pos + length src) dst,
  )

  pub length-slice :
      (xs : List A) (lo hi : ℕ) → lo ≤ hi → hi ≤ length xs → length (slice xs lo hi) ≡ hi - lo
  unfolding slice
  length-slice xs lo hi h k = omega (arith, length-take (hi - lo) (drop lo xs), length-drop lo xs)

  drop-blit :
      (dst : List A) (pos : ℕ) (src : List A) (lo : ℕ)
      → lo ≤ pos
      → pos ≤ length dst
      → drop lo (blit dst pos src) ≡ slice dst lo pos ++ (src ++ drop (pos + length src) dst)
  unfolding blit slice
  drop-blit dst pos src lo h k =
      drop-append (take pos dst) (src ++ drop (pos + length src) dst) lo
        (omega (arith, length-take pos dst))
      ∙ rw (drop-take dst lo pos)

  -- What is written at the end of a part becomes the end of the longer part.
  pub slice-blit :
      (dst : List A) (pos : ℕ) (src : List A) (lo hi : ℕ)
      → lo ≤ pos
      → hi ≡ pos + length src
      → hi ≤ length dst
      → slice (blit dst pos src) lo hi ≡ slice dst lo pos ++ src
  unfolding slice
  slice-blit dst pos src lo hi h e k =
      ap (take (hi - lo)) (drop-blit dst pos src lo h (omega arith))
      ∙ ap (take (hi - lo)) (sym (append_assoc (slice dst lo pos) src _))
      ∙ take-length (slice dst lo pos ++ src) (drop (pos + length src) dst) (hi - lo) (
          omega
            (arith, length-append (slice dst lo pos) src, length-slice dst lo pos h (omega arith)))

  pub drop-slice : (xs : List A) (lo hi n : ℕ) → drop n (slice xs lo hi) ≡ slice xs (lo + n) hi
  unfolding slice
  drop-slice xs lo hi n =
      let e : hi - lo - n ≡ hi - (lo + n) = omega arith in
      drop-take (drop lo xs) n (hi - lo) ∙ rw (drop-drop xs n lo, e)

  pub slice_empty : (xs : List A) (lo hi : ℕ) → hi ≤ lo → slice xs lo hi ≡ []
  unfolding slice
  slice_empty xs lo hi h = let e : hi - lo ≡ 0 = omega arith in rw e

  pub take-take : (xs : List A) (n m : ℕ) → n ≤ m → take n (take m xs) ≡ take n xs
  take-take xs zero m h = refl
  take-take xs (suc n) zero h = absurd (omega arith)
  take-take [] (suc n) (suc m) h = refl
  take-take (x ∷ xs) (suc n) (suc m) h = ap (λ l. x ∷ l) (take-take xs n m (omega arith))

-- A store as a function of the address: an assignment at one address.
module _ {ℓ} {A : Type ℓ} where
  unfoldable pub update : (ℕ → A) → ℕ → A → ℕ → A
  update f p v q = if p == q then v else f q

  pub update_self : (f : ℕ → A) (p : ℕ) (v : A) → update f p v p ≡ v
  unfolding update
  update_self f p v = ground arith

  pub update_other : (f : ℕ → A) (p : ℕ) (v : A) (q : ℕ) → p ≢ q → update f p v q ≡ f q
  unfolding update
  update_other f p v q h = ground arith

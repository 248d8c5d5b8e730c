-- ===== src/Util/PriorityQueue.antt =====
-- `PriorityQueue` of src/util/priority_queue.h with `greater`, the comparison that its users take.
-- What the elements are compared by is their `key`. The loops run on fuel: `upturn` has as much as
-- its index, since the parent's is less, and `downturn` has the size, since the child's is more. A
-- read out of bounds, which the code does not make, would give `other`.
pub mod Places
pub mod Up
pub mod Down
use restful_cweb.Prelude.{
  ℕ, zero, suc, ◌+◌, ◌-◌, ◌*◌, ◌/◌, Bool, List, [], ◌∷◌, ◌++◌, ltb, ◌==◌, ◌&&◌, if◌then◌else◌,
  length, get_or, set, take,
}

module _ {A : Type 0} (other : A) (key : A → ℕ) where
  unfoldable pub at : List A → ℕ → A
  at a i = get_or a i other

  unfoldable pub key_at : List A → ℕ → ℕ
  unfolding at
  key_at a i = key (at a i)

  -- `std::swap(container_[i], container_[j])`.
  unfoldable pub swap : List A → ℕ → ℕ → List A
  unfolding at
  swap a i j = set (set a i (at a j)) j (at a i)

  -- `compare_(*container_[i], *container_[j])`.
  abbrev pub greater : List A → ℕ → ℕ → Bool
  greater a i j = ltb (key_at a j) (key_at a i)

  abbrev pub parent : ℕ → ℕ
  parent n = (n - 1) / 2

  unfoldable pub up_loop : ℕ → List A → ℕ → List A
  up_loop zero a n = a
  up_loop (suc k) a n =
      let rise = up_loop k (swap a (parent n) n) (parent n) in
      if n == 0 then a else if greater a (parent n) n then rise else a

  unfoldable pub upturn : List A → ℕ → List A
  unfolding up_loop
  upturn a n = up_loop n a n

  -- The child that `n` is compared with.
  abbrev pub least_child : List A → ℕ → ℕ
  least_child a n =
      let child = n * 2 + 1 in
      if ltb (child + 1) (length a) && greater a child (child + 1) then child + 1 else child

  unfoldable pub down_loop : ℕ → List A → ℕ → List A
  down_loop zero a n = a
  down_loop (suc k) a n =
      let child = least_child a n in
      let sink = down_loop k (swap a n child) child in
      if ltb (n * 2 + 1) (length a) then (if greater a n child then sink else a) else a

  unfoldable pub downturn : List A → ℕ → List A
  unfolding down_loop
  downturn a n = down_loop (length a) a n

  unfoldable pub push : A → List A → List A
  unfolding upturn
  push x a = upturn (a ++ x ∷ []) (length (a ++ x ∷ []) - 1)

  -- `pop_back` of the exchanged elements.
  unfoldable pub without_front : List A → List A
  unfolding swap
  without_front a = take (length a - 1) (swap a 0 (length a - 1))

  unfoldable pub pop : List A → List A
  unfolding downturn without_front
  pop a = if length a == 0 then a else downturn (without_front a) 0

-- ===== src/Coroutine/Loop/Lists.antt =====
-- A coroutine behind others in its list, and the lists of ready ones.
use restful_cweb.Prelude.{
  ℕ, ◌≡◌, refl, ap, List, [], ◌∷◌, ◌++◌, arith, length, Option, ◌⊎◌, inl, inr, ◌==◌, false,
  append-nil, append_assoc, Bool-cases, ltb,
}
use restful_cweb.Util.LinkedList.Chain.{NotIn}
use restful_cweb.Coroutine.Loop.{CoLoop, without, front_of, next_in, move_ready_coroutines}

pub next_in-there :
    (xs : List ℕ) (co : ℕ) (ys : List ℕ) → NotIn co xs → next_in (xs ++ co ∷ ys) co ≡ front_of ys
next_in-there [] co ys n = ground arith
next_in-there (x ∷ xs) co ys n =
    let away : (x == co) ≡ false = ground (arith, n.0) in rw away (next_in-there xs co ys n.1)

-- Ready coroutines move behind the running ones, unless there are none.
abbrev pub IsMoved : CoLoop → CoLoop → Type 0
IsMoved l k =
    ((k ≡ l) × (l.stateful ≡ []) × (l.stateless ≡ []))
    ⊎ ((m : ℕ) × (ms : List ℕ) × (k.running ≡ l.running ++ m ∷ ms)
        × ((m ∷ ms) ++ (k.stateful ++ k.stateless) ≡ l.stateful ++ l.stateless)
        × (k.held ≡ l.held))

lists-IsMoved :
    (rs hs xs ys : List ℕ) (c : Option ℕ)
    → IsMoved
        (record { running = rs; held = hs; stateful = xs; stateless = ys; current = c })
        (move_ready_coroutines
          (record { running = rs; held = hs; stateful = xs; stateless = ys; current = c }))
unfolding move_ready_coroutines
lists-IsMoved rs hs [] [] c = inl (refl, refl, refl)
lists-IsMoved rs hs [] (y ∷ ys) c = inr (y, ys, refl, append-nil (y ∷ ys), refl)
lists-IsMoved rs hs (x ∷ xs) [] c = elim (Bool-cases (ltb (length (x ∷ xs)) 5)) [
  | inl few ↦ rw few (inr (x, xs, refl, refl, refl))
  | inr many ↦ rw many (inr (x, xs, refl, refl, refl))
]
lists-IsMoved rs hs (x ∷ xs) (y ∷ ys) c = elim (Bool-cases (ltb (length (x ∷ xs)) 5)) [
  | inl few ↦ rw few (
      inr
        (x, xs ++ y ∷ ys, append_assoc rs (x ∷ xs) (y ∷ ys), append-nil (x ∷ (xs ++ y ∷ ys)), refl))
  | inr many ↦ rw many (inr (x, xs, refl, refl, refl))
]

pub move_ready_coroutines-IsMoved : (l : CoLoop) → IsMoved l (move_ready_coroutines l)
move_ready_coroutines-IsMoved l = lists-IsMoved l.running l.held l.stateful l.stateless l.current

-- A node of a list, and the others.
pub without-others :
    (xs : List ℕ) (a : ℕ) (ys : List ℕ) → NotIn a xs → without a (xs ++ a ∷ ys) ≡ xs ++ ys
without-others [] a ys n = ground arith
without-others (x ∷ xs) a ys n =
    let away : (x == a) ≡ false = ground (arith, n.0) in
    rw away (ap (λ l. x ∷ l) (without-others xs a ys n.1))

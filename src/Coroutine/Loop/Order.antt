-- ===== src/Coroutine/Loop/Order.antt =====
-- A round in which no coroutine holds: each one is switched to once, in the order of the lists.
use mathlib.Core.Path.{subst}
use restful_cweb.Prelude.{
  ℕ, zero, suc, ◌+◌, ◌<◌, ◌≡◌, refl, sym, ap, ◌∙◌, List, [], ◌∷◌, ◌++◌, arith, length, Option, none,
  some, inl, inr, append-nil, append_assoc, Bool, true,
}
use restful_cweb.Util.LinkedList.Chain.{AreNodes}
use restful_cweb.Coroutine.Loop.{
  CoLoop, front_of, after_switch, Slice, with_switch, switch_to, inner_loop, start_round,
  run_coroutines,
}
use restful_cweb.Coroutine.Loop.Lists.{move_ready_coroutines-IsMoved}
use restful_cweb.Coroutine.Loop.Switching.{
  state_of, plain, kept, left, IsAt, IsNext, after_switch-IsNext, kept-AreNodes,
}

-- What the loop gives: the coroutines that it switches to, and what it leaves.
abbrev IsRun : Option (List ℕ × CoLoop) → List ℕ → List ℕ → Type 0
IsRun r cos remaining =
    (m : CoLoop) × (r ≡ some (cos, m)) × (m.running ≡ remaining) × (m.stateful ++ m.stateless ≡ [])

-- Every test of `running_` reads true.
abbrev pub undisturbed : ℕ → List Bool
undisturbed zero = []
undisturbed (suc k) = true ∷ undisturbed k

inner_loop-stop :
    (slice : Slice) (k : ℕ) (l : CoLoop)
    → l.current ≡ none
    → 0 < k
    → inner_loop (undisturbed k) slice l ≡ some ([], l)
unfolding inner_loop
inner_loop-stop slice zero l e h = absurd (omega arith)
inner_loop-stop slice (suc k) l e h =
    ap (λ o. switch_to (inner_loop (undisturbed k) slice) slice o l) e

inner_loop-order :
    (ends : ℕ → Bool) (k : ℕ) (l : CoLoop) (before : List ℕ) (co : ℕ) (todo rest : List ℕ)
    → IsAt l before co todo rest
    → l.current ≡ some co
    → 1 + length rest < k
    → IsRun
        (inner_loop (undisturbed k) (plain ends) l)
        (co ∷ rest)
        (before ++ left ends (co ∷ rest))
unfolding inner_loop
inner_loop-order ends zero l before co todo rest q here fuel = absurd (omega arith)
inner_loop-order ends (suc k) l before co todo rest q here fuel =
    let m = after_switch (state_of (ends co)) co l in
    let start : inner_loop (undisturbed (suc k)) (plain ends) l
        ≡ with_switch co (inner_loop (undisturbed k) (plain ends) m) =
      ap (λ o. switch_to (inner_loop (undisturbed k) (plain ends)) (plain ends) o l) here in
    elim (after_switch-IsNext (ends co) l before co todo rest q) [
      | inl (stop, running, done, none_ready) ↦ (
        m,
        start
            ∙ ap (with_switch co) (inner_loop-stop (plain ends) k m stop (omega (arith, fuel)))
            ∙ ap (λ xs. some (co ∷ xs, m)) (sym done),
        running
            ∙ ap (λ xs. before ++ xs) (sym (append-nil (kept (ends co) co)))
            ∙ ap (λ xs. before ++ (kept (ends co) co ++ left ends xs)) (sym done),
        none_ready,
      )
      | inr (y, ys, next, running, todo') ↦
          let (u, ran, remaining, none_left) =
            inner_loop-order ends k m (before ++ kept (ends co) co) y ys
              (ys ++ (m.stateful ++ m.stateless))
              (record {
                running = running;
                rest_of = refl;
                nodes =
                    kept-AreNodes (ends co) before co (y ∷ (ys ++ (m.stateful ++ m.stateless)))
                      (subst (λ r. AreNodes (before ++ co ∷ r)) (sym todo') q.nodes);
              })
              next (omega (arith, fuel, ap length todo')) in
          (
            u,
            start ∙ ap (with_switch co) ran ∙ ap (λ r. some (co ∷ r, u)) todo',
            remaining
                ∙ append_assoc before (kept (ends co) co)
                    (left ends (y ∷ (ys ++ (m.stateful ++ m.stateless))))
                ∙ ap (λ r. before ++ (kept (ends co) co ++ left ends r)) todo',
            none_left,
          )
    ]

-- The start of the round.
lists-IsNext :
    (rs hs xs ys : List ℕ) (c : Option ℕ)
    → IsNext
        (start_round
          (record { running = rs; held = hs; stateful = xs; stateless = ys; current = c }))
        []
        (rs ++ (xs ++ ys))
lists-IsNext (x ∷ rs) hs xs ys c = inr (x, rs, refl, refl, refl)
lists-IsNext [] hs xs ys c =
    let l : CoLoop = record {
      running = [];
      held = hs;
      stateful = xs;
      stateless = ys;
      current = c;
    } in
    elim (move_ready_coroutines-IsMoved l) [
      | inl (same, no_stateful, no_stateless) ↦
          let nothing : xs ++ ys ≡ [] = ap (λ zs. zs ++ ys) no_stateful ∙ no_stateless in
          inl (
            ap (λ z. front_of z.running) same,
            ap (λ z. z.running) same,
            nothing,
            ap (λ z. z.stateful ++ z.stateless) same ∙ nothing,
          )
      | inr (m, ms, running, moved, held) ↦ inr (m, ms, ap front_of running, running, moved)
    ]

next-order :
    (ends : ℕ → Bool) (k : ℕ) (m : CoLoop) (rest : List ℕ)
    → IsNext m [] rest
    → AreNodes rest
    → 1 + length rest < k
    → IsRun (inner_loop (undisturbed k) (plain ends) m) rest (left ends rest)
next-order ends k m rest (inl (stop, running, done, none_ready)) n fuel = (
  m,
  inner_loop-stop (plain ends) k m stop (omega (arith, fuel)) ∙ ap (λ xs. some (xs, m)) (sym done),
  running ∙ ap (left ends) (sym done),
  none_ready,
)
next-order ends k m rest (inr (y, ys, next, running, todo)) n fuel =
    subst (λ r. IsRun (inner_loop (undisturbed k) (plain ends) m) r (left ends r)) todo
      (inner_loop-order ends k m [] y ys (ys ++ (m.stateful ++ m.stateless))
        (record { running = running; rest_of = refl; nodes = subst AreNodes (sym todo) n }) next
        (omega (arith, fuel, ap length todo)))

-- A round in which nobody calls `Quit`, and each coroutine goes on or ends when it is switched to,
-- holds never and changes no list: the loop comes to an end, and has then switched to each running coroutine, to each stateful
-- ready one and to each stateless ready one, once and in this order, even where there are so many
-- stateful ones that the stateless ones move later; those that have not ended are running in their
-- order, and none is ready.
pub run_coroutines-order :
    (ends : ℕ → Bool) (k : ℕ) (l : CoLoop)
    → AreNodes (l.running ++ (l.stateful ++ l.stateless))
    → 1 + length (l.running ++ (l.stateful ++ l.stateless)) < k
    → (m : CoLoop) × (run_coroutines (undisturbed k) (plain ends) l
        ≡ some (l.running ++ (l.stateful ++ l.stateless), m))
      × (m.running ≡ left ends (l.running ++ (l.stateful ++ l.stateless)))
      × (m.stateful ++ m.stateless ≡ [])
unfolding run_coroutines
run_coroutines-order ends k l n fuel =
    next-order ends k (start_round l) (l.running ++ (l.stateful ++ l.stateless))
      (lists-IsNext l.running l.held l.stateful l.stateless l.current) n fuel

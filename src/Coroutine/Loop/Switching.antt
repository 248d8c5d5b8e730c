-- ===== src/Coroutine/Loop/Switching.antt =====
-- Where the loop goes when a coroutine switches back that goes on or ends.
use mathlib.Core.Path.{subst}
use restful_cweb.Prelude.{
  ℕ, ◌≡◌, refl, sym, ap, ◌∙◌, List, [], ◌∷◌, ◌++◌, none, some, ◌⊎◌, inl, inr, false, true,
  append_assoc, Bool,
}
use restful_cweb.Util.LinkedList.Chain.{NotIn, AreNodes}
use restful_cweb.Util.LinkedList.Erasure.{AreNodes-without, NotIn-sym}
use restful_cweb.Coroutine.Loop.{
  without, State, exec, term, CoLoop, front_of, next_in, after_exec, after_switch, Slice,
}
use restful_cweb.Coroutine.Loop.Lists.{without-others, next_in-there, move_ready_coroutines-IsMoved}

-- Coroutines that end or go on, as a test tells, and change no list.
abbrev pub state_of : Bool → State
state_of true = term
state_of false = exec

abbrev pub plain : (ℕ → Bool) → Slice
plain ends co l = (state_of (ends co), l)

-- What is left of a list of coroutines after they have run.
abbrev pub kept : Bool → ℕ → List ℕ
kept true co = []
kept false co = co ∷ []

abbrev pub left : (ℕ → Bool) → List ℕ → List ℕ
left ends [] = []
left ends (co ∷ cos) = kept (ends co) co ++ left ends cos

-- The coroutine that has switched back, the ones before it and behind it, and the ready ones.
pub record IsAt (l : CoLoop) (before : List ℕ) (co : ℕ) (todo rest : List ℕ) : Type 0 where
  pub running : l.running ≡ before ++ co ∷ todo
  pub rest_of : todo ++ (l.stateful ++ l.stateless) ≡ rest
  pub nodes : AreNodes (before ++ co ∷ rest)

-- After it: nothing is left to do, or the first of the rest is next.
abbrev pub IsNext : CoLoop → List ℕ → List ℕ → Type 0
IsNext k before rest =
    ((k.current ≡ none) × (k.running ≡ before) × (rest ≡ []) × (k.stateful ++ k.stateless ≡ []))
    ⊎ ((y : ℕ) × (ys : List ℕ) × (k.current ≡ some y)
        × (k.running ≡ before ++ y ∷ ys)
        × ((y ∷ ys) ++ (k.stateful ++ k.stateless) ≡ rest))

here-NotIn :
    (l : CoLoop) (before : List ℕ) (co : ℕ) (todo rest : List ℕ)
    → IsAt l before co todo rest
    → NotIn co before
here-NotIn l before co todo rest q = NotIn-sym co before rest q.nodes

next-there :
    (l : CoLoop) (before : List ℕ) (co : ℕ) (todo rest : List ℕ)
    → IsAt l before co todo rest
    → next_in l.running co ≡ front_of todo
next-there l before co todo rest q =
    ap (λ xs. next_in xs co) q.running
    ∙ next_in-there before co todo (here-NotIn l before co todo rest q)

after_exec-IsNext :
    (l : CoLoop) (before : List ℕ) (co : ℕ) (todo rest : List ℕ)
    → IsAt l before co todo rest
    → IsNext (after_exec co l) (before ++ co ∷ []) rest
after_exec-IsNext l before co (y ∷ ys) rest q =
    let next = next-there l before co (y ∷ ys) rest q in
    rw next (inr (y, ys, refl, q.running ∙ sym (append_assoc before (co ∷ []) (y ∷ ys)), q.rest_of))
after_exec-IsNext l before co [] rest q =
    let next = next-there l before co [] rest q in
    rw next (elim (move_ready_coroutines-IsMoved l) [
      | inl (same, no_stateful, no_stateless) ↦
          let nothing : l.stateful ++ l.stateless ≡ [] =
            ap (λ xs. xs ++ l.stateless) no_stateful ∙ no_stateless in
          inl (
            ap (λ z. next_in z.running co) same ∙ next,
            ap (λ z. z.running) same ∙ q.running,
            sym q.rest_of ∙ nothing,
            ap (λ z. z.stateful ++ z.stateless) same ∙ nothing,
          )
      | inr (m, ms, running, moved, held) ↦
          let longer = running ∙ ap (λ xs. xs ++ m ∷ ms) q.running in
          inr (
            m,
            ms,
            ap (λ xs. next_in xs co) (longer ∙ append_assoc before (co ∷ []) (m ∷ ms))
                ∙ next_in-there before co (m ∷ ms) (here-NotIn l before co [] rest q),
            longer,
            moved ∙ q.rest_of,
          )
    ])

-- One that ends leaves the list as well.
pub after_switch-IsNext :
    (b : Bool) (l : CoLoop) (before : List ℕ) (co : ℕ) (todo rest : List ℕ)
    → IsAt l before co todo rest
    → IsNext (after_switch (state_of b) co l) (before ++ kept b co) rest
after_switch-IsNext false l before co todo rest q = after_exec-IsNext l before co todo rest q
after_switch-IsNext true l before co todo rest q =
    let apart = here-NotIn l before co todo rest q in
    elim (after_exec-IsNext l before co todo rest q) [
      | inl (stop, running, done, none_ready) ↦
          inl (stop, ap (without co) running ∙ without-others before co [] apart, done, none_ready)
      | inr (y, ys, next, running, todo') ↦ inr (
        y,
        ys,
        next,
        ap (without co) (running ∙ append_assoc before (co ∷ []) (y ∷ ys))
            ∙ without-others before co (y ∷ ys) apart
            ∙ sym (append_assoc before [] (y ∷ ys)),
        todo',
      )
    ]

-- The coroutines that are left are apart.
pub kept-AreNodes :
    (b : Bool) (before : List ℕ) (co : ℕ) (rest : List ℕ)
    → AreNodes (before ++ co ∷ rest)
    → AreNodes ((before ++ kept b co) ++ rest)
kept-AreNodes true before co rest n =
    subst AreNodes (sym (append_assoc before [] rest)) (AreNodes-without before co rest n)
kept-AreNodes false before co rest n = subst AreNodes (sym (append_assoc before (co ∷ []) rest)) n

-- ===== src/Util/LinkedList/Fifo.antt =====
-- `Push` and `Pop` alone make a queue, although `Pop` ties the list into a ring.
use mathlib.Core.Path.{subst}
use restful_cweb.Prelude.{
  update, update_self, ℕ, ◌+◌, ◌≡◌, ◌≢◌, refl, sym, ap, ◌∙◌, List, [], ◌∷◌, ◌++◌, arith, length,
  length-append, Option, none, some, ◌==◌, false,
}
use restful_cweb.Util.LinkedList.{
  NodeStore, LinkedList, set_pre, set_next, new_list, less_one, pop_node, push_node,
}
use restful_cweb.Util.LinkedList.Chain.{
  NotIn, AreNodes, first_or, last_or, Linked, AreNodes-snoc, Linked-update_last, Linked-snoc,
  last_or-snoc, last_or-node, nonzero,
}

-- The list has the nodes `xs`, as far as `Push` and `Pop` look at it: the pointers back, and that of
-- the last node, may be any.
pub record IsQueue (s : NodeStore) (l : LinkedList) (xs : List ℕ) : Type 0 where
  pub nodes : AreNodes xs
  pub head : l.head ≡ first_or xs 0
  pub tail : last_or xs l.tail ≡ l.tail
  pub size : l.size ≡ length xs
  pub linked : Linked s.next xs

-- The two assignments of `Push` to pointers forward.
Linked-next_snoc :
    (f : ℕ → ℕ) (t v x : ℕ) (xs : List ℕ)
    → AreNodes (x ∷ xs)
    → Linked f (x ∷ xs)
    → last_or xs x ≡ t
    → v ≢ 0
    → NotIn v (x ∷ xs)
    → Linked (update (update f t v) v 0) (x ∷ (xs ++ v ∷ []))
Linked-next_snoc f t v x xs nodes l e n a =
    let tied : Linked (update f t v) (x ∷ xs) =
      subst (λ p. Linked (update f p v) (x ∷ xs)) e (Linked-update_last f v x xs nodes l) in
    let longer : Linked (update f t v) (x ∷ (xs ++ v ∷ [])) =
      Linked-snoc (update f t v) v x xs tied (ap (update f t v) e ∙ update_self f t v) in
    subst (λ p. Linked (update (update f t v) p 0) (x ∷ (xs ++ v ∷ []))) (last_or-snoc xs v x)
      (Linked-update_last (update f t v) 0 x (xs ++ v ∷ []) (AreNodes-snoc (x ∷ xs) v nodes n a)
        longer)

pub push_node-IsQueue :
    (s : NodeStore) (l : LinkedList) (xs : List ℕ) (v : ℕ)
    → IsQueue s l xs
    → v ≢ 0
    → NotIn v xs
    → (t : NodeStore) × (m : LinkedList) × (push_node v s l ≡ some (t, m))
      × IsQueue t m (xs ++ v ∷ [])
unfolding push_node
push_node-IsQueue s l [] v q n a = (
  set_pre v 0 (set_next v 0 s),
  record { head = v; tail = v; size = l.size + 1 },
  rw (nonzero v n, q.size) refl,
  record {
    nodes = (n, tt, tt);
    head = refl;
    tail = refl;
    size = omega (arith, q.size);
    linked = tt;
  },
)
push_node-IsQueue s l (x ∷ xs) v q n a =
    let some_there : (l.size == 0) ≡ false = nonzero l.size (omega (arith, q.size)) in
    let tail_there : (l.tail == 0) ≡ false =
      nonzero l.tail (λ e. last_or-node x xs q.nodes (q.tail ∙ e)) in
    (
      set_next v 0 (set_pre v l.tail (set_next l.tail v s)),
      record l { tail = v; size = l.size + 1 },
      rw (nonzero v n, some_there, tail_there) refl,
      record {
        nodes = AreNodes-snoc (x ∷ xs) v q.nodes n a;
        head = q.head;
        tail = last_or-snoc xs v x;
        size = omega (arith, q.size, length-append (x ∷ xs) (v ∷ []));
        linked = Linked-next_snoc s.next l.tail v x xs q.nodes q.linked q.tail n a;
      },
    )

pub pop_node-IsQueue :
    (s : NodeStore) (l : LinkedList) (x : ℕ) (xs : List ℕ)
    → IsQueue s l (x ∷ xs)
    → (t : NodeStore) × (m : LinkedList) × (pop_node s l ≡ some (x, t, m)) × IsQueue t m xs
unfolding pop_node
pop_node-IsQueue s l x [] q =
    let there : (l.head == 0) ≡ false = nonzero l.head (λ e. q.nodes.0 (sym q.head ∙ e)) in
    (
      s,
      new_list,
      rw (there, q.size) (ap (λ h. some (h, s, new_list)) q.head),
      record { nodes = tt; head = refl; tail = refl; size = refl; linked = tt },
    )
pop_node-IsQueue s l x (y ∷ xs) q =
    let there : (l.head == 0) ≡ false = nonzero l.head (λ e. q.nodes.0 (sym q.head ∙ e)) in
    let several : (l.size == 1) ≡ false = ground (arith, q.size) in
    let second : s.next l.head ≡ y = ap s.next q.head ∙ q.linked.0 in
    let tail_there : (l.tail == 0) ≡ false =
      nonzero l.tail (λ e. last_or-node y xs q.nodes.2 (q.tail ∙ e)) in
    (
      set_next l.tail (s.next l.head) (set_pre (s.next l.head) l.tail s),
      record l { head = s.next l.head; size = less_one l.size },
      rw (there, several, nonzero (s.next l.head) (λ e. q.nodes.2.0 (sym second ∙ e)), tail_there)
          (ap
            (λ h. some (
              h,
              set_next l.tail (s.next l.head) (set_pre (s.next l.head) l.tail s),
              record l { head = s.next l.head; size = less_one l.size },
            ))
            q.head),
      record {
        nodes = q.nodes.2;
        head = second;
        tail = q.tail;
        size = ground (arith, q.size);
        linked =
            subst (λ p. Linked (update s.next p (s.next l.head)) (y ∷ xs)) q.tail
              (Linked-update_last s.next (s.next l.head) y xs q.nodes.2 q.linked.1);
      },
    )

pop_empty : (s : NodeStore) (l : LinkedList) → l.head ≡ 0 → pop_node s l ≡ some (0, s, l)
unfolding pop_node
pop_empty s l e = rw e refl

-- What a client calls: a push of a node, or a pop.
pub data Use : Type 0 where
  add : ℕ → Use
  remove : Use

abbrev pub then_pop :
    (ℕ → NodeStore → LinkedList → Option (List ℕ × NodeStore × LinkedList))
    → Option (ℕ × NodeStore × LinkedList)
    → Option (List ℕ × NodeStore × LinkedList)
then_pop k none = none
then_pop k (some (v, s, l)) = k v s l

abbrev pub then_push :
    (NodeStore → LinkedList → Option (List ℕ × NodeStore × LinkedList))
    → Option (NodeStore × LinkedList)
    → Option (List ℕ × NodeStore × LinkedList)
then_push k none = none
then_push k (some (s, l)) = k s l

abbrev pub with_result :
    ℕ → Option (List ℕ × NodeStore × LinkedList) → Option (List ℕ × NodeStore × LinkedList)
with_result v none = none
with_result v (some (vs, s, l)) = some (v ∷ vs, s, l)

-- The calls, with what the pops return.
unfoldable pub uses : List Use → NodeStore → LinkedList → Option (List ℕ × NodeStore × LinkedList)
uses [] s l = some ([], s, l)
uses (add v ∷ cs) s l = then_push (uses cs) (push_node v s l)
uses (remove ∷ cs) s l = then_pop (λ v t m. with_result v (uses cs t m)) (pop_node s l)

-- The same on a queue: what the pops return, and what is left.
abbrev pub returned : List Use → List ℕ → List ℕ
returned [] xs = []
returned (add v ∷ cs) xs = returned cs (xs ++ v ∷ [])
returned (remove ∷ cs) [] = 0 ∷ returned cs []
returned (remove ∷ cs) (x ∷ xs) = x ∷ returned cs xs

abbrev pub left : List Use → List ℕ → List ℕ
left [] xs = xs
left (add v ∷ cs) xs = left cs (xs ++ v ∷ [])
left (remove ∷ cs) [] = left cs []
left (remove ∷ cs) (x ∷ xs) = left cs xs

-- Each push is of a node that is not in the list then.
abbrev pub AreFresh : List Use → List ℕ → Type 0
AreFresh [] xs = Unit {0}
AreFresh (add v ∷ cs) xs = (v ≢ 0) × NotIn v xs × AreFresh cs (xs ++ v ∷ [])
AreFresh (remove ∷ cs) [] = AreFresh cs []
AreFresh (remove ∷ cs) (x ∷ xs) = AreFresh cs xs

-- Pushes, each of a node that is not in the list, and pops in any order follow no null pointer and
-- return what a first-in first-out queue returns, null where it is empty; and the list is then
-- again one that has the nodes left in their order.
pub uses-IsQueue :
    (cs : List Use) (s : NodeStore) (l : LinkedList) (xs : List ℕ)
    → IsQueue s l xs
    → AreFresh cs xs
    → (t : NodeStore) × (m : LinkedList) × (uses cs s l ≡ some (returned cs xs, t, m))
      × IsQueue t m (left cs xs)
unfolding uses
uses-IsQueue [] s l xs q f = (s, l, refl, q)
uses-IsQueue (add v ∷ cs) s l xs q f =
    let (t, m, pushed, p) = push_node-IsQueue s l xs v q f.0 f.1 in
    let (u, k, rest, r) = uses-IsQueue cs t m (xs ++ v ∷ []) p f.2 in
    (u, k, ap (then_push (uses cs)) pushed ∙ rest, r)
uses-IsQueue (remove ∷ cs) s l [] q f =
    let (u, k, rest, r) = uses-IsQueue cs s l [] q f in
    (
      u,
      k,
      ap (then_pop (λ v t m. with_result v (uses cs t m))) (pop_empty s l q.head)
          ∙ ap (with_result 0) rest,
      r,
    )
uses-IsQueue (remove ∷ cs) s l (x ∷ xs) q f =
    let (t, m, popped, p) = pop_node-IsQueue s l x xs q in
    let (u, k, rest, r) = uses-IsQueue cs t m xs p f in
    (u, k, ap (then_pop (λ v t m. with_result v (uses cs t m))) popped ∙ ap (with_result x) rest, r)

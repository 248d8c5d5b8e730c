-- ===== src/Util/LinkedList/Erasure.antt =====
-- `Erase` takes a node out of a list that is tied both ways.
use mathlib.Core.Path.{subst}
use restful_cweb.Prelude.{
  update, ℕ, suc, ◌≡◌, ◌≢◌, refl, sym, ap, ◌∙◌, List, [], ◌∷◌, ◌++◌, arith, length, length-append,
  some, ◌==◌, false,
}
use restful_cweb.Util.LinkedList.{NodeStore, LinkedList, set_pre, set_next, less_one, erase}
use restful_cweb.Util.LinkedList.Chain.{
  NotIn, AreNodes, first_or, last_or, NotIn-append, NotIn-left, NotIn-right, AreNodes-right,
  last_or-node, nonzero,
}
use restful_cweb.Util.LinkedList.Links.{
  Tied, last_or-append, Tied-left, Tied-right, Tied-join, Tied-update_next, Tied-update_pre,
  Tied-retie_next, Tied-retie_pre,
}

-- The list has the nodes `xs`, each tied to the one before and the one behind it.
pub record IsList (s : NodeStore) (l : LinkedList) (xs : List ℕ) : Type 0 where
  pub nodes : AreNodes xs
  pub head : l.head ≡ first_or xs 0
  pub tail : last_or xs l.tail ≡ l.tail
  pub size : l.size ≡ length xs
  pub tied : Tied s.pre s.next 0 xs 0

pub AreNodes-without :
    (xs : List ℕ) (v : ℕ) (ys : List ℕ) → AreNodes (xs ++ v ∷ ys) → AreNodes (xs ++ ys)
AreNodes-without [] v ys a = a.2
AreNodes-without (x ∷ xs) v ys a = (
  a.0,
  NotIn-append x xs ys (NotIn-left x xs (v ∷ ys) a.1) (NotIn-right x xs (v ∷ ys) a.1).1,
  AreNodes-without xs v ys a.2,
)

AreNodes-left : (xs ys : List ℕ) → AreNodes (xs ++ ys) → AreNodes xs
AreNodes-left [] ys a = tt
AreNodes-left (x ∷ xs) ys a = (a.0, NotIn-left x xs ys a.1, AreNodes-left xs ys a.2)

-- The last node of the first part is not in the second one.
last_or-apart : (x : ℕ) (xs ys : List ℕ) → AreNodes (x ∷ (xs ++ ys)) → NotIn (last_or xs x) ys
last_or-apart x [] ys a = a.1
last_or-apart x (y ∷ xs) ys a = last_or-apart y xs ys a.2

pub NotIn-sym : (p : ℕ) (xs ys : List ℕ) → AreNodes (xs ++ p ∷ ys) → NotIn p xs
NotIn-sym p [] ys a = tt
NotIn-sym p (x ∷ xs) ys a =
    ((λ e. (NotIn-right x xs (p ∷ ys) a.1).0 (sym e)), NotIn-sym p xs ys a.2)

pub length-without :
    (xs : List ℕ) (v : ℕ) (ys : List ℕ) → length (xs ++ v ∷ ys) ≡ suc (length (xs ++ ys))
length-without xs v ys = omega (arith, length-append xs (v ∷ ys), length-append xs ys)

-- The four places the node can have.
erase-IsList_only :
    (s : NodeStore) (l : LinkedList) (v : ℕ)
    → IsList s l (v ∷ [])
    → (t : NodeStore) × (m : LinkedList) × (erase v s l ≡ some (t, m)) × IsList t m []
unfolding erase
erase-IsList_only s l v q =
    let gone : s.next l.head ≡ 0 = ap s.next q.head ∙ q.tied.1 in
    (
      s,
      record l { head = s.next l.head; size = less_one l.size },
      rw
          (
            nonzero v q.nodes.0,
            q.size,
            q.tied.0,
            nonzero l.head (λ e. q.nodes.0 (sym q.head ∙ e)),
            gone,
          )
          refl,
      record { nodes = tt; head = gone; tail = refl; size = ground (arith, q.size); tied = tt },
    )

erase-IsList_first :
    (s : NodeStore) (l : LinkedList) (v y : ℕ) (ys : List ℕ)
    → IsList s l (v ∷ y ∷ ys)
    → (t : NodeStore) × (m : LinkedList) × (erase v s l ≡ some (t, m)) × IsList t m (y ∷ ys)
unfolding erase
erase-IsList_first s l v y ys q =
    let second : s.next l.head ≡ y = ap s.next q.head ∙ q.tied.1 in
    let some_there : (l.size == 0) ≡ false = nonzero l.size (omega (arith, q.size)) in
    (
      set_pre (s.next l.head) 0 s,
      record l { head = s.next l.head; size = less_one l.size },
      rw
          (
            nonzero v q.nodes.0,
            some_there,
            q.tied.0,
            nonzero l.head (λ e. q.nodes.0 (sym q.head ∙ e)),
            nonzero (s.next l.head) (λ e. q.nodes.2.0 (sym second ∙ e)),
          )
          refl,
      record {
        nodes = q.nodes.2;
        head = second;
        tail = q.tail;
        size = ground (arith, q.size);
        tied =
            subst (λ p. Tied (update s.pre p 0) s.next 0 (y ∷ ys) 0) (sym second)
              (Tied-retie_pre s.pre s.next v 0 0 y ys q.nodes.2 q.tied.2);
      },
    )

erase-IsList_last :
    (s : NodeStore) (l : LinkedList) (x : ℕ) (xs : List ℕ) (v : ℕ)
    → IsList s l (x ∷ (xs ++ v ∷ []))
    → (t : NodeStore) × (m : LinkedList) × (erase v s l ≡ some (t, m)) × IsList t m (x ∷ (xs ++ []))
unfolding erase
erase-IsList_last s l x xs v q =
    let at = Tied-right s.pre s.next 0 0 (x ∷ xs) (v ∷ []) q.tied in
    let before = Tied-left s.pre s.next 0 0 (x ∷ xs) (v ∷ []) q.tied in
    let nodes = AreNodes-left (x ∷ xs) (v ∷ []) q.nodes in
    let v_there : v ≢ 0 = (AreNodes-right (x ∷ xs) (v ∷ []) q.nodes).0 in
    let pre_there : (s.pre v == 0) ≡ false =
      nonzero (s.pre v) (λ e. last_or-node x xs nodes (sym at.0 ∙ e)) in
    let some_there : (l.size == 0) ≡ false = nonzero l.size (omega (arith, q.size)) in
    (
      set_next (s.pre v) 0 s,
      record l { tail = s.pre v; size = less_one l.size },
      rw (nonzero v v_there, some_there, pre_there, at.1) refl,
      record {
        nodes = AreNodes-without (x ∷ xs) v [] q.nodes;
        head = q.head;
        tail = last_or-append xs [] x ∙ sym at.0;
        size = ground (arith, q.size, length-without (x ∷ xs) v []);
        tied =
            subst (λ p. Tied s.pre (update s.next p 0) 0 (x ∷ (xs ++ [])) 0) (sym at.0)
              (Tied-join s.pre (update s.next (last_or xs x) 0) 0 0 (x ∷ xs) []
                (Tied-retie_next s.pre s.next 0 v 0 x xs nodes before) tt);
      },
    )

-- The pointers around a node between two others.
Tied-around_node :
    (pre next : ℕ → ℕ) (x : ℕ) (xs : List ℕ) (v y : ℕ) (ys : List ℕ)
    → AreNodes (x ∷ (xs ++ v ∷ y ∷ ys))
    → Tied pre next 0 (x ∷ (xs ++ v ∷ y ∷ ys)) 0
    → Tied (update pre y (last_or xs x)) (update next (last_or xs x) y) 0 (x ∷ (xs ++ y ∷ ys)) 0
Tied-around_node pre next x xs v y ys n t =
    let p = last_or xs x in
    let without = AreNodes-without (x ∷ xs) v (y ∷ ys) n in
    let before = Tied-left pre next 0 0 (x ∷ xs) (v ∷ y ∷ ys) t in
    let behind = (Tied-right pre next 0 0 (x ∷ xs) (v ∷ y ∷ ys) t).2 in
    Tied-join (update pre y p) (update next p y) 0 0 (x ∷ xs) (y ∷ ys)
      (Tied-update_pre pre (update next p y) y p 0 y (x ∷ xs) (NotIn-sym y (x ∷ xs) ys without)
        (Tied-retie_next pre next 0 v y x xs (AreNodes-left (x ∷ xs) (y ∷ ys) without) before))
      (Tied-retie_pre pre (update next p y) v 0 p y ys (AreNodes-right (x ∷ xs) (y ∷ ys) without)
        (Tied-update_next pre next p y v 0 (y ∷ ys) (last_or-apart x xs (y ∷ ys) without) behind))

erase-IsList_between :
    (s : NodeStore) (l : LinkedList) (x : ℕ) (xs : List ℕ) (v y : ℕ) (ys : List ℕ)
    → IsList s l (x ∷ (xs ++ v ∷ y ∷ ys))
    → (t : NodeStore) × (m : LinkedList) × (erase v s l ≡ some (t, m))
      × IsList t m (x ∷ (xs ++ y ∷ ys))
unfolding erase
erase-IsList_between s l x xs v y ys q =
    let at = Tied-right s.pre s.next 0 0 (x ∷ xs) (v ∷ y ∷ ys) q.tied in
    let nodes = AreNodes-left (x ∷ xs) (v ∷ y ∷ ys) q.nodes in
    let there = AreNodes-right (x ∷ xs) (v ∷ y ∷ ys) q.nodes in
    let pre_there : (s.pre v == 0) ≡ false =
      nonzero (s.pre v) (λ e. last_or-node x xs nodes (sym at.0 ∙ e)) in
    let next_there : (s.next v == 0) ≡ false = nonzero (s.next v) (λ e. there.2.0 (sym at.1 ∙ e)) in
    let some_there : (l.size == 0) ≡ false = nonzero l.size (omega (arith, q.size)) in
    (
      set_pre (s.next v) (s.pre v) (set_next (s.pre v) (s.next v) s),
      record l { size = less_one l.size },
      rw (nonzero v there.0, some_there, pre_there, next_there) refl,
      record {
        nodes = AreNodes-without (x ∷ xs) v (y ∷ ys) q.nodes;
        head = q.head;
        tail = last_or-append xs (y ∷ ys) x ∙ sym (last_or-append xs (v ∷ y ∷ ys) x) ∙ q.tail;
        size = ground (arith, q.size, length-without (x ∷ xs) v (y ∷ ys));
        tied =
            subst
              (λ p.
                Tied (update s.pre (s.next v) p) (update s.next p (s.next v)) 0 (x ∷ (xs ++ y ∷ ys))
                  0)
              (sym at.0)
              (subst
                (λ n.
                  Tied (update s.pre n (last_or xs x)) (update s.next (last_or xs x) n) 0
                    (x ∷ (xs ++ y ∷ ys)) 0)
                (sym at.1) (Tied-around_node s.pre s.next x xs v y ys q.nodes q.tied));
      },
    )

-- A node of a list that is tied both ways can be erased wherever it stands: no null pointer is
-- followed, and the list is then one that is tied both ways and has the other nodes in their order.
pub erase-IsList :
    (s : NodeStore) (l : LinkedList) (xs : List ℕ) (v : ℕ) (ys : List ℕ)
    → IsList s l (xs ++ v ∷ ys)
    → (t : NodeStore) × (m : LinkedList) × (erase v s l ≡ some (t, m)) × IsList t m (xs ++ ys)
erase-IsList s l [] v [] q = erase-IsList_only s l v q
erase-IsList s l [] v (y ∷ ys) q = erase-IsList_first s l v y ys q
erase-IsList s l (x ∷ xs) v [] q = erase-IsList_last s l x xs v q
erase-IsList s l (x ∷ xs) v (y ∷ ys) q = erase-IsList_between s l x xs v y ys q

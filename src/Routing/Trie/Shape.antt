-- ===== src/Routing/Trie/Shape.antt =====
-- The invariant of a trie: a route stands as deep as its pattern has parts and has a handler that was registered, and
-- exactly the nodes whose part begins with a colon are wild.
use mathlib.Core.Path.{subst}
use restful_cweb.Prelude.{
  ℕ, suc, ◌+◌, ◌≡◌, refl, sym, ◌≢◌, ◌⊎◌, inl, inr, ◌∙◌, Bool, true, List, [], ◌∷◌, Bytes, Option,
  none, arith, Bool-cases, ap, length, bytes_eq_refl,
}
use restful_cweb.Routing.Split.{parse_pattern}
use restful_cweb.Routing.Trie.{
  Node, node, Nodes, nil, cons, pattern, handler, children, fits, at_child, insert_parts, insert,
  is_param, empty_trie,
}
use restful_cweb.Routing.Trie.Search.{Child, here, there, Reaches, stop, down}

module _ {H : Type 0} where
  abbrev pub part : Node H → Bytes
  part (node pat p cs wild h) = p

  abbrev pub iswild : Node H → Bool
  iswild (node pat p cs wild h) = wild

  fits_self : (c : Node H) → fits (part c) c ≡ true
  fits_self (node pat p cs wild h) = rw (bytes_eq_refl p)

  unfoldable pub fresh : Bytes → Node H
  fresh p = node [] p nil (is_param p) none

  -- Where a child of the changed list comes from.
  data Origin (f : Node H → Node H) (p : Bytes) (cs : Nodes H) (x : Node H) : Type 0 where
    kept_child : Child x cs → Origin f p cs x
    changed : (c : Node H) → Child c cs → x ≡ f c → Origin f p cs x
    added : x ≡ f (fresh p) → Origin f p cs x

  Origin-there :
      (f : Node H → Node H) (p : Bytes) (d : Node H) (cs : Nodes H) {x : Node H}
      → Origin f p cs x
      → Origin f p (cons d cs) x
  Origin-there f p d cs (kept_child at) = kept_child (there at)
  Origin-there f p d cs (changed c at e) = changed c (there at) e
  Origin-there f p d cs (added e) = added e

  head_or_tail : {x d : Node H} {cs : Nodes H} → Child x (cons d cs) → (x ≡ d) ⊎ Child x cs
  head_or_tail here = inl refl
  head_or_tail (there at) = inr at

  at_child-Origin :
      (f : Node H → Node H) (p : Bytes) (cs : Nodes H) {x : Node H}
      → Child x (at_child f p cs)
      → Origin f p cs x
  unfolding at_child fresh
  at_child-Origin f p nil at = elim (head_or_tail at) [
    | inl e ↦ added e
    | inr later ↦ elim later [ ]
  ]
  at_child-Origin f p (cons d cs) {x} at = elim (Bool-cases (fits p d)) [
    | inl fit ↦ elim (head_or_tail {d = f d} {cs = cs} (rw fit at at)) [
      | inl e ↦ changed d here e
      | inr later ↦ kept_child (there later)
    ]
    | inr no_fit ↦ elim (head_or_tail {d = d} {cs = at_child f p cs} (rw no_fit at at)) [
      | inl e ↦ kept_child (subst (λ y. Child y (cons d cs)) (sym e) here)
      | inr later ↦ Origin-there f p d cs (at_child-Origin f p cs later)
    ]
  ]

  part-insert_parts :
      (ps : List Bytes) (pat : Bytes) (h : Option H) (n : Node H)
      → (part (insert_parts ps pat h n) ≡ part n) × (iswild (insert_parts ps pat h n) ≡ iswild n)
  unfolding insert_parts
  part-insert_parts [] pat h (node old p cs wild k) = (refl, refl)
  part-insert_parts (q ∷ ps) pat h (node old p cs wild k) = (refl, refl)

  -- The colons of the children of the changed list.
  colons-at_child :
      (ps : List Bytes) (pat : Bytes) (h : Option H) (p : Bytes) (cs : Nodes H)
      → ((c : Node H) → Child c cs → iswild c ≡ is_param (part c))
      → (x : Node H) → Child x (at_child (insert_parts ps pat h) p cs)
      → iswild x ≡ is_param (part x)
  unfolding fresh
  colons-at_child ps pat h p cs all x at = elim (at_child-Origin (insert_parts ps pat h) p cs at) [
    | kept_child at' ↦ all x at'
    | changed c at' e ↦
        let (same, same_wild) = part-insert_parts ps pat h c in
        rw e (same_wild ∙ all c at' ∙ ap is_param (sym same))
    | added e ↦
        let (same, same_wild) = part-insert_parts ps pat h (fresh p) in
        rw e (same_wild ∙ ap is_param (sym same))
  ]

-- `Good` is what holds of each handler that is registered.
module _ {H : Type 0} (Good : Option H → Type 0) where
  -- What holds of a node at depth `d`.
  pub record Sound (d : ℕ) (m : Node H) : Type 0 where
    pub depth : pattern m ≢ [] → length (parse_pattern (pattern m)) ≡ d
    pub has_handler : pattern m ≢ [] → Good (handler m)
    pub colons : (c : Node H) → Child c (children m) → iswild c ≡ is_param (part c)

  -- It holds of all nodes below `n`, which stands at depth `d`.
  abbrev pub Inv : ℕ → Node H → Type 0
  Inv d n = (m : Node H) (qs : List Bytes) → Reaches m n qs → Sound (d + length qs) m

  pub Inv-Child : (d : ℕ) (c n : Node H) → Inv d n → Child c (children n) → Inv (suc d) c
  Inv-Child d c n inv at m qs r =
      let e : d + suc (length qs) ≡ suc d + length qs = omega arith in
      rw e at (inv m (part c ∷ qs) (down at (fits_self c) r))

  pub Inv-fresh : (d : ℕ) (p : Bytes) → Inv d (fresh p)
  unfolding fresh
  Inv-fresh d p m qs stop = record {
    depth = λ ne. absurd (ne refl);
    has_handler = λ ne. absurd (ne refl);
    colons = λ c at. elim at [ ];
  }
  Inv-fresh d p m qs (down at fit r) = elim at [ ]

  pub insert_parts-Inv :
      (ps : List Bytes) (pat : Bytes) (h : Option H) (d : ℕ) (n : Node H)
      → Good h
      → length (parse_pattern pat) ≡ d + length ps
      → Inv d n
      → Inv d (insert_parts ps pat h n)
  unfolding insert_parts
  insert_parts-Inv [] pat h d (node old p cs wild k) good e inv m qs stop =
      let s = inv (node old p cs wild k) [] stop in
      record { depth = λ _. e; has_handler = λ _. good; colons = s.colons }
  insert_parts-Inv [] pat h d (node old p cs wild k) good e inv m qs (down at fit r) =
      inv m qs (down at fit r)
  insert_parts-Inv (q ∷ ps) pat h d (node old p cs wild k) good e inv m qs stop =
      let s = inv (node old p cs wild k) [] stop in
      record {
        depth = s.depth;
        has_handler = s.has_handler;
        colons = colons-at_child ps pat h q cs s.colons;
      }
  insert_parts-Inv (q ∷ ps) pat h d (node old p cs wild k) good e inv m qs
        (down {c = x} {ps = rs} at fit r) =
      let e' : d + suc (length rs) ≡ suc d + length rs = omega arith in
      let f = insert_parts ps pat h in
      elim (at_child-Origin f q cs at) [
        | kept_child at' ↦ inv m qs (down at' fit r)
        | changed c at' o ↦ rw e' (
            insert_parts-Inv ps pat h (suc d) c good (omega arith)
              (Inv-Child d c (node old p cs wild k) inv at') m rs (subst (λ y. Reaches m y rs) o r))
        | added o ↦ rw e' (
            insert_parts-Inv ps pat h (suc d) (fresh q) good (omega arith) (Inv-fresh (suc d) q) m
              rs (subst (λ y. Reaches m y rs) o r))
      ]

  pub insert-Inv :
      (pat : Bytes) (h : Option H) (root : Node H) → Good h → Inv 0 root → Inv 0 (insert pat h root)
  unfolding insert
  insert-Inv pat h root good inv =
      insert_parts-Inv (parse_pattern pat) pat h 0 root good (omega arith) inv

  pub empty_trie-Inv : Inv 0 (empty_trie {H = H})
  unfolding empty_trie
  empty_trie-Inv m qs stop = record {
    depth = λ ne. absurd (ne refl);
    has_handler = λ ne. absurd (ne refl);
    colons = λ c at. elim at [ ];
  }
  empty_trie-Inv m qs (down at fit r) = elim at [ ]

-- ===== src/Routing/Trie/Insert.antt =====
-- Registering a route in a trie, and searching for it.
use restful_cweb.Prelude.{
  ◌≡◌, refl, ◌≢◌, ◌⊎◌, inl, inr, ◌∙◌, true, List, [], ◌∷◌, Bytes, Option, none, some, Bool-cases,
  bytes_eq_refl,
}
use restful_cweb.Routing.Split.{parse_pattern}
use restful_cweb.Routing.Trie.{
  Node, node, Nodes, nil, cons, pattern, handler, fits, find_children, first_found, search,
  at_child, insert_parts, insert, is_param,
}
use restful_cweb.Routing.Trie.Search.{Child, here, there, Reaches, stop, down}

module _ {H : Type 0} where
  pub fits-insert_parts :
      (q : Bytes) (ps : List Bytes) (pat : Bytes) (h : Option H) (n : Node H)
      → fits q (insert_parts ps pat h n) ≡ fits q n
  unfolding insert_parts
  fits-insert_parts q [] pat h (node old part cs wild k) = refl
  fits-insert_parts q (p ∷ ps) pat h (node old part cs wild k) = refl

  -- The search goes first to the child that `at_child` changed or added.
  first_found-at_child :
      (f : Node H → Node H) (g : Node H → Option (Node H)) (Good : Node H → Type 0) (p : Bytes)
      → ((c : Node H) → fits p (f c) ≡ fits p c)
      → ((c : Node H) → (m : Node H) × (g (f c) ≡ some m) × Good m)
      → (cs : Nodes H)
      → (m : Node H) × (first_found g (find_children p (at_child f p cs)) ≡ some m) × Good m
  unfolding first_found find_children at_child
  first_found-at_child f g Good p keep hit nil =
      let c : Node H = node [] p nil (is_param p) none in
      let (m, e, good) = hit c in
      let fit : fits p (f c) ≡ true = keep c ∙ rw (bytes_eq_refl p) in
      (m, rw fit (rw (e, first_found)), good)
  first_found-at_child f g Good p keep hit (cons c cs) = elim (Bool-cases (fits p c)) [
    | inl fit ↦
        let (m, e, good) = hit c in (m, rw fit (rw (keep c ∙ fit) (rw (e, first_found))), good)
    | inr no_fit ↦
        let (m, e, good) = first_found-at_child f g Good p keep hit cs in
        (m, rw no_fit (rw no_fit e), good)
  ]

  abbrev Holds : Bytes → Option H → Node H → Type 0
  Holds pat h m = (pattern m ≡ pat) × (handler m ≡ h)

  search-insert_parts :
      (ps : List Bytes) (pat : Bytes) (h : Option H) (n : Node H)
      → pat ≢ []
      → (m : Node H) × (search ps (insert_parts ps pat h n) ≡ some m) × Holds pat h m
  unfolding search insert_parts
  search-insert_parts [] [] h (node old part cs wild k) ne = absurd (ne refl)
  search-insert_parts [] (b ∷ pat) h (node old part cs wild k) ne =
      (node (b ∷ pat) part cs wild h, refl, (refl, refl))
  search-insert_parts (p ∷ ps) pat h (node old part cs wild k) ne =
      first_found-at_child (insert_parts ps pat h) (search ps) (Holds pat h) p
        (fits-insert_parts p ps pat h) (λ c. search-insert_parts ps pat h c ne) cs

  -- In every trie, the search for the text of a pattern just registered, which is not empty, finds
  -- that pattern with its handler.
  pub search-insert :
      (pat : Bytes) (h : Option H) (root : Node H)
      → pat ≢ []
      → (m : Node H) × (search (parse_pattern pat) (insert pat h root) ≡ some m)
        × (pattern m ≡ pat)
        × (handler m ≡ h)
  unfolding insert
  search-insert pat h root ne =
      let (m, e, good) = search-insert_parts (parse_pattern pat) pat h root ne in
      (m, e, good.0, good.1)

  -- The child that was, or its changed version, is still among the children.
  Child-at_child :
      (f : Node H → Node H) (p : Bytes) (c : Node H) {cs : Nodes H}
      → Child c cs
      → Child c (at_child f p cs) ⊎ Child (f c) (at_child f p cs)
  unfolding at_child
  Child-at_child f p c (here {cs = cs}) = elim (Bool-cases (fits p c)) [
    | inl fit ↦ rw fit (inr here)
    | inr no_fit ↦ rw no_fit (inl here)
  ]
  Child-at_child f p c (there {d = d} {cs = cs} at) = elim (Bool-cases (fits p d)) [
    | inl fit ↦ rw fit (inl (there at))
    | inr no_fit ↦
        rw no_fit (elim (Child-at_child f p c at) [
          | inl same ↦ inl (there same)
          | inr new ↦ inr (there new)
        ])
  ]

  -- A node with a pattern below `n` along the parts.
  abbrev pub Routed : Node H → List Bytes → Type 0
  Routed n qs = (m : Node H) × Reaches m n qs × (pattern m ≢ [])

  -- Registering a route takes none away: along the same parts there is still a node with a
  -- pattern.
  pub Routed-insert_parts :
      (ps : List Bytes) (pat : Bytes) (h : Option H)
      → pat ≢ []
      → (m : Node H) {n : Node H} {qs : List Bytes} → pattern m ≢ []
      → Reaches m n qs
      → Routed (insert_parts ps pat h n) qs
  unfolding insert_parts
  Routed-insert_parts [] pat h ne (node old part cs wild k) has stop =
      (node pat part cs wild h, stop, ne)
  Routed-insert_parts (p ∷ ps) pat h ne (node old part cs wild k) has stop =
      (node old part (at_child (insert_parts ps pat h) p cs) wild k, stop, has)
  Routed-insert_parts [] pat h ne m has (down {n = node old part cs wild k} at fit r) =
      (m, down at fit r, has)
  Routed-insert_parts (p ∷ ps) pat h ne m has
        (down {n = node old part cs wild k} {c = c} {p = q} at fit r) =
      elim (Child-at_child (insert_parts ps pat h) p c at) [
        | inl same ↦ (m, down same fit r, has)
        | inr new ↦
            let (m', r', has') = Routed-insert_parts ps pat h ne m has r in
            (m', down new (fits-insert_parts q ps pat h c ∙ fit) r', has')
      ]

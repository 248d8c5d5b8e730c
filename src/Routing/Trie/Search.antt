-- ===== src/Routing/Trie/Search.antt =====
-- Searching a trie: what is found is reached along the parts, and what can be reached is found.
use mathlib.Core.Path.{subst}
use mathlib.Core.Option.{some-injective}
use restful_cweb.Prelude.{
  ◌≡◌, refl, ◌≢◌, inl, inr, true, List, [], ◌∷◌, Bytes, Option, some, arith, Bool-cases,
  Option-cases,
}
use restful_cweb.Routing.Trie.{
  Node, node, Nodes, nil, cons, pattern, children, fits, find_children, first_found, search,
}

module _ {H : Type 0} where
  -- `c` is one of the children.
  pub data Child (c : Node H) : Nodes H → Type 0 where
    here : {cs : Nodes H} → Child c (cons c cs)
    there : {d : Node H} {cs : Nodes H} → Child c cs → Child c (cons d cs)

  -- `m` stands below `n` along the parts: each step goes to a child whose part is the same or
  -- which is a parameter.
  pub data Reaches (m : Node H) : Node H → List Bytes → Type 0 where
    stop : Reaches m m []
    down :
        {n c : Node H} {p : Bytes} {ps : List Bytes}
        → Child c (children n)
        → fits p c ≡ true
        → Reaches m c ps
        → Reaches m n (p ∷ ps)

  -- One of the children passes the test and gives the result.
  abbrev Finds : Bytes → (Node H → Option (Node H)) → Nodes H → Node H → Type 0
  Finds p f cs m = (c : Node H) × Child c cs × (fits p c ≡ true) × (f c ≡ some m)

  Finds-there :
      (p : Bytes) (f : Node H → Option (Node H)) (d : Node H) (cs : Nodes H) {m : Node H}
      → Finds p f cs m
      → Finds p f (cons d cs) m
  Finds-there p f d cs (c, at, fit, found) = (c, there at, fit, found)

  first_found-Finds :
      (p : Bytes) (f : Node H → Option (Node H)) (cs : Nodes H) {m : Node H}
      → first_found f (find_children p cs) ≡ some m
      → Finds p f cs m
  unfolding first_found find_children
  first_found-Finds p f nil h = cc
  first_found-Finds p f (cons d cs) {m} h = elim (Bool-cases (fits p d)) [
    | inr no_fit ↦ Finds-there p f d cs (first_found-Finds p f cs (rw (no_fit) at h))
    | inl fit ↦ elim (Option-cases (f d)) [
      | inl e ↦ Finds-there p f d cs (first_found-Finds p f cs (rw (fit, e, first_found) at h))
      | inr (m', e) ↦ (d, here, fit, ground arith)
    ]
  ]

  first_found_total :
      (p : Bytes) (f : Node H → Option (Node H)) (c : Node H) {cs : Nodes H} {m : Node H}
      → Child c cs
      → fits p c ≡ true
      → f c ≡ some m
      → (r : Node H) × (first_found f (find_children p cs) ≡ some r)
  unfolding first_found find_children
  first_found_total p f c {m = m} here fit e = (m, rw fit (rw (e, first_found)))
  first_found_total p f c (there {d = d} {cs = cs} at) fit e =
      let (r, found) = first_found_total p f c at fit e in
      elim (Bool-cases (fits p d)) [
        | inr no_fit ↦ (r, rw no_fit found)
        | inl fit' ↦ elim (Option-cases (f d)) [
          | inl none_here ↦ (r, rw fit' (rw (none_here, first_found) found))
          | inr (m', e') ↦ (m', rw fit' (rw (e', first_found)))
        ]
      ]

  search_here : (m : Node H) → pattern m ≢ [] → search [] m ≡ some m
  unfolding search
  search_here (node [] part cs wild h) ne = absurd (ne refl)
  search_here (node (b ∷ pat) part cs wild h) ne = refl

  -- What a search returns is reached along the parts and has a pattern.
  pub search_sound :
      (ps : List Bytes) (n : Node H) {m : Node H}
      → search ps n ≡ some m
      → Reaches m n ps × (pattern m ≢ [])
  unfolding search
  search_sound [] (node [] part cs wild h) e = cc
  search_sound [] (node (b ∷ pat) part cs wild h) {m} e =
      subst (λ x. Reaches x (node (b ∷ pat) part cs wild h) [] × (pattern x ≢ []))
        (some-injective _ _ e) (stop, λ q. cc)
  search_sound (p ∷ ps) n e =
      let (c, at, fit, found) = first_found-Finds p (search ps) (children n) e in
      let (r, ne) = search_sound ps c found in (down at fit r, ne)

  -- A search is complete: it comes back to the later children where the first ones lead nowhere.
  pub search_complete :
      {m n : Node H} {ps : List Bytes}
      → Reaches m n ps
      → pattern m ≢ []
      → (r : Node H) × (search ps n ≡ some r)
  unfolding search
  search_complete {m} stop ne = (m, search_here m ne)
  search_complete {n = n} (down {c = c} {p = p} {ps = ps} at fit r) ne =
      let (m, e) = search_complete r ne in first_found_total p (search ps) c at fit e

-- ===== src/Routing/Router/Hits.antt =====
-- Which requests a registered route answers.
use restful_cweb.Prelude.{◌≡◌, ◌≢◌, ◌⊎◌, true, List, [], ◌∷◌, Bytes, Option, some, lookup}
use restful_cweb.Routing.Trie.{Node, Nodes, fits, at_child, is_param}
use restful_cweb.Routing.Trie.Search.{Child}
use restful_cweb.Routing.Trie.Insert.{Routed}
use restful_cweb.Routing.Trie.Shape.{fresh}
use restful_cweb.Routing.Router.{Routes, Registration}

-- A path is an instance of a pattern: as many parts, the same ones but where the pattern has a
-- parameter.
abbrev pub Matches : List Bytes → List Bytes → Type 0
Matches [] [] = Unit {0}
Matches [] (q ∷ qs) = ⊥
Matches (p ∷ ps) [] = ⊥
Matches (p ∷ ps) (q ∷ qs) = ((p ≡ q) ⊎ (is_param p ≡ true)) × Matches ps qs

module _ {H : Type 0} where
  -- No more than the shape of the tries matters here.
  abbrev Any : Option H → Type 0
  Any h = Unit {0}

  -- The child that an insertion goes into.
  abbrev Target : (Node H → Node H) → Bytes → Nodes H → Type 0
  Target f p cs =
      (c : Node H) × Child (f c) (at_child f p cs)
      × (fits p c ≡ true)
      × (Child c cs ⊎ (c ≡ fresh p))

  -- The method has a trie in which a node with a pattern is reached along the parts.
  abbrev Answers : Routes H → Bytes → List Bytes → Type 0
  Answers routes method qs = (root : Node H) × (lookup method routes ≡ some root) × Routed root qs

  abbrev pub AllNamed : List (Registration H) → Type 0
  AllNamed [] = Unit {0}
  AllNamed (r ∷ rs) = (r.route ≢ []) × AllNamed rs

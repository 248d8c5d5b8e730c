-- ===== src/Routing/Router.antt =====
-- `Router` of src/cweb/router.h and src/cweb/router.cc, and the part of a `Context` that it fills.
pub mod Hits
pub mod Bounds
pub mod Params
use mathlib.Core.List.{tail}
use restful_cweb.Prelude.{
  List, [], ◌∷◌, ◌++◌, Bytes, if◌then◌else◌, Option, none, some, Dict, lookup, assign,
}
use restful_cweb.Routing.Split.{parse_pattern}
use restful_cweb.Routing.Trie.{Node, pattern, handler, is_param, search, insert, empty_trie}

-- The request's method and path, the parameters bound so far, and the handlers to run.
pub record Context (H : Type 0) : Type 0 where
  pub method : Bytes
  pub path : Bytes
  pub params : Dict Bytes
  pub handlers : List (Option H)

-- `std::unordered_map<std::string, Trie*> roots_`.
abbrev pub Routes : Type 0 → Type 0
Routes H = Dict (Node H)

-- What `findRoute` does: returns false, reads a part that the path does not have, or returns true
-- with a changed context.
pub data Outcome (H : Type 0) : Type 0 where
  missed : Outcome H
  out_of_range : Outcome H
  routed : Context H → Outcome H

-- The loop over `node_parts`, with `parts[i]` at the head of the second list.
unfoldable pub bind_params : List Bytes → List Bytes → Dict Bytes → Option (Dict Bytes)
bind_params [] parts params = some params
bind_params (np ∷ nps) [] params = if is_param np then none else bind_params nps [] params
bind_params (np ∷ nps) (v ∷ vs) params =
    bind_params nps vs (if is_param np then assign (tail np) v params else params)

-- A call of `AddRouter`: the method, the pattern and the handler, which may be empty.
pub record Registration (H : Type 0) : Type 0 where
  pub verb : Bytes
  pub route : Bytes
  pub action : Option H

module _ {H : Type 0} where
  -- The trie of a method; `new Trie()` where the method has none.
  abbrev pub root_of : Bytes → Routes H → Node H
  root_of method routes = elim (lookup method routes) [ none ↦ empty_trie | some t ↦ t ]

  unfoldable pub add_router : Bytes → Bytes → Option H → Routes H → Routes H
  unfolding empty_trie
  add_router method pat h routes = assign method (insert pat h (root_of method routes)) routes

  abbrev pub take_route : Context H → Node H → Option (Dict Bytes) → Outcome H
  take_route c n none = out_of_range
  take_route c n (some params) =
      routed (record c { params = params; handlers = c.handlers ++ handler n ∷ [] })

  abbrev pub bind_route : Context H → Option (Node H) → Outcome H
  bind_route c none = missed
  bind_route c (some n) =
      take_route c n (bind_params (parse_pattern (pattern n)) (parse_pattern c.path) c.params)

  abbrev pub search_root : Context H → Option (Node H) → Outcome H
  search_root c none = missed
  search_root c (some root) = bind_route c (search (parse_pattern c.path) root)

  unfoldable pub find_route : Routes H → Context H → Outcome H
  unfolding lookup search bind_params
  find_route routes c = search_root c (lookup c.method routes)

  -- Calls of `AddRouter`, the first one first.
  unfoldable pub register_all : List (Registration H) → Routes H → Routes H
  register_all [] routes = routes
  register_all (r ∷ rs) routes = register_all rs (add_router r.verb r.route r.action routes)

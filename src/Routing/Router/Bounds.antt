-- ===== src/Routing/Router/Bounds.antt =====
-- `findRoute` reads `parts[i]` for an index of the pattern's parts, and the handler of the node.
use mathlib.Core.Path.{subst}
use mathlib.Core.Option.{some-injective}
use restful_cweb.Prelude.{
  ◌≤◌, ◌≡◌, refl, sym, inl, inr, ◌∙◌, List, [], ◌∷◌, ◌++◌, Bytes, Option, none, some, arith,
  Bool-cases, length, Dict, lookup, lookup-assign, bytes_eq, if◌then◌else◌, Option-cases,
}
use restful_cweb.Routing.Split.{parse_pattern}
use restful_cweb.Routing.Trie.{Node, pattern, handler, search, insert}
use restful_cweb.Routing.Trie.Search.{search_sound}
use restful_cweb.Routing.Trie.Shape.{Inv, insert-Inv, empty_trie-Inv}
use restful_cweb.Routing.Router.{
  Routes, Context, Outcome, missed, out_of_range, routed, add_router, find_route, bind_params,
  Registration, register_all, root_of, bind_route, take_route, search_root,
}

pub bind_params_total :
    (nps vs : List Bytes) (params : Dict Bytes)
    → length nps ≤ length vs
    → (r : Dict Bytes) × (bind_params nps vs params ≡ some r)
unfolding bind_params
bind_params_total [] vs params h = (params, refl)
bind_params_total (np ∷ nps) [] params h = absurd (omega arith)
bind_params_total (np ∷ nps) (v ∷ vs) params h = bind_params_total nps vs _ (omega arith)

module _ {H : Type 0} where
  pub lookup-add_router :
      (method pat : Bytes) (h : Option H) (routes : Routes H) (m : Bytes)
      → lookup m (add_router method pat h routes) ≡ (
          if bytes_eq method m
          then some (insert pat h (root_of method routes))
          else lookup m routes)
  unfolding add_router
  lookup-add_router method pat h routes m =
      lookup-assign method m (insert pat h (root_of method routes)) routes

-- `Good` is what holds of each handler that is registered.
module _ {H : Type 0} (Good : Option H → Type 0) where
  abbrev pub AllGood : List (Registration H) → Type 0
  AllGood [] = Unit {0}
  AllGood (r ∷ rs) = Good r.action × AllGood rs

  -- Every method's trie has the shape that registrations give it.
  abbrev pub RoutesInv : Routes H → Type 0
  RoutesInv routes =
      (method : Bytes) (root : Node H) → lookup method routes ≡ some root → Inv Good 0 root

  pub root_of-Inv :
      (method : Bytes) (routes : Routes H) → RoutesInv routes → Inv Good 0 (root_of method routes)
  root_of-Inv method routes inv = elim (Option-cases (lookup method routes)) [
    | inl e ↦ rw (e, root_of) (empty_trie-Inv Good)
    | inr (t, e) ↦ rw (e, root_of) (inv method t e)
  ]

  pub add_router-RoutesInv :
      (method pat : Bytes) (h : Option H) (routes : Routes H)
      → Good h
      → RoutesInv routes
      → RoutesInv (add_router method pat h routes)
  add_router-RoutesInv method pat h routes good inv m root e =
      let seen = lookup-add_router method pat h routes m in
      elim (Bool-cases (bytes_eq method m)) [
        | inl same ↦
            subst (Inv Good 0) (some-injective _ _ (sym (rw same at seen) ∙ e))
              (insert-Inv Good pat h (root_of method routes) good (root_of-Inv method routes inv))
        | inr other ↦ inv m root (sym (rw other at seen) ∙ e)
      ]

  pub register_all-RoutesInv :
      (rs : List (Registration H)) (routes : Routes H)
      → AllGood rs
      → RoutesInv routes
      → RoutesInv (register_all rs routes)
  unfolding register_all
  register_all-RoutesInv [] routes good inv = inv
  register_all-RoutesInv (r ∷ rs) routes good inv =
      register_all-RoutesInv rs (add_router r.verb r.route r.action routes) good.1
        (add_router-RoutesInv r.verb r.route r.action routes good.0 inv)

  pub empty-RoutesInv : RoutesInv []
  unfolding lookup
  empty-RoutesInv method root e = cc

  -- The request is refused, or one handler, which is as all registered ones, is added to those of
  -- the context, whose method and path stay.
  abbrev pub IsServed : Context H → Outcome H → Type 0
  IsServed c missed = Unit
  IsServed c out_of_range = ⊥
  IsServed c (routed c') =
      (h : Option H) × Good h
      × (c'.handlers ≡ c.handlers ++ h ∷ [])
      × (c'.method ≡ c.method)
      × (c'.path ≡ c.path)

  bind_route-IsServed :
      (c : Context H) (root : Node H) (o : Option (Node H))
      → Inv Good 0 root
      → search (parse_pattern c.path) root ≡ o
      → IsServed c (bind_route c o)
  bind_route-IsServed c root none inv e = tt
  bind_route-IsServed c root (some n) inv e =
      let (reach, has) = search_sound (parse_pattern c.path) root e in
      let s = inv n (parse_pattern c.path) reach in
      let (params, bound) =
        bind_params_total (parse_pattern (pattern n)) (parse_pattern c.path) c.params
          (omega (arith, s.depth has)) in
      rw (bound, take_route) (handler n, s.has_handler has, refl, refl, refl)

  -- After any registrations `findRoute` reads no part out of range. It refuses the request, or adds one
  -- handler behind those of the context and keeps its method and path; and what holds of every
  -- handler that was registered, that none is an empty function, say, holds of this one.
  pub find_route-IsServed :
      (rs : List (Registration H)) (c : Context H)
      → AllGood rs
      → IsServed c (find_route (register_all rs []) c)
  unfolding find_route
  find_route-IsServed rs c good = elim (Option-cases (lookup c.method (register_all rs []))) [
    | inl e ↦ rw (e, search_root) tt
    | inr (root, e) ↦
        rw (e, search_root)
          (bind_route-IsServed c root (search (parse_pattern c.path) root)
            (register_all-RoutesInv rs [] good empty-RoutesInv c.method root e) refl)
  ]

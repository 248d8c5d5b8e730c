-- ===== src/Routing/Router/Params.antt =====
-- What a hit hands over: the handler of the route and the values of its parameters.
use mathlib.Core.List.{tail}
use native.Mathlib.Nat.{le_refl}
use restful_cweb.Prelude.{
  ◌≡◌, refl, ◌≢◌, inl, inr, ◌∙◌, ap, true, false, ◌&&◌, List, [], ◌∷◌, ◌++◌, Bytes, Option, none,
  some, arith, bytes_eq, bytes_eq_refl, Dict, lookup, assign, lookup-assign, Option-cases, length,
  if◌then◌else◌,
}
use restful_cweb.Routing.Split.{parse_pattern}
use restful_cweb.Routing.Split.RoundTrip.{NoSlash, parse_pattern-join}
use restful_cweb.Routing.Trie.{
  Node, node, nil, cons, pattern, handler, search, insert, is_param, empty_trie,
}
use restful_cweb.Routing.Trie.Insert.{search-insert}
use restful_cweb.Routing.Router.{
  Routes, Context, routed, add_router, find_route, bind_params, root_of, search_root, bind_route,
  take_route,
}
use restful_cweb.Routing.Router.Bounds.{lookup-add_router, bind_params_total}

-- The first value if there is one, or else the second.
abbrev pub or_else : Option Bytes → Option Bytes → Option Bytes
or_else none b = b
or_else (some v) b = some v

-- The part of the path at the last place where the pattern has the parameter `key`.
unfoldable pub param_value : Bytes → List Bytes → List Bytes → Option Bytes
param_value key [] vs = none
param_value key (np ∷ nps) [] = none
param_value key (np ∷ nps) (v ∷ vs) =
    or_else (param_value key nps vs)
      (if is_param np && bytes_eq (tail np) key then some v else none)

param_value_nil : (key : Bytes) (nps : List Bytes) → param_value key nps [] ≡ none
unfolding param_value
param_value_nil key [] = refl
param_value_nil key (np ∷ nps) = refl

lookup-bind_params :
    (key : Bytes) (nps vs : List Bytes) (params : Dict Bytes) {r : Dict Bytes}
    → bind_params nps vs params ≡ some r
    → lookup key r ≡ or_else (param_value key nps vs) (lookup key params)
unfolding bind_params param_value
lookup-bind_params key [] vs params e = ground arith
lookup-bind_params key (np ∷ nps) [] params {r} e =
    ground (arith, lookup-bind_params key nps [] params {r = r}, param_value_nil key nps)
lookup-bind_params key (np ∷ nps) (v ∷ vs) params e = ground (
  arith,
  lookup-bind_params key nps vs (if is_param np then assign (tail np) v params else params) e,
  lookup-assign (tail np) key v params,
)

module _ {H : Type 0} where
  -- The context after a hit on `n`.
  pub record Hit (c c' : Context H) (n : Node H) : Type 0 where
    pub same_path : (c'.method ≡ c.method) × (c'.path ≡ c.path)
    pub adds_handler : c'.handlers ≡ c.handlers ++ handler n ∷ []
    pub binds :
        (key : Bytes)
        → lookup key c'.params
          ≡ or_else
              (param_value key (parse_pattern (pattern n)) (parse_pattern c.path))
              (lookup key c.params)

  bind_route-Hit :
      (c c' : Context H) (o : Option (Node H))
      → bind_route c o ≡ routed c'
      → (n : Node H) × (o ≡ some n) × Hit c c' n
  bind_route-Hit c c' none e = cc
  bind_route-Hit c c' (some n) e =
      elim (Option-cases
        (bind_params (parse_pattern (pattern n)) (parse_pattern c.path) c.params)) [
          | inl e' ↦ absurd (ground arith)
          | inr (ps, e') ↦ (
            n,
            refl,
            record {
              same_path = ground arith;
              adds_handler = ground arith;
              binds = λ key. rw (field_params ps e') (
                  lookup-bind_params key (parse_pattern (pattern n)) (parse_pattern c.path) c.params
                    e');
            },
          )
        ]
    where
      field_params :
          (ps : Dict Bytes)
          → bind_params (parse_pattern (pattern n)) (parse_pattern c.path) c.params ≡ some ps
          → c'.params ≡ ps
      field_params ps e' = ground arith

  -- A hit of `findRoute`: the method has a trie, the search along the path's parts finds a node,
  -- and its handler goes behind those of the context. A parameter of the pattern has the path's
  -- part at its last place, and every other key the value that it had; method and path stay.
  pub find_route-Hit :
      (routes : Routes H) (c c' : Context H)
      → find_route routes c ≡ routed c'
      → (root n : Node H) × (lookup c.method routes ≡ some root)
        × (search (parse_pattern c.path) root ≡ some n)
        × Hit c c' n
  unfolding find_route
  find_route-Hit routes c c' e = elim (Option-cases (lookup c.method routes)) [
    | inl none_there ↦ absurd (ground arith)
    | inr (root, at) ↦
        let e' : bind_route c (search (parse_pattern c.path) root) ≡ routed c' =
          rw (at, search_root) at e in
        let (n, found, hit) = bind_route-Hit c c' (search (parse_pattern c.path) root) e' in
        (root, n, at, found, hit)
  ]

  -- A request whose path is the text of the pattern just registered runs the handler just
  -- registered, whatever the routes were before.
  pub find_route-add_router :
      (routes : Routes H) (c : Context H) (h : Option H)
      → c.path ≢ []
      → (c' : Context H) × (find_route (add_router c.method c.path h routes) c ≡ routed c')
        × (c'.handlers ≡ c.handlers ++ h ∷ [])
  unfolding find_route
  find_route-add_router routes c h ne =
      let (n, found, pat, act) = search-insert c.path h (root_of c.method routes) ne in
      let (ps, bound) =
        bind_params_total (parse_pattern c.path) (parse_pattern c.path) c.params
          (le_refl (length (parse_pattern c.path))) in
      (
        record c { params = ps; handlers = c.handlers ++ h ∷ [] },
        rw (lookup-add_router c.method c.path h routes c.method, bytes_eq_refl c.method)
            (rw (found, bind_route) (rw pat (rw (bound, take_route) (rw act)))),
        refl,
      )

-- Two texts without a slash.
abbrev one_part : Bytes → Bytes
one_part p = b'/' ∷ p

parse_pattern-one_part : (p : Bytes) → NoSlash p → parse_pattern (one_part p) ≡ p ∷ []
parse_pattern-one_part p h = parse_pattern-join (p ∷ []) (h, tt)

module _ {H : Type 0} (a b q : Bytes) (h₁ h₂ : Option H) (ha : NoSlash a) (hb : NoSlash b) where
  taken : Node H
  taken = node (one_part b) (b':' ∷ a) nil true h₂

  shared_trie :
      insert (one_part b) h₂ (insert (one_part (b':' ∷ a)) h₁ empty_trie)
      ≡ node [] (b'/' ∷ []) (cons taken nil) false none
  unfolding insert empty_trie taken
  shared_trie =
      rw
        (
          parse_pattern-one_part (b':' ∷ a) ((λ e. absurd (omega arith)), ha),
          parse_pattern-one_part b hb,
        )
        (ground arith)

  shared_root :
      (method : Bytes)
      → lookup method
          (add_router method (one_part b) h₂ (add_router method (one_part (b':' ∷ a)) h₁ []))
        ≡ some (node [] (b'/' ∷ []) (cons taken nil) false none)
  unfolding lookup
  shared_root method =
      let first = lookup-add_router method (one_part (b':' ∷ a)) h₁ [] method in
      let second =
        lookup-add_router method (one_part b) h₂ (add_router method (one_part (b':' ∷ a)) h₁ [])
          method in
      let first' = rw (bytes_eq_refl method) at first in
      second ∙ rw (bytes_eq_refl method) (rw (first', root_of) (ap some shared_trie))

  search-shared : search (q ∷ []) (node [] (b'/' ∷ []) (cons taken nil) false none) ≡ some taken
  unfolding search taken
  search-shared = ground arith

bind_plain :
    (b : Bytes) (vs : List Bytes) (params : Dict Bytes)
    → is_param b ≡ false
    → bind_params (b ∷ []) vs params ≡ some params
unfolding bind_params
bind_plain b [] params h = ground arith
bind_plain b (v ∷ vs) params h = ground arith

-- A literal route that is registered behind a parameter at the same place takes the place of the
-- parameter: after `/:a` with handler `h₁` and then `/b` with `h₂`, a request for `/q`, whatever
-- `q` is, runs `h₂` and gets no parameter.
pub literal_replaces_param :
    {H : Type 0} (a b q : Bytes) (h₁ h₂ : Option H) (c : Context H)
    → NoSlash a
    → NoSlash b
    → NoSlash q
    → is_param b ≡ false
    → c.path ≡ one_part q
    → find_route
        (add_router c.method (one_part b) h₂ (add_router c.method (one_part (b':' ∷ a)) h₁ []))
        c
      ≡ routed (record c { handlers = c.handlers ++ h₂ ∷ [] })
unfolding find_route taken
literal_replaces_param a b q h₁ h₂ c ha hb hq plain path =
    rw (shared_root a b q h₁ h₂ ha hb c.method, search_root)
      (rw (path, parse_pattern-one_part q hq)
        (rw (search-shared a b q h₁ h₂ ha hb, bind_route)
          (rw (parse_pattern-one_part b hb)
            (rw (bind_plain b (parse_pattern (one_part q)) c.params plain, take_route) refl))))

-- ===== src/Cweb/Serve.antt =====
-- Serving a request: the middleware, the route and the reply.
use restful_cweb.Prelude.{
  ℕ, ◌≤◌, min, ◌≡◌, ◌⊎◌, List, [], ◌∷◌, ◌++◌, Bytes, codes, Option, none, some, length,
}
use restful_cweb.Cweb.{Script, Event, finished, start, Group, App, Reply, not_found, fault, handled}
use restful_cweb.Cweb.Chain.{AllCallable, begun, range_from}

-- The path begins with the prefix.
abbrev pub Begins : Bytes → Bytes → Type 0
Begins prefix path = (rest : Bytes) × (path ≡ prefix ++ rest)

-- The middleware of the groups whose prefix begins the path, in the order of the groups.
abbrev pub IsGroupChain : List Group → Bytes → List (Option Script) → Type 0
IsGroupChain [] path hs = hs ≡ []
IsGroupChain (g ∷ gs) path hs =
    (Begins g.prefix path
      × ((rest : List (Option Script)) × (hs ≡ g.middlewares ++ rest) × IsGroupChain gs path rest))
    ⊎ ((¬ Begins g.prefix path) × IsGroupChain gs path hs)

abbrev pub Callable : Option Script → Type 0
Callable none = ⊥
Callable (some h) = Unit {0}

-- No group was given an empty middleware.
abbrev pub AllGroupsCallable : List Group → Type 0
AllGroupsCallable [] = Unit {0}
AllGroupsCallable (g ∷ gs) = AllCallable g.middlewares × AllGroupsCallable gs

-- The 404 text, and no handler runs; or the chain of the global middleware, the middleware of the
-- groups that begin the path, and one handler of a route runs to its end.
abbrev pub Answered : App → Bytes → Reply → Type 0
Answered app path (not_found text) = text ≡ codes "NOT FOUND!"
Answered app path fault = ⊥
Answered app path (handled r) =
    (ms : List (Option Script)) × IsGroupChain app.groups path ms
    × ((h : Option Script) × (r ≡ start (app.global_handlers ++ (ms ++ h ∷ [])))
        × ((t : List Event) × (j : ℕ) × (r ≡ finished t j)
            × (begun t ≡ range_from 0 (min j (length (app.global_handlers ++ (ms ++ h ∷ [])))))
            × (1 ≤ j)))

-- ===== src/Tests/Serving.antt =====
-- Tests of the model of src/cweb/cweb.cc and of `Context::Next`.
use restful_cweb.Prelude.{ℕ, ◌≤◌, min, ◌≡◌, List, [], ◌∷◌, codes, Option, some}
use restful_cweb.Routing.Router.{Registration, register_all}
use restful_cweb.Cweb.{Script, done, act, next, Event, finished, start, App}
use restful_cweb.Cweb.Chain.{begun, range_from, start-finished}

abbrev registrations : List (Registration Script)
registrations =
    record { verb = codes "GET"; route = codes "/api/user/:id"; action = some (act 1 done) }
    ∷ record { verb = codes "POST"; route = codes "/login"; action = some (next (act 2 done)) }
    ∷ []

-- Middleware that passes on, works, and passes on again; a group whose middleware stops.
abbrev app : App
app = record {
  routes = register_all registrations [];
  global_handlers = some (next (act 7 (next done))) ∷ [];
  groups = record { prefix = codes "/api"; middlewares = some (act 8 done) ∷ [] } ∷ [];
}

abbrev chain : List (Option Script)
chain = some (next (act 7 (next done))) ∷ some (act 8 done) ∷ some (next done) ∷ []

start-finished_example :
    (t : List Event) × (j : ℕ) × (start chain ≡ finished t j)
    × (begun t ≡ range_from 0 (min j 3))
    × (1 ≤ j)
start-finished_example = start-finished chain tt

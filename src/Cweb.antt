-- ===== src/Cweb.antt =====
-- The framework layer: `Context::Next` and `AddHandler` of src/cweb/context.h, `Cweb` and `Group`
-- of src/cweb/cweb.h and src/cweb/cweb.cc, and `Router::Handle` of src/cweb/router.cc.
-- A handler is what the application brings: a script of effects and calls of `Next`, or an
-- empty function.
pub mod Chain
pub mod Serve
use restful_cweb.Prelude.{
  ℕ, zero, suc, ◌+◌, Bool, true, false, ◌&&◌, List, [], ◌∷◌, ◌++◌, Bytes, map, codes, Option, none,
  some, ◌==◌, if◌then◌else◌, get_elem?, length, starts_with,
}
use restful_cweb.Routing.Router.{
  Routes, Context, Outcome, missed, out_of_range, routed, add_router, find_route,
}

pub data Script : Type 0 where
  done : Script
  act : ℕ → Script → Script
  next : Script → Script

-- What the run of a request shows: the handler at an index begins, or a handler has an effect.
pub data Event : Type 0 where
  begins : ℕ → Event
  acts : ℕ → Event

-- A run ends with its events and the value of `index_ + 1`; or a handler that is called is an
-- empty function; or the fuel does not last.
pub data Run : Type 0 where
  finished : List Event → ℕ → Run
  bad_call : Run
  out_of_fuel : Run

abbrev pub after : List Event → Run → Run
after t (finished u j) = finished (t ++ u) j
after t bad_call = bad_call
after t out_of_fuel = out_of_fuel

abbrev pub continue : Run → (ℕ → Run) → Run
continue (finished t i) k = after t (k i)
continue bad_call k = bad_call
continue out_of_fuel k = out_of_fuel

-- A handler's body, with the number of calls of `Next` so far. Each call of `Next` steps the index
-- and calls the handler there, if there is one; the fuel bounds how deep these calls nest.
unfoldable pub run : ℕ → List (Option Script) → ℕ → Script → Run
run f hs i done = finished [] i
run f hs i (act e s) = after (acts e ∷ []) (run f hs i s)
run zero hs i (next s) = elim (get_elem? hs i) [
  | none ↦ run zero hs (i + 1) s
  | some h ↦ out_of_fuel
]
run (suc f) hs i (next s) = elim (get_elem? hs i) [
  | none ↦ run (suc f) hs (i + 1) s
  | some h ↦ elim h [
    | none ↦ bad_call
    | some body ↦ after (begins i ∷ []) (continue (run f hs (i + 1) body) (λ j. run (suc f) hs j s))
  ]
]

-- `Context::Next` on a context with `index_ = -1`.
abbrev pub start : List (Option Script) → Run
start hs = run (length hs) hs 0 (next done)

pub record Group : Type 0 where
  pub prefix : Bytes
  pub middlewares : List (Option Script)

pub record App : Type 0 where
  pub routes : Routes Script
  pub global_handlers : List (Option Script)
  pub groups : List Group

-- The two loops of `serverHTTP`.
unfoldable pub group_handlers : List Group → Bytes → List (Option Script)
unfolding starts_with
group_handlers [] path = []
group_handlers (g ∷ gs) path =
    if starts_with g.prefix path
    then g.middlewares ++ group_handlers gs path
    else group_handlers gs path

unfoldable pub middleware : App → Bytes → List (Option Script)
unfolding group_handlers
middleware app path = app.global_handlers ++ group_handlers app.groups path

-- What the client gets: the text of `Router::Handle` with status 404, or what the handlers do.
pub data Reply : Type 0 where
  not_found : Bytes → Reply
  fault : Reply
  handled : Run → Reply

abbrev pub handle : Outcome Script → Reply
handle missed = not_found (codes "NOT FOUND!")
handle out_of_range = fault
handle (routed c) = handled (start c.handlers)

unfoldable pub server_http : App → Bytes → Bytes → Reply
unfolding middleware
server_http app method path = handle (
    find_route app.routes
      (record { method = method; path = path; params = []; handlers = middleware app path }))

-- `Use`, `GET` and its like, and `Group`.
pub use_middleware : Option Script → App → App
use_middleware h app = record app { global_handlers = app.global_handlers ++ h ∷ [] }

pub add_route : Bytes → Bytes → Option Script → App → App
add_route verb path h app = record app { routes = add_router verb path h app.routes }

pub add_group : Bytes → App → App
add_group prefix app = record app {
  groups = app.groups ++ record { prefix = prefix; middlewares = [] } ∷ [];
}

-- `GET` and its like of a group put its prefix in front of the path.
pub add_group_route : Group → Bytes → Bytes → Option Script → App → App
unfolding add_route
add_group_route g verb path h app = add_route verb (g.prefix ++ path) h app

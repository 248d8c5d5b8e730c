-- ===== src/Tests/Routing.antt =====
-- Tests of the models of src/cweb/router.h and src/cweb/router.cc.
use restful_cweb.Prelude.{
  ℕ, ◌≡◌, refl, ◌≢◌, false, List, [], ◌∷◌, Bytes, codes, some, none, lookup, assign, bytes_eq,
}
use restful_cweb.Routing.Split.{split, split_loop, parse_pattern}
use restful_cweb.Routing.Trie.{
  Node, node, nil, pattern, handler, search, insert, empty_trie, first_found, find_children,
  insert_parts,
}
use restful_cweb.Routing.Trie.Search.{Reaches, search_sound, search_complete}
use restful_cweb.Routing.Trie.Insert.{search-insert}
use restful_cweb.Routing.Router.{
  Context, Routes, routed, add_router, find_route, Registration, register_all, bind_params,
}
use restful_cweb.Routing.Router.Bounds.{IsServed, find_route-IsServed}
use restful_cweb.Routing.Router.Params.{Hit, find_route-Hit}

abbrev get : Bytes
get = codes "GET"

-- Routes with a literal next to a parameter.
abbrev registrations : List (Registration ℕ)
registrations =
    record { verb = get; route = codes "/user/all"; action = some 1 }
    ∷ record { verb = get; route = codes "/user/:id/posts"; action = some 2 }
    ∷ record { verb = codes "POST"; route = codes "/user/:id"; action = some 3 }
    ∷ []

abbrev routes : Routes ℕ
routes = register_all registrations []

abbrev request : Bytes → Context ℕ
request path = record { method = get; path = path; params = []; handlers = [] }

-- The context after a hit on "/user/all/posts".
abbrev posts_context : Context ℕ
posts_context = record {
  method = get;
  path = codes "/user/all/posts";
  params = (codes "id", codes "all") ∷ [];
  handlers = some 2 ∷ [];
}

posts_hit : find_route routes (request (codes "/user/all/posts")) ≡ routed posts_context
unfolding find_route register_all add_router lookup search first_found find_children insert
    insert_parts empty_trie parse_pattern split split_loop bind_params assign bytes_eq
posts_hit = refl

find_route-Hit_example :
    (root n : Node ℕ) × (lookup get routes ≡ some root)
    × (search (parse_pattern (codes "/user/all/posts")) root ≡ some n)
    × Hit (request (codes "/user/all/posts")) posts_context n
find_route-Hit_example =
    find_route-Hit routes (request (codes "/user/all/posts")) posts_context posts_hit

find_route-IsServed_example :
    IsServed
      (λ h. h ≢ none)
      (request (codes "/user/all/posts"))
      (find_route routes (request (codes "/user/all/posts")))
find_route-IsServed_example =
    find_route-IsServed (λ h. h ≢ none) registrations (request (codes "/user/all/posts"))
      ((λ e. cc), ((λ e. cc), ((λ e. cc), tt)))

abbrev root : Node ℕ
root = insert (codes "/a/:x/c") (some 2) (insert (codes "/a/b") (some 1) empty_trie)

abbrev found : Node ℕ
found = node (codes "/a/:x/c") (codes "c") nil false (some 2)

abbrev parts : List Bytes
parts = codes "a" ∷ codes "b" ∷ codes "c" ∷ []

found_there : search parts root ≡ some found
unfolding search first_found find_children insert insert_parts empty_trie parse_pattern split
    split_loop bytes_eq
found_there = refl

search_sound_example : Reaches found root parts × (pattern found ≢ [])
search_sound_example = search_sound parts root found_there

reached : Reaches found root parts
reached = (search_sound parts root found_there).0

search_complete_example : (r : Node ℕ) × (search parts root ≡ some r)
search_complete_example = search_complete reached (λ e. cc)

search-insert_example :
    (m : Node ℕ) × (search (parse_pattern (codes "/a/b")) (insert (codes "/a/b") (some 5) root)
      ≡ some m)
    × (pattern m ≡ codes "/a/b")
    × (handler m ≡ some 5)
search-insert_example = search-insert (codes "/a/b") (some 5) root (λ e. cc)

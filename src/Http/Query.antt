-- ===== src/Http/Query.antt =====
-- Parameters in a request: `HttpParser::handleURL` of src/httpserver/httpparser.cc and
-- `HttpRequestFormBody::SetData` of src/httpserver/httprequest.cc. Their loops differ in the call
-- that puts a parameter into the map, which is the argument `store` here.
pub mod RoundTrip
use restful_cweb.Prelude.{
  ℕ, List, [], ◌∷◌, ◌++◌, Bytes, ◌==◌, if◌then◌else◌, Option, none, some, Dict, lookup, assign,
  emplace,
}

-- `std::find`: the bytes before the first `b` and those behind it, or `none` where the result is
-- the end.
unfoldable pub cut : ℕ → Bytes → Option (Bytes × Bytes)
cut b [] = none
cut b (c ∷ s) =
    let rest = cut b s in
    if c == b then some ([], s) else elim rest [ none ↦ none | some (u, v) ↦ some (c ∷ u, v) ]

-- The loop ends with the parameters; or at a last one without `=`, with those before it; or it
-- builds a text from a range whose end stands before its start.
pub data Pairs : Type 0 where
  parsed : Dict Bytes → Pairs
  failed : Dict Bytes → Pairs
  fault : Pairs

abbrev pub Store : Type 0
Store = Bytes → Bytes → Dict Bytes → Dict Bytes

-- The turn of the loop at the end of the text, and the one before an `&`, with the turns after it.
abbrev pub last_pair : Store → Option (Bytes × Bytes) → Dict Bytes → Pairs
last_pair store none d = failed d
last_pair store (some (key, value)) d = parsed (store key value d)

abbrev pub next_pair : Store → Option (Bytes × Bytes) → Dict Bytes → (Dict Bytes → Pairs) → Pairs
next_pair store none d k = fault
next_pair store (some (key, value)) d k = k (store key value d)

-- The loop, with the bytes from `start` that stand before the text.
unfoldable pub pairs_loop : Store → Bytes → Bytes → Dict Bytes → Pairs
pairs_loop store cur [] d = last_pair store (cut b'=' cur) d
pairs_loop store cur (c ∷ s) d =
    let same = pairs_loop store (cur ++ c ∷ []) s d in
    let next = next_pair store (cut b'=' cur) d (pairs_loop store [] s) in
    if c == b'&' then next else same

-- `handleURL` behind the path: nothing follows the first `?`, or the parameters.
abbrev pub after_path : Bytes → Option (Bytes × Bytes) → Bytes × Pairs
after_path url none = (url, parsed [])
after_path url (some (path, [])) = (path, parsed [])
after_path url (some (path, c ∷ s)) = (path, pairs_loop assign [] (c ∷ s) [])

-- `handleURL`: the path, and what becomes of the parameters.
unfoldable pub handle_url : Bytes → Bytes × Pairs
handle_url url = after_path url (cut b'?' url)

-- `SetData` on the parameters that are there.
unfoldable pub set_data : Bytes → Dict Bytes → Pairs
set_data text d = pairs_loop emplace [] text d

-- `Query` and `FormData`: an empty text where the key is missing.
abbrev pub or_empty : Option Bytes → Bytes
or_empty none = []
or_empty (some v) = v

unfoldable pub form_data : Bytes → Dict Bytes → Bytes
form_data key d = or_empty (lookup key d)

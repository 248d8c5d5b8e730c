-- ===== src/Http/Query/RoundTrip.antt =====
-- Parameters written out and read again.
use restful_cweb.Prelude.{
  ℕ, ◌≡◌, refl, ◌≢◌, ap, ◌∙◌, false, List, [], ◌∷◌, ◌++◌, Bytes, Option, none, some, arith, ◌==◌,
  if◌then◌else◌, append_assoc, append-nil, Dict, lookup, assign, emplace, bytes_eq, kept,
  lookup-assign, lookup-emplace,
}
use restful_cweb.Http.Query.{
  cut, parsed, fault, Store, last_pair, next_pair, pairs_loop, after_path, handle_url, set_data,
}

abbrev pub Lacks : ℕ → Bytes → Type 0
Lacks b [] = Unit {0}
Lacks b (c ∷ s) = (c ≢ b) × Lacks b s

pub cut-Lacks : (b : ℕ) (s : Bytes) → Lacks b s → cut b s ≡ none
unfolding cut
cut-Lacks b [] h = refl
cut-Lacks b (c ∷ s) h = let rest = cut-Lacks b s h.1 in ground (arith, rest, h)

pub cut-first : (b : ℕ) (s t : Bytes) → Lacks b s → cut b (s ++ b ∷ t) ≡ some (s, t)
unfolding cut
cut-first b [] t h = ground arith
cut-first b (c ∷ s) t h = let rest = cut-first b s t h.1 in ground (arith, rest, h)

-- A parameter as it stands in the text, and several with `&` between them.
abbrev pub pair_text : Bytes × Bytes → Bytes
pair_text (key, value) = key ++ b'=' ∷ value

abbrev pub pairs_text : List (Bytes × Bytes) → Bytes
pairs_text [] = []
pairs_text (p ∷ []) = pair_text p
pairs_text (p ∷ q ∷ ps) = pair_text p ++ b'&' ∷ pairs_text (q ∷ ps)

-- Neither `=` nor `&` in a key, and no `&` in a value.
abbrev pub ArePlain : List (Bytes × Bytes) → Type 0
ArePlain [] = Unit {0}
ArePlain (p ∷ ps) = Lacks b'=' p.0 × Lacks b'&' (pair_text p) × ArePlain ps

-- The parameters in the map, the first one first.
abbrev pub store_all : Store → List (Bytes × Bytes) → Dict Bytes → Dict Bytes
store_all store [] d = d
store_all store (p ∷ ps) d = store_all store ps (store p.0 p.1 d)

-- The loop up to the end of the text, or up to the next `&`.
pub pairs_loop-last :
    (store : Store) (cur s : Bytes) (d : Dict Bytes)
    → Lacks b'&' s
    → pairs_loop store cur s d ≡ last_pair store (cut b'=' (cur ++ s)) d
unfolding pairs_loop
pairs_loop-last store cur [] d h = rw (append-nil cur)
pairs_loop-last store cur (c ∷ s) d h =
    let no : (c == b'&') ≡ false = ground (arith, h) in
    rw no (
      pairs_loop-last store (cur ++ c ∷ []) s d h.1
      ∙ ap (λ t. last_pair store (cut b'=' t) d) (append_assoc cur (c ∷ []) s))

pub pairs_loop-next :
    (store : Store) (cur s t : Bytes) (d : Dict Bytes)
    → Lacks b'&' s
    → pairs_loop store cur (s ++ b'&' ∷ t) d
      ≡ next_pair store (cut b'=' (cur ++ s)) d (pairs_loop store [] t)
unfolding pairs_loop
pairs_loop-next store cur [] t d h = rw (append-nil cur)
pairs_loop-next store cur (c ∷ s) t d h =
    let no : (c == b'&') ≡ false = ground (arith, h) in
    rw no (
      pairs_loop-next store (cur ++ c ∷ []) s t d h.1
      ∙ ap (λ u. next_pair store (cut b'=' u) d (pairs_loop store [] t))
          (append_assoc cur (c ∷ []) s))

-- Reading what was written gives every parameter to the map, in order.
pub pairs_loop-text :
    (store : Store) (ps : List (Bytes × Bytes)) (d : Dict Bytes)
    → ps ≢ []
    → ArePlain ps
    → pairs_loop store [] (pairs_text ps) d ≡ parsed (store_all store ps d)
pairs_loop-text store [] d ne h = absurd (ne refl)
pairs_loop-text store ((key, value) ∷ []) d ne h =
    pairs_loop-last store [] (key ++ b'=' ∷ value) d h.1
    ∙ ap (λ o. last_pair store o d) (cut-first b'=' key value h.0)
pairs_loop-text store ((key, value) ∷ q ∷ ps) d ne h =
    pairs_loop-next store [] (key ++ b'=' ∷ value) (pairs_text (q ∷ ps)) d h.1
    ∙ ap (λ o. next_pair store o d (pairs_loop store [] (pairs_text (q ∷ ps))))
        (cut-first b'=' key value h.0)
    ∙ pairs_loop-text store (q ∷ ps) (store key value d) (λ e. cc) h.2

-- The last value that a list of parameters gives a key, and the first one.
abbrev pub last_value : Bytes → List (Bytes × Bytes) → Option Bytes → Option Bytes
last_value k [] o = o
last_value k (p ∷ ps) o = last_value k ps (if bytes_eq p.0 k then some p.1 else o)

abbrev pub first_value : Bytes → List (Bytes × Bytes) → Option Bytes → Option Bytes
first_value k [] o = o
first_value k (p ∷ ps) o = first_value k ps (if bytes_eq p.0 k then kept o p.1 else o)

lookup-store_assign :
    (k : Bytes) (ps : List (Bytes × Bytes)) (d : Dict Bytes)
    → lookup k (store_all assign ps d) ≡ last_value k ps (lookup k d)
lookup-store_assign k [] d = refl
lookup-store_assign k (p ∷ ps) d =
    lookup-store_assign k ps (assign p.0 p.1 d) ∙ ap (last_value k ps) (lookup-assign p.0 k p.1 d)

lookup-store_emplace :
    (k : Bytes) (ps : List (Bytes × Bytes)) (d : Dict Bytes)
    → lookup k (store_all emplace ps d) ≡ first_value k ps (lookup k d)
lookup-store_emplace k [] d = refl
lookup-store_emplace k (p ∷ ps) d =
    lookup-store_emplace k ps (emplace p.0 p.1 d)
    ∙ ap (first_value k ps) (lookup-emplace p.0 k p.1 d)

key-text : (key rest : Bytes) (b : ℕ) → key ++ b ∷ rest ≢ []
key-text [] rest b e = cc
key-text (c ∷ key) rest b e = cc

pairs_text-cons : (p : Bytes × Bytes) (ps : List (Bytes × Bytes)) → pairs_text (p ∷ ps) ≢ []
pairs_text-cons (key, value) [] = key-text key value b'='
pairs_text-cons (key, value) (q ∷ ps) = key-text (key ++ b'=' ∷ value) (pairs_text (q ∷ ps)) b'&'

handle_url-cut :
    (path s : Bytes)
    → Lacks b'?' path
    → s ≢ []
    → handle_url (path ++ b'?' ∷ s) ≡ (path, pairs_loop assign [] s [])
unfolding handle_url
handle_url-cut path [] h ne = absurd (ne refl)
handle_url-cut path (c ∷ s) h ne =
    ap (after_path (path ++ b'?' ∷ c ∷ s)) (cut-first b'?' path (c ∷ s) h)

-- A URL that is put together from a path without `?` and parameters, at least one, without `=` and
-- `&` in the keys and `&` in the values: `handleURL` gets the path back, and a map in which every
-- key has the last value that it was given.
pub handle_url-text :
    (path : Bytes) (ps : List (Bytes × Bytes))
    → Lacks b'?' path
    → ps ≢ []
    → ArePlain ps
    → (d : Dict Bytes) × (handle_url (path ++ b'?' ∷ pairs_text ps) ≡ (path, parsed d))
      × ((k : Bytes) → lookup k d ≡ last_value k ps none)
unfolding lookup
handle_url-text path [] h ne plain = absurd (ne refl)
handle_url-text path (p ∷ ps) h ne plain = (
  store_all assign (p ∷ ps) [],
  handle_url-cut path (pairs_text (p ∷ ps)) h (pairs_text-cons p ps)
      ∙ ap (λ o. (path, o)) (pairs_loop-text assign (p ∷ ps) [] ne plain),
  λ k. lookup-store_assign k (p ∷ ps) [],
)

-- A form with parameters as above: `SetData` returns true, keeps what was there, and gives a new key
-- the first value that the form gives it.
pub set_data-text :
    (ps : List (Bytes × Bytes)) (d : Dict Bytes)
    → ps ≢ []
    → ArePlain ps
    → (e : Dict Bytes) × (set_data (pairs_text ps) d ≡ parsed e)
      × ((k : Bytes) → lookup k e ≡ first_value k ps (lookup k d))
unfolding set_data
set_data-text ps d ne plain = (
  store_all emplace ps d,
  pairs_loop-text emplace ps d ne plain,
  λ k. lookup-store_emplace k ps d,
)

-- Parameters, each with the `&` behind it, in front of some text.
abbrev pub pairs_before : List (Bytes × Bytes) → Bytes → Bytes
pairs_before [] s = s
pairs_before (p ∷ ps) s = pair_text p ++ b'&' ∷ pairs_before ps s

pairs_before-some : (ps : List (Bytes × Bytes)) (s : Bytes) → s ≢ [] → pairs_before ps s ≢ []
pairs_before-some [] s ne = ne
pairs_before-some ((key, value) ∷ ps) s ne = key-text (key ++ b'=' ∷ value) (pairs_before ps s) b'&'

pairs_loop-fault :
    (ps : List (Bytes × Bytes)) (bare rest : Bytes) (d : Dict Bytes)
    → ArePlain ps
    → Lacks b'=' bare
    → Lacks b'&' bare
    → pairs_loop assign [] (pairs_before ps (bare ++ b'&' ∷ rest)) d ≡ fault
pairs_loop-fault [] bare rest d plain no_equal no_and =
    pairs_loop-next assign [] bare rest d no_and
    ∙ ap (λ o. next_pair assign o d (pairs_loop assign [] rest)) (cut-Lacks b'=' bare no_equal)
pairs_loop-fault ((key, value) ∷ ps) bare rest d plain no_equal no_and =
    let tail = pairs_before ps (bare ++ b'&' ∷ rest) in
    pairs_loop-next assign [] (key ++ b'=' ∷ value) tail d plain.1
    ∙ ap (λ o. next_pair assign o d (pairs_loop assign [] tail)) (cut-first b'=' key value plain.0)
    ∙ pairs_loop-fault ps bare rest (assign key value d) plain.2 no_equal no_and

-- A URL with a parameter without `=` that an `&` follows, behind any number of parameters without
-- `=` and `&` in the keys and `&` in the values, and behind a path without `?`: the code builds a
-- text of length -1. It makes no difference what follows the `&`.
pub handle_url-fault :
    (path bare rest : Bytes) (ps : List (Bytes × Bytes))
    → Lacks b'?' path
    → ArePlain ps
    → Lacks b'=' bare
    → Lacks b'&' bare
    → handle_url (path ++ b'?' ∷ pairs_before ps (bare ++ b'&' ∷ rest)) ≡ (path, fault)
handle_url-fault path bare rest ps h plain no_equal no_and =
    let some_text = pairs_before-some ps (bare ++ b'&' ∷ rest) (key-text bare rest b'&') in
    handle_url-cut path (pairs_before ps (bare ++ b'&' ∷ rest)) h some_text
    ∙ ap (λ o. (path, o)) (pairs_loop-fault ps bare rest [] plain no_equal no_and)

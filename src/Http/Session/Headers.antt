-- ===== src/Http/Session/Headers.antt =====
-- What the headers and the pieces of a body of a request become.
use restful_cweb.Prelude.{
  ◌≡◌, refl, sym, ap, ◌∙◌, Bool, true, false, List, [], ◌∷◌, ◌++◌, append_assoc, append-nil, Bytes,
  if◌then◌else◌, Option, none, some, Dict, lookup, assign, lookup-assign, bytes_eq,
}
use restful_cweb.Tcp.ByteBuffer.{ByteBuffer, contents, append, new_buffer}
use restful_cweb.Tcp.ByteBuffer.Queue.{Inv, append_lem, new_buffer-Inv, contents-new_buffer}

abbrev pub Headers : Type 0
Headers = List (Bytes × Bytes)

-- The value of a header is the last one that the request has under its name.
abbrev pub later : Option Bytes → Option Bytes → Option Bytes
later none o = o
later (some v) o = some v

unfoldable pub last_value : Bytes → Headers → Option Bytes
last_value k [] = none
last_value k ((j, v) ∷ hs) = later (last_value k hs) (if bytes_eq j k then some v else none)

abbrev pub joined : List Bytes → Bytes
joined [] = []
joined (b ∷ bs) = b ++ joined bs

unfoldable pub assign_all : Headers → Dict Bytes → Dict Bytes
assign_all [] d = d
assign_all ((k, v) ∷ hs) d = assign_all hs (assign k v d)

unfoldable pub append_all : List Bytes → ByteBuffer → ByteBuffer
append_all [] b = b
append_all (c ∷ cs) b = append_all cs (append b c)

later-later : (a b c : Option Bytes) → later (later a b) c ≡ later a (later b c)
later-later none b c = refl
later-later (some v) b c = refl

later-none : (a : Option Bytes) → later a none ≡ a
later-none none = refl
later-none (some v) = refl

later-if :
    (b : Bool) (v : Bytes) (o : Option Bytes)
    → (if b then some v else o) ≡ later (if b then some v else none) o
later-if true v o = refl
later-if false v o = refl

lookup-assign_all :
    (k : Bytes) (hs : Headers) (d : Dict Bytes)
    → lookup k (assign_all hs d) ≡ later (last_value k hs) (lookup k d)
unfolding assign_all last_value
lookup-assign_all k [] d = refl
lookup-assign_all k ((j, v) ∷ hs) d =
    lookup-assign_all k hs (assign j v d)
    ∙ ap (later (last_value k hs)) (lookup-assign j k v d ∙ later-if (bytes_eq j k) v (lookup k d))
    ∙ sym (later-later (last_value k hs) (if bytes_eq j k then some v else none) (lookup k d))

contents-append_all :
    (cs : List Bytes) (b : ByteBuffer)
    → Inv b
    → contents (append_all cs b) ≡ contents b ++ joined cs
unfolding append_all
contents-append_all [] b v = simp append-nil
contents-append_all (c ∷ cs) b v =
    let (w, e) = append_lem b c v in
    contents-append_all cs (append b c) w
    ∙ ap (λ t. t ++ joined cs) e
    ∙ append_assoc (contents b) c (joined cs)

pub header_lem : (k : Bytes) (hs : Headers) → lookup k (assign_all hs []) ≡ last_value k hs
unfolding lookup
header_lem k hs = lookup-assign_all k hs [] ∙ later-none (last_value k hs)

pub raw_body_lem : (bs : List Bytes) → contents (append_all bs (new_buffer 1024)) ≡ joined bs
raw_body_lem bs =
    contents-append_all bs (new_buffer 1024) (new_buffer-Inv 1024)
    ∙ ap (λ t. t ++ joined bs) (contents-new_buffer 1024)

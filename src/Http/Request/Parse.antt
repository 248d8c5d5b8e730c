-- ===== src/Http/Request/Parse.antt =====
-- `ParseBody` leaves the headers and the bytes of a request as they are.
use mathlib.Core.Path.{subst}
use restful_cweb.Prelude.{◌≡◌, refl, Bool, List, Bytes, codes, Option, none, some, lookup}
use restful_cweb.Tcp.ByteBuffer.{contents}
use restful_cweb.Http.Request.{
  HttpRequest, PartEvent, Accepted, good, bad, crash, parse_body, Body, Kind, with_body, typed_body,
  kind_body, body_set_data, body_factory,
}

module _ {J : Type 0} where
  module _ (parse_json : Bytes → Option J) (execute : Bytes → Bytes → List PartEvent × Bool)
      (temp : Bytes) where
    abbrev Keeps : HttpRequest J → Accepted (HttpRequest J) → Type 0
    Keeps q (good r) = (r.headers ≡ q.headers) × (r.raw_body ≡ q.raw_body)
    Keeps q (bad r) = (r.headers ≡ q.headers) × (r.raw_body ≡ q.raw_body)
    Keeps q crash = q ≡ q

    with_body-Keeps :
        (q : HttpRequest J) (kind : Bytes) (o : Accepted (Body J))
        → Keeps q (with_body parse_json execute temp (record q { content_type = kind }) o)
    with_body-Keeps q kind (good b) = (refl, refl)
    with_body-Keeps q kind (bad b) = (refl, refl)
    with_body-Keeps q kind crash = refl

    typed_body-Keeps :
        (q : HttpRequest J) (kind : Bytes) (o : Option Kind)
        → Keeps q (typed_body parse_json execute temp (record q { content_type = kind }) o)
    typed_body-Keeps q kind none = (refl, refl)
    typed_body-Keeps q kind (some k) =
        with_body-Keeps q kind (body_set_data parse_json execute temp k (contents q.raw_body))

    kind_body-Keeps :
        (q : HttpRequest J) (kind : Option Bytes)
        → Keeps q (kind_body parse_json execute temp q kind)
    kind_body-Keeps q none = (refl, refl)
    kind_body-Keeps q (some kind) = typed_body-Keeps q kind (body_factory kind)

    parse_body-Keeps : (q : HttpRequest J) → Keeps q (parse_body parse_json execute temp q)
    unfolding parse_body
    parse_body-Keeps q = kind_body-Keeps q (lookup (codes "Content-Type") q.headers)

    pub parse_body-good :
        (q r : HttpRequest J)
        → parse_body parse_json execute temp q ≡ good r
        → (r.headers ≡ q.headers) × (r.raw_body ≡ q.raw_body)
    parse_body-good q r e = subst (λ o. Keeps q o) e (parse_body-Keeps q)

-- ===== src/Http/Request.antt =====
-- Requests and their bodies: src/httpserver/httprequest.h and src/httpserver/httprequest.cc. The
-- parsers of JSON and of multipart bodies are libraries: the first is an argument that gives the
-- value or fails, the second one that gives the callbacks it makes, in order, and whether it comes
-- to the end.
pub mod Parse
pub mod Parts
use restful_cweb.Prelude.{
  ℕ, Bool, true, false, List, [], ◌∷◌, ◌++◌, Bytes, codes, ◌==◌, if◌then◌else◌, Option, none, some,
  Dict, lookup, assign, length, drop, bytes_eq, starts_with,
}
use restful_cweb.Tcp.ByteBuffer.{ByteBuffer, new_buffer, contents}
use restful_cweb.Http.Query.{Pairs, parsed, failed, fault, set_data, or_empty, form_data}

-- `find`, and what stands behind the text found.
unfoldable pub find_behind : Bytes → Bytes → Option Bytes
find_behind pat [] = if starts_with pat [] then some [] else none
find_behind pat (c ∷ s) =
    let rest = find_behind pat s in
    if starts_with pat (c ∷ s) then some (drop (length pat) (c ∷ s)) else rest

-- Up to the next quotation mark, or to the end.
unfoldable pub up_to_quote : Bytes → Bytes
up_to_quote [] = []
up_to_quote (c ∷ s) = let rest = up_to_quote s in if c == 34 then [] else c ∷ rest

-- `MultipartPart`, as it is received.
pub record FormPart : Type 0 where
  pub headers : Dict Bytes
  pub dispositions : Dict Bytes
  pub binary : Bytes

abbrev pub new_part : FormPart
new_part = record { headers = []; dispositions = []; binary = [] }

-- `header_field_temp` and `multiparts_`.
pub record PartsState : Type 0 where
  pub header_field : Bytes
  pub multiparts : List FormPart

-- A change of `multiparts_.back()`; `none` is the access to an empty vector.
unfoldable pub on_last : (FormPart → FormPart) → List FormPart → Option (List FormPart)
on_last f [] = none
on_last f (p ∷ []) = some (f p ∷ [])
on_last f (p ∷ q ∷ ps) = elim (on_last f (q ∷ ps)) [ none ↦ none | some rs ↦ some (p ∷ rs) ]

abbrev pub set_found : Bytes → Option Bytes → Dict Bytes → Dict Bytes
set_found key none d = d
set_found key (some rest) d = assign key (up_to_quote rest) d

-- The part of `handleHeaderValue` for `Content-Disposition`.
unfoldable pub read_disposition : Bytes → FormPart → FormPart
read_disposition value p = record p {
  dispositions =
      set_found (codes "filename") (find_behind (codes "filename=\"") value)
        (set_found (codes "name") (find_behind (codes "name=\"") value) p.dispositions);
}

abbrev pub keep_header : Bytes → Bytes → FormPart → FormPart
keep_header field value p = record p { headers = assign field value p.headers }

abbrev pub header_value : Bytes → Bytes → FormPart → FormPart
header_value field value p =
    keep_header field value
      (if bytes_eq field (codes "Content-Disposition") then read_disposition value p else p)

-- The callbacks of the multipart parser.
pub data PartEvent : Type 0 where
  part_begin part_end : PartEvent
  field value bytes : Bytes → PartEvent

abbrev pub with_parts : Bytes → Option (List FormPart) → Option PartsState
with_parts h none = none
with_parts h (some ps) = some (record { header_field = h; multiparts = ps })

unfoldable pub part_event : PartEvent → PartsState → Option PartsState
part_event part_begin s = some (record s { multiparts = s.multiparts ++ new_part ∷ [] })
part_event part_end s = some s
part_event (field f) s = some (record s { header_field = s.header_field ++ f })
part_event (value v) s = with_parts [] (on_last (header_value s.header_field v) s.multiparts)
part_event (bytes b) s =
    with_parts s.header_field (on_last (λ p. record p { binary = b }) s.multiparts)

abbrev pub next_event : (PartsState → Option PartsState) → Option PartsState → Option PartsState
next_event k none = none
next_event k (some s) = k s

unfoldable pub part_events : List PartEvent → PartsState → Option PartsState
part_events [] s = some s
part_events (e ∷ es) s = next_event (part_events es) (part_event e s)

-- `MultipartForm`. The empty part is the one that it returns where there is none.
unfoldable pub multipart_form : Bytes → List FormPart → FormPart
multipart_form key [] = new_part
multipart_form key (p ∷ ps) =
    let rest = multipart_form key ps in
    if bytes_eq (or_empty (lookup (codes "name") p.dispositions)) key then p else rest

-- What is made of a body, and the constructors that `HttpRequestBodyFactory` chooses from.
pub data Kind : Type 0 where
  json_kind form_kind : Kind
  multipart_kind : Bytes → Kind

pub data Body (J : Type 0) : Type 0 where
  json : Option J → Body J
  form : Dict Bytes → Body J
  multipart : List FormPart → Body J

unfoldable pub body_factory : Bytes → Option Kind
body_factory kind =
    if bytes_eq kind (codes "application/json")
    then some json_kind
    else if bytes_eq kind (codes "application/x-www-form-urlencoded")
    then some form_kind
    else if starts_with (codes "multipart/form-data") kind
    then some (multipart_kind (or_empty (find_behind (codes "boundary=") kind)))
    else none

-- `HttpRequest`.
pub record HttpRequest (J : Type 0) : Type 0 where
  pub method : Bytes
  pub headers : Dict Bytes
  pub url : Bytes
  pub path : Bytes
  pub content_type : Bytes
  pub querys : Dict Bytes
  pub raw_body : ByteBuffer
  pub body : Option (Body J)

abbrev pub is_empty : Bytes → Bool
is_empty [] = true
is_empty (c ∷ s) = false

-- What `SetData` of a body returns, with the body; `crash` is the end of the program.
pub data Accepted (A : Type 0) : Type 0 where
  good bad : A → Accepted A
  crash : Accepted A

module _ {J : Type 0} where
  unfoldable pub new_request : HttpRequest J
  new_request = record {
    method = [];
    headers = [];
    url = [];
    path = [];
    content_type = [];
    querys = [];
    raw_body = new_buffer 1024;
    body = none;
  }

  abbrev pub json_body : Option J → Accepted (Body J)
  json_body none = bad (json none)
  json_body (some j) = good (json (some j))

  abbrev pub form_body : Pairs → Accepted (Body J)
  form_body (parsed d) = good (form d)
  form_body (failed d) = bad (form d)
  form_body fault = crash

  abbrev pub parts_body : Option PartsState → Bool → Accepted (Body J)
  parts_body none done = crash
  parts_body (some s) true = good (multipart s.multiparts)
  parts_body (some s) false = bad (multipart s.multiparts)

  -- `temp` is what `header_field_temp` holds when the body comes: a variable of the program, that all
  -- bodies share and that only the value of a header clears.
  module _ (parse_json : Bytes → Option J) (execute : Bytes → Bytes → List PartEvent × Bool)
      (temp : Bytes) where
    unfoldable pub body_set_data : Kind → Bytes → Accepted (Body J)
    body_set_data json_kind text = json_body (parse_json text)
    body_set_data form_kind text = form_body (set_data text [])
    body_set_data (multipart_kind boundary) text =
        if is_empty boundary
        then bad (multipart [])
        else parts_body
            (part_events (execute boundary text).0
              (record { header_field = temp; multiparts = [] }))
            (execute boundary text).1

    abbrev pub with_body : HttpRequest J → Accepted (Body J) → Accepted (HttpRequest J)
    with_body r (good b) = good (record r { body = some b })
    with_body r (bad b) = bad (record r { body = some b })
    with_body r crash = crash

    abbrev pub typed_body : HttpRequest J → Option Kind → Accepted (HttpRequest J)
    typed_body r none = good (record r { body = none })
    typed_body r (some k) = with_body r (body_set_data k (contents r.raw_body))

    abbrev pub kind_body : HttpRequest J → Option Bytes → Accepted (HttpRequest J)
    kind_body r none = good r
    kind_body r (some kind) = typed_body (record r { content_type = kind }) (body_factory kind)

    -- `ParseBody`.
    unfoldable pub parse_body : HttpRequest J → Accepted (HttpRequest J)
    parse_body r = kind_body r (lookup (codes "Content-Type") r.headers)

  -- `Query`, `PostForm` and `MultipartForm`.
  abbrev pub query : Bytes → HttpRequest J → Bytes
  query key r = or_empty (lookup key r.querys)

  abbrev pub body_form : Bytes → Option (Body J) → Bytes
  body_form key (some (form d)) = form_data key d
  body_form key _ = []

  unfoldable pub post_form : Bytes → HttpRequest J → Bytes
  post_form key r =
      if bytes_eq r.content_type (codes "application/x-www-form-urlencoded")
      then body_form key r.body
      else []

  abbrev pub body_part : Bytes → Option (Body J) → FormPart
  body_part key (some (multipart ps)) = multipart_form key ps
  body_part key _ = new_part

  unfoldable pub request_part : Bytes → HttpRequest J → FormPart
  request_part key r =
      if starts_with (codes "multipart/form-data") r.content_type
      then body_part key r.body
      else new_part

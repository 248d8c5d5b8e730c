-- ===== src/Http/Session.antt =====
-- A session: the callbacks of `HttpParser` (src/httpserver/httpparser.cc), and `handleMessage` and
-- `handleParsedMessage` of src/httpserver/httpsession.cc. The parser of HTTP is a library: it is an
-- argument that gives, for the bytes of a read, the callbacks it makes, in order, and how many of
-- the bytes it takes.
pub mod Headers
pub mod Requests
use restful_cweb.Prelude.{
  ℕ, Bool, true, false, not, ◌&&◌, List, [], ◌∷◌, ◌++◌, Bytes, codes, ◌==◌, if◌then◌else◌, Option,
  none, some, Dict, lookup, assign, length, bytes_eq,
}
use restful_cweb.Tcp.ByteBuffer.{ByteBuffer, contents, append, read_all}
use restful_cweb.Http.Query.{Pairs, parsed, failed, fault, handle_url}
use restful_cweb.Http.Request.{
  HttpRequest, new_request, PartEvent, Accepted, good, bad, crash, parse_body,
}

pub data ParserProcess : Type 0 where
  process success fail : ParserProcess

-- The callbacks, the first and the last with what the parser knows then: the method's number,
-- and the version and whether the connection is to be upgraded.
pub data ParserEvent : Type 0 where
  message_begin : ParserEvent
  url : ℕ → Bytes → ParserEvent
  header_field header_value body : Bytes → ParserEvent
  message_complete : (major minor : ℕ) → (upgrade : Bool) → ParserEvent

-- `request` is a pointer that handing the request over leaves empty; `closed` says that the
-- session has forced the connection to close, and `requests` are those that went to the callback.
-- `header_key` is a variable of the program that all sessions share: a read finds it the way the
-- last one of any session left it.
pub record Session (J : Type 0) : Type 0 where
  pub parser_process : ParserProcess
  pub header_key : Bytes
  pub request : Option (HttpRequest J)
  pub need_close : Bool
  pub upgrade : Bool
  pub closed : Bool
  pub requests : List (HttpRequest J)

-- `Methods`; the map has no entry for the other methods and makes an empty one.
abbrev pub method_name : ℕ → Bytes
method_name m =
    if m == 0
    then codes "DELETE"
    else if m == 1
    then codes "GET"
    else if m == 2
    then codes "HEAD"
    else if m == 3
    then codes "POST"
    else if m == 4
    then codes "PUT"
    else []

-- Whether `need_close_` becomes false.
abbrev pub has_value : Bytes → Option Bytes → Bool
has_value v none = false
has_value v (some w) = bytes_eq w v

abbrev pub is_none : Option Bytes → Bool
is_none none = true
is_none (some w) = false

unfoldable pub keeps : ℕ → ℕ → Option Bytes → Bool
keeps major minor header =
    if (major == 1) && (minor == 0)
    then has_value (codes "Keep-Alive") header
    else if (major == 1) && (minor == 1)
    then (if is_none header then true else has_value (codes "close") header)
    else false

module _ {J : Type 0} where
  abbrev pub new_session : Session J
  unfolding new_request
  new_session = record {
    parser_process = process;
    header_key = [];
    request = some new_request;
    need_close = true;
    upgrade = false;
    closed = false;
    requests = [];
  }

  -- A change of the request; `none` is the access through an empty pointer.
  abbrev pub on_request : (HttpRequest J → HttpRequest J) → Session J → Option (Session J)
  on_request f s = elim s.request [
    | none ↦ none
    | some r ↦ some (record s { request = some (f r) })
  ]

  abbrev pub with_querys : Session J → HttpRequest J → Pairs → Option (Session J)
  with_querys s r (parsed d) = some (record s { request = some (record r { querys = d }) })
  with_querys s r (failed d) =
      some (record s { request = some (record r { querys = d }); parser_process = fail })
  with_querys s r fault = none

  abbrev pub take_url : ℕ → Bytes → Session J → Option (HttpRequest J) → Option (Session J)
  take_url m at s none = none
  take_url m at s (some r) =
      with_querys s (record r { method = method_name m; url = at; path = (handle_url at).0 })
        (handle_url at).1

  abbrev pub hand_over : Session J → Accepted (HttpRequest J) → Option (Session J)
  hand_over s crash = none
  hand_over s (bad r) = some s
  hand_over s (good r) = some (record s {
    requests = s.requests ++ r ∷ [];
    closed = if s.need_close then true else s.closed;
  })

  -- `temp` is what `header_field_temp` holds when the body of a request is parsed: bodies of all
  -- sessions share that variable, on any thread.
  module _ (parse_json : Bytes → Option J) (execute : Bytes → Bytes → List PartEvent × Bool)
      (temp : HttpRequest J → Bytes) where
    -- `handleParsedMessage`. An upgrade hands the connection to a `WebSocket`.
    unfoldable pub handle_parsed_message :
        ℕ → ℕ → Bool → HttpRequest J → Session J → Option (Session J)
    handle_parsed_message major minor up r s =
        if up
        then some (record s { upgrade = true })
        else hand_over
            (record s {
              need_close =
                  s.need_close && not (keeps major minor (lookup (codes "connection") r.headers));
            })
            (parse_body parse_json execute (temp r) r)

    abbrev pub complete : ℕ → ℕ → Bool → Session J → Option (HttpRequest J) → Option (Session J)
    complete major minor up s none = none
    complete major minor up s (some r) =
        handle_parsed_message major minor up r
          (record s { parser_process = success; request = none })

    unfoldable pub parser_event : ParserEvent → Session J → Option (Session J)
    parser_event message_begin s =
        some (record s { parser_process = process; request = some new_request })
    parser_event (url m at) s = take_url m at s s.request
    parser_event (header_field key) s = some (record s { header_key = key })
    parser_event (header_value v) s =
        on_request (λ r. record r { headers = assign s.header_key v r.headers })
          (record s { header_key = [] })
    parser_event (body chunk) s =
        on_request (λ r. record r { raw_body = append r.raw_body chunk }) s
    parser_event (message_complete major minor up) s = complete major minor up s s.request

    abbrev pub after_event :
        (Session J → Option (Session J)) → Option (Session J) → Option (Session J)
    after_event k none = none
    after_event k (some s) = k s

    unfoldable pub parser_events : List ParserEvent → Session J → Option (Session J)
    parser_events [] s = some s
    parser_events (e ∷ es) s = after_event (parser_events es) (parser_event e s)

    -- `Parse`.
    abbrev pub check_count : ℕ → ℕ → Session J → Session J
    check_count n len s = if n == len then s else record s { parser_process = fail }

    abbrev pub close_bad : Session J → Session J
    close_bad s = elim s.parser_process [ fail ↦ record s { closed = true } | _ ↦ s ]

    -- `handleMessage` of a session that is not upgraded; `parse` is `http_parser_execute`.
    unfoldable pub handle_message :
        (Bytes → List ParserEvent × ℕ)
        → Bytes
        → Session J
        → ByteBuffer
        → Option (Session J × ByteBuffer)
    handle_message parse key s buf =
        let text = contents buf in
        elim (parser_events (parse text).0 (record s { header_key = key })) [
          | none ↦ none
          | some t ↦ some (close_bad (check_count (parse text).1 (length text) t), read_all buf)
        ]

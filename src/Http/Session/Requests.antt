-- ===== src/Http/Session/Requests.antt =====
-- What a session makes of the callbacks of one whole request.
use restful_cweb.Prelude.{
  ℕ, Bool, true, not, ◌&&◌, List, [], ◌∷◌, ◌++◌, Bytes, codes, if◌then◌else◌, Option, none, some,
  Dict, lookup, length,
}
use restful_cweb.Tcp.ByteBuffer.{ByteBuffer, contents, new_buffer, read_all}
use restful_cweb.Http.Query.{handle_url}
use restful_cweb.Http.Request.{HttpRequest, new_request, PartEvent}
use restful_cweb.Http.Session.Headers.{Headers, assign_all, append_all}
use restful_cweb.Http.Session.{
  success, ParserEvent, message_begin, url, header_field, header_value, body, message_complete,
  Session, method_name, keeps, parser_events, check_count, close_bad,
}

-- The callbacks for headers, for pieces of a body, and for a request.
abbrev pub header_events : Headers → List ParserEvent → List ParserEvent
header_events [] rest = rest
header_events ((k, v) ∷ hs) rest = header_field k ∷ header_value v ∷ header_events hs rest

abbrev pub body_events : List Bytes → List ParserEvent → List ParserEvent
body_events [] rest = rest
body_events (b ∷ bs) rest = body b ∷ body_events bs rest

abbrev pub request_events :
    ℕ → Bytes → Headers → List Bytes → (major minor : ℕ) → Bool → List ParserEvent
request_events m at hs bs major minor up =
    message_begin
    ∷ url m at
    ∷ header_events hs (body_events bs (message_complete major minor up ∷ []))

key_after : Headers → Bytes → Bytes
key_after [] key = key
key_after (h ∷ hs) key = key_after hs []

module _ {J : Type 0} where
  -- The request that the callbacks fill in.
  unfoldable pub received : ℕ → Bytes → Dict Bytes → Headers → List Bytes → HttpRequest J
  unfolding new_request assign_all append_all
  received m at d hs bs = record new_request {
    method = method_name m;
    url = at;
    path = (handle_url at).0;
    querys = d;
    headers = assign_all hs [];
    raw_body = append_all bs (new_buffer 1024);
  }

  module _ (parse_json : Bytes → Option J) (execute : Bytes → Bytes → List PartEvent × Bool)
      (temp : HttpRequest J → Bytes) where
    -- The session after a request that the callback got.
    abbrev pub after_request :
        (major minor : ℕ) → HttpRequest J → Dict Bytes → Session J → Session J
    after_request major minor r headers s = record s {
      parser_process = success;
      request = none;
      need_close = s.need_close && not (keeps major minor (lookup (codes "connection") headers));
      closed =
          if s.need_close && not (keeps major minor (lookup (codes "connection") headers))
          then true
          else s.closed;
      requests = s.requests ++ r ∷ [];
    }

    finished : ByteBuffer → ℕ → Option (Session J) → Option (Session J × ByteBuffer)
    finished buf n none = none
    finished buf n (some t) = some (
      close_bad parse_json execute temp
          (check_count parse_json execute temp n (length (contents buf)) t),
      read_all buf,
    )

    finish : ByteBuffer → Session J → List ParserEvent × ℕ → Option (Session J × ByteBuffer)
    unfolding finished
    finish buf s p = finished buf p.1 (parser_events parse_json execute temp p.0 s)

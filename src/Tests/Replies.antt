-- ===== src/Tests/Replies.antt =====
-- Tests of the model of src/httpserver/httpsession.cc and src/httpserver/httprequest.cc.
use restful_cweb.Prelude.{
  ℕ, ◌≡◌, Bool, true, false, List, [], ◌∷◌, Bytes, codes, Option, none, some, length, arith,
}
use restful_cweb.Tcp.ByteBuffer.{ByteBuffer, new_buffer, append}
use restful_cweb.Tcp.ByteData.{ByteData}
use restful_cweb.Tcp.ByteData.Packets.{Inv, unsent}
use restful_cweb.Http.Reply.{status_ok, digits, total_size, header_lines}
use restful_cweb.Http.Reply.Head.{read_reply}
use restful_cweb.Http.Reply.Whole.{Response, multipart, message, message-read_reply}
use restful_cweb.Http.Request.{HttpRequest, PartEvent, new_request}
use restful_cweb.Http.Request.Parts.{Named, parts_events}
use restful_cweb.Http.Session.{ParserEvent, Session}
use restful_cweb.Http.Session.Headers.{Headers}
use restful_cweb.Http.Session.Requests.{request_events, received}

-- Two parts, the second one from a file.
abbrev two_parts : Response
two_parts = multipart status_ok (codes "----x") (
    record { headers = (codes "K", codes "v") ∷ []; part_data = codes "one"; is_file = false }
    ∷ record { headers = []; part_data = codes "two"; is_file = true }
    ∷ [])

message-read_reply_example :
    (d : ByteData) × (message two_parts ≡ some d)
    × Inv d
    × (read_reply (unsent d)
        ≡ some (
          codes "HTTP/1.1 200 OK",
          47,
          codes "------x\r\nK: v\r\n\r\none\r\n------x\r\n\r\ntwo\r\n------x--",
        ))
unfolding digits total_size header_lines
message-read_reply_example =
    message-read_reply two_parts (ground arith, ((λ e. cc), ((λ e f. cc), tt))) (omega arith)

-- Values of JSON that are not read.
abbrev no_json : Bytes → Option ℕ
no_json text = none

abbrev fields : Named
fields = (codes "a", codes "1") ∷ (codes "b", codes "2") ∷ (codes "a", codes "3") ∷ []

abbrev multipart_parser : Bytes → Bytes → List PartEvent × Bool
multipart_parser boundary text = (parts_events fields, true)

abbrev upload : HttpRequest ℕ
upload = record new_request {
  headers = (codes "Content-Type", codes "multipart/form-data; boundary=xx") ∷ [];
}

abbrev headers : Headers
headers =
    (codes "Host", codes "a") ∷ (codes "connection", codes "keep") ∷ (codes "Host", codes "b") ∷ []

abbrev parser : Bytes → List ParserEvent × ℕ
parser text = (
  request_events 3 (codes "/a?x=1") headers (codes "he" ∷ codes "llo" ∷ []) 1 1 false,
  length text,
)

abbrev input : ByteBuffer
input = append (new_buffer 1024) (codes "POST ...")

abbrev asked : HttpRequest ℕ
unfolding received
asked =
    received 3 (codes "/a?x=1") ((codes "x", codes "1") ∷ []) headers
      (codes "he" ∷ codes "llo" ∷ [])

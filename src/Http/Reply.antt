-- ===== src/Http/Reply.antt =====
-- Replies: `HttpResponse` of src/httpserver/httpresponse.cc and the `Send` functions of
-- src/httpserver/httpsession.cc, up to the data that they hand to the connection. The bytes of a
-- file and the random characters of a boundary are arguments.
pub mod Head
pub mod Length
pub mod Whole
use restful_cweb.Prelude.{
  ℕ, zero, suc, ◌+◌, ◌-◌, ◌*◌, ◌/◌, ◌%◌, ◌^◌, Bool, true, false, ◌&&◌, List, [], ◌∷◌, ◌++◌, Bytes,
  map, codes, ltb, leb, ◌==◌, if◌then◌else◌, Option, none, some, Dict, lookup, length, bytes_eq,
}
use restful_cweb.Tcp.ByteData.{ByteData, new_data, add_data_zero_copy, add_file}

pub data HttpStatusCode : Type 0 where
  status_ok status_moved_permanently status_bad_request status_not_found : HttpStatusCode

abbrev pub status_number : HttpStatusCode → ℕ
status_number status_ok = 200
status_number status_moved_permanently = 301
status_number status_bad_request = 400
status_number status_not_found = 404

-- `http_status_code`.
abbrev pub status_text : HttpStatusCode → Bytes
status_text status_ok = codes "OK"
status_text status_moved_permanently = codes "Moved Permanently"
status_text status_bad_request = codes "Bad Request"
status_text status_not_found = codes "Not Found"

-- `std::to_string` of a number of at most so many digits.
unfoldable pub digits : ℕ → ℕ → Bytes
digits zero n = []
digits (suc k) n =
    let front = digits k (n / 10) in
    if ltb n 10 then (b'0' + n) ∷ [] else front ++ (b'0' + n % 10) ∷ []

-- A `size_t` has at most twenty digits.
abbrev pub to_string : ℕ → Bytes
to_string n = digits 20 n

abbrev pub crlf : Bytes
crlf = 13 ∷ 10 ∷ []

unfoldable pub set_status_code : HttpStatusCode → Bytes → Bytes
set_status_code code stream =
    stream
    ++ (codes "HTTP/1.1 "
        ++ (to_string (status_number code) ++ (codes " " ++ (status_text code ++ crlf))))

unfoldable pub set_header : Bytes → Bytes → Bytes → Bytes
set_header key value stream = stream ++ (key ++ (codes ": " ++ (value ++ crlf)))

-- A header and the bytes behind it.
abbrev pub with_data : Bytes → Bytes → ByteData
with_data header bytes = add_data_zero_copy bytes (add_data_zero_copy header new_data)

abbrev pub text_header : HttpStatusCode → Bytes → ℕ → Bytes
text_header code kind size =
    set_header (codes "Content-Length") (to_string size)
      (set_header (codes "Content-Type") kind (set_status_code code []))
    ++ crlf

-- `SendString` and `SendJson`.
unfoldable pub send_string : HttpStatusCode → Bytes → ByteData
send_string code bytes =
    with_data (text_header code (codes "text/plain; charset=utf-8") (length bytes)) bytes

unfoldable pub send_json : HttpStatusCode → Bytes → ByteData
send_json code bytes =
    with_data (text_header code (codes "application/json; charset=utf-8") (length bytes)) bytes

-- The text behind the last `b`, if there is one.
abbrev pub or_else : Option Bytes → Bytes → Bytes
or_else none s = s
or_else (some t) s = t

abbrev pub first_some : Option Bytes → Option Bytes → Option Bytes
first_some none o = o
first_some (some s) o = some s

unfoldable pub behind_last : ℕ → Bytes → Option Bytes
behind_last b [] = none
behind_last b (c ∷ s) = first_some (behind_last b s) (if c == b then some s else none)

abbrev pub to_lower : ℕ → ℕ
to_lower c = if leb b'A' c && leb c b'Z' then c + 32 else c

-- `filetypes`.
abbrev pub filetypes : Dict Bytes
filetypes =
    (codes "jpeg", codes "image/jpeg")
    ∷ (codes "jpg", codes "image/jpeg")
    ∷ (codes "png", codes "image.png")
    ∷ (codes "gif", codes "image/gif")
    ∷ (codes "mp3", codes "audio/mpeg")
    ∷ (codes "mp4", codes "video/mp4")
    ∷ (codes "txt", codes "text/plain")
    ∷ (codes "html", codes "text/html")
    ∷ (codes "pdf", codes "application/pdf")
    ∷ (codes "doc", codes "application/msword")
    ∷ (codes "docx", codes "application/msword")
    ∷ (codes "zip", codes "application/zip")
    ∷ (codes "gzip", codes "application/gzip")
    ∷ []

-- Where the path has no dot, `find_last_of` returns the largest number, and the type is the path.
abbrev pub filetype : Bytes → Bytes
filetype path =
    or_else (lookup (map to_lower (or_else (behind_last b'.' path) path)) filetypes)
      (codes "application/octet-stream")

-- A name that is not given is that of the file; a path without a slash leaves it empty.
abbrev pub file_name : Bytes → Bytes → Bytes
file_name path [] = or_else (behind_last b'/' path) []
file_name path (c ∷ name) = c ∷ name

abbrev pub file_header : HttpStatusCode → Bytes → Bytes → ℕ → Bytes
file_header code path name size =
    set_header (codes "Content-Length") (to_string size) (
      set_header (codes "Content-Disposition")
        (codes "attachment; filename=" ++ file_name path name)
        (set_header (codes "Content-Type") (filetype path) (set_status_code code [])))
    ++ crlf

-- `mmap` of a file with these bytes; it refuses to map nothing.
abbrev pub map_file : Bytes → Option Bytes
map_file [] = none
map_file (c ∷ s) = some (c ∷ s)

-- `SendFile`; `none` is the failed assertion of `AddFile`.
unfoldable pub send_file : HttpStatusCode → Bytes → Bytes → Bytes → Option ByteData
send_file code path name bytes =
    add_file (map_file bytes)
      (add_data_zero_copy (file_header code path name (length bytes)) new_data)

-- `MultipartPart` as far as a reply reads it: its headers, and its bytes in memory or in a file.
pub record Part : Type 0 where
  pub headers : Dict Bytes
  pub part_data : Bytes
  pub is_file : Bool

-- `HeaderStr`.
unfoldable pub header_lines : Dict Bytes → Bytes
header_lines [] = []
header_lines ((key, value) ∷ headers) =
    key ++ (codes ": " ++ (value ++ (crlf ++ header_lines headers)))

abbrev pub header_str : Part → Bytes
header_str p = header_lines p.headers ++ crlf

abbrev pub begin_boundary : Bytes → Bytes
begin_boundary boundary = codes "\r\n--" ++ (boundary ++ crlf)

abbrev pub end_boundary : Bytes → Bytes
end_boundary boundary = codes "\r\n--" ++ (boundary ++ codes "--")

-- The loop over the parts for `totalsize`. The sum is an `int` of less than 2 ^ 31.
unfoldable pub total_size : Bytes → List Part → ℕ
total_size boundary [] = length (end_boundary boundary) - 2
total_size boundary (p ∷ ps) =
    length (begin_boundary boundary)
    + length (header_str p)
    + length p.part_data
    + total_size boundary ps

abbrev pub add_part : Bytes → Part → ByteData → Option ByteData
add_part boundary p d =
    let front =
      add_data_zero_copy (header_str p) (add_data_zero_copy (begin_boundary boundary) d) in
    if p.is_file
    then add_file (map_file p.part_data) front
    else some (add_data_zero_copy p.part_data front)

abbrev pub after_part : (ByteData → Option ByteData) → Option ByteData → Option ByteData
after_part k none = none
after_part k (some d) = k d

unfoldable pub add_parts : Bytes → List Part → ByteData → Option ByteData
add_parts boundary [] d = some (add_data_zero_copy (end_boundary boundary) d)
add_parts boundary (p ∷ ps) d = after_part (add_parts boundary ps) (add_part boundary p d)

-- `generateBoundary`, with the characters drawn.
abbrev pub generate_boundary : Bytes → Bytes
generate_boundary drawn = codes "----" ++ drawn

abbrev pub multipart_header : HttpStatusCode → Bytes → ℕ → Bytes
multipart_header code boundary size = set_header (codes "Content-Length") (to_string size) (
    set_header (codes "Content-Type") (codes "multipart/form-data; boundary=" ++ boundary)
      (set_status_code code []))

unfoldable pub send_multipart : HttpStatusCode → Bytes → List Part → Option ByteData
send_multipart code boundary ps =
    add_parts boundary ps
      (add_data_zero_copy (multipart_header code boundary (total_size boundary ps)) new_data)

-- ===== src/Http/Reply/Whole.antt =====
-- A reply as a whole, by the functions of src/httpserver/httpsession.cc: what goes out, and what a client reads of it.
use restful_cweb.Prelude.{
  ◌^◌, ◌<◌, ◌≡◌, refl, ap, ◌∙◌, ◌≢◌, Bool, true, false, List, [], ◌∷◌, ◌++◌, Bytes, codes, arith,
  if◌then◌else◌, Option, some, length, length-append, append_assoc, append-nil, Bool-cases, inl,
  inr, starts_with, lookup, Dict, bytes_eq,
}
use restful_cweb.Tcp.ByteData.{ByteData, new_data, add_data_zero_copy, add_file}
use restful_cweb.Tcp.ByteData.Packets.{Inv, unsent}
use restful_cweb.Tcp.ByteData.Build.{
  Piece, borrowed, mapped, piece_bytes, build, build_lem, pieces_bytes, add_piece,
}
use restful_cweb.Http.Reply.{
  HttpStatusCode, crlf, send_string, send_json, text_header, or_else, filetype, filetypes,
  file_name, file_header, map_file, send_file, Part, header_str, begin_boundary, end_boundary,
  total_size, after_part, add_parts, multipart_header, send_multipart,
}
use restful_cweb.Http.Reply.Head.{read_reply, IsPlain, IsPlain-append}
use restful_cweb.Http.Reply.Length.{
  status_line, head, AreOther, read_reply-head, header_line, text_header-head, file_header-head,
  multipart_header-head,
}

pub data Response : Type 0 where
  text : HttpStatusCode → Bytes → Response
  json : HttpStatusCode → Bytes → Response
  file : HttpStatusCode → (path name bytes : Bytes) → Response
  multipart : HttpStatusCode → (boundary : Bytes) → List Part → Response

abbrev pub message : Response → Option ByteData
message (text code bytes) = some (send_string code bytes)
message (json code bytes) = some (send_json code bytes)
message (file code path name bytes) = send_file code path name bytes
message (multipart code boundary ps) = send_multipart code boundary ps

-- A multipart body by RFC 2046.
abbrev pub mime : Bytes → List Part → Bytes
mime boundary [] = codes "--" ++ (boundary ++ codes "--")
mime boundary (p ∷ ps) =
    codes "--"
    ++ (boundary ++ (crlf ++ (header_str p ++ (p.part_data ++ (crlf ++ mime boundary ps)))))

abbrev pub status_of : Response → HttpStatusCode
status_of (text code bytes) = code
status_of (json code bytes) = code
status_of (file code path name bytes) = code
status_of (multipart code boundary ps) = code

abbrev pub body_of : Response → Bytes
body_of (text code bytes) = bytes
body_of (json code bytes) = bytes
body_of (file code path name bytes) = bytes
body_of (multipart code boundary ps) = mime boundary ps

-- The header lines between the status and the length.
abbrev pub lines_of : Response → List Bytes
lines_of (text code bytes) =
    header_line (codes "Content-Type") (codes "text/plain; charset=utf-8") ∷ []
lines_of (json code bytes) =
    header_line (codes "Content-Type") (codes "application/json; charset=utf-8") ∷ []
lines_of (file code path name bytes) =
    header_line (codes "Content-Type") (filetype path)
    ∷ header_line (codes "Content-Disposition")
        (codes "attachment; filename=" ++ file_name path name)
    ∷ []
lines_of (multipart code boundary ps) =
    header_line (codes "Content-Type") (codes "multipart/form-data; boundary=" ++ boundary) ∷ []

abbrev pub wire : Response → Bytes
wire r = head (status_of r) (lines_of r) (length (body_of r)) ++ 13 ∷ 10 ∷ body_of r

-- Files are not empty, and neither the name of a file nor a boundary has a carriage return in it.
abbrev pub AreFull : List Part → Type 0
AreFull [] = Unit {0}
AreFull (p ∷ ps) = ((p.is_file ≡ true) → (p.part_data ≢ [])) × AreFull ps

abbrev pub IsProper : Response → Type 0
IsProper (text code bytes) = Unit {0}
IsProper (json code bytes) = Unit {0}
IsProper (file code path name bytes) = IsPlain (file_name path name) × (bytes ≢ [])
IsProper (multipart code boundary ps) = IsPlain boundary × AreFull ps

map_file-some : (s : Bytes) → s ≢ [] → map_file s ≡ some s
map_file-some [] ne = absurd (ne refl)
map_file-some (c ∷ s) ne = refl

-- The parts of a multipart body, as they are added.
abbrev data_piece : Part → Piece
data_piece p = if p.is_file then mapped p.part_data else borrowed p.part_data

abbrev part_pieces : Bytes → List Part → List Piece
part_pieces boundary [] = borrowed (end_boundary boundary) ∷ []
part_pieces boundary (p ∷ ps) =
    borrowed (begin_boundary boundary)
    ∷ borrowed (header_str p)
    ∷ data_piece p
    ∷ part_pieces boundary ps

abbrev front : Bytes → Part → ByteData → ByteData
front boundary p d =
    add_data_zero_copy (header_str p) (add_data_zero_copy (begin_boundary boundary) d)

add_file-piece :
    (b : Bool) (s : Bytes) (e : ByteData)
    → ((b ≡ true) → (s ≢ []))
    → (if b then add_file (map_file s) e else some (add_data_zero_copy s e))
      ≡ some (add_piece (if b then mapped s else borrowed s) e)
unfolding add_file
add_file-piece true s e full = rw (map_file-some s (full refl)) refl
add_file-piece false s e full = refl

add_parts-build :
    (boundary : Bytes) (ps : List Part) (d : ByteData)
    → AreFull ps
    → add_parts boundary ps d ≡ some (build (part_pieces boundary ps) d)
unfolding add_parts
add_parts-build boundary [] d full = refl
add_parts-build boundary (p ∷ ps) d full =
    ap (after_part (add_parts boundary ps))
      (add_file-piece p.is_file p.part_data (front boundary p d) full.0)
    ∙ (add_parts-build boundary ps (add_piece (data_piece p) (front boundary p d)) full.1)

data_piece-bytes : (b : Bool) (s : Bytes) → piece_bytes (if b then mapped s else borrowed s) ≡ s
data_piece-bytes true s = refl
data_piece-bytes false s = refl

pieces_bytes-parts :
    (boundary : Bytes) (ps : List Part)
    → pieces_bytes (part_pieces boundary ps) ≡ 13 ∷ 10 ∷ mime boundary ps
pieces_bytes-parts boundary [] = rw (append-nil (boundary ++ codes "--")) refl
pieces_bytes-parts boundary (p ∷ ps) =
    rw (data_piece-bytes p.is_file p.part_data, pieces_bytes-parts boundary ps) (simp append_assoc)

total_size-mime :
    (boundary : Bytes) (ps : List Part) → total_size boundary ps ≡ length (mime boundary ps)
unfolding total_size
total_size-mime boundary [] = omega arith
total_size-mime boundary (p ∷ ps) =
    let rest = crlf ++ mime boundary ps in
    omega (
      arith,
      total_size-mime boundary ps,
      length-append boundary crlf,
      length-append boundary (crlf ++ (header_str p ++ (p.part_data ++ rest))),
      length-append (header_str p) (p.part_data ++ rest),
      length-append p.part_data rest,
    )

-- The types of the table are plain.
abbrev AllPlain : Dict Bytes → Type 0
AllPlain [] = Unit {0}
AllPlain ((key, value) ∷ d) = IsPlain value × AllPlain d

lookup-IsPlain :
    (k other : Bytes) (d : Dict Bytes)
    → AllPlain d
    → IsPlain other
    → IsPlain (or_else (lookup k d) other)
unfolding lookup
lookup-IsPlain k other [] p q = q
lookup-IsPlain k other ((key, value) ∷ d) p q = elim (Bool-cases (bytes_eq key k)) [
  | inl same ↦ rw same p.0
  | inr not_same ↦ rw not_same (lookup-IsPlain k other d p.1 q)
]

filetype-IsPlain : (path : Bytes) → IsPlain (filetype path)
filetype-IsPlain path =
    lookup-IsPlain _ (codes "application/octet-stream") filetypes (ground arith) (ground arith)

lines_of-AreOther : (r : Response) → IsProper r → AreOther (lines_of r)
unfolding starts_with
lines_of-AreOther (text code bytes) p = (((λ e. cc), ground arith, refl), tt)
lines_of-AreOther (json code bytes) p = (((λ e. cc), ground arith, refl), tt)
lines_of-AreOther (file code path name bytes) p = (
  (
    (λ e. cc),
    IsPlain-append (codes "Content-Type: ") (filetype path) (ground arith) (filetype-IsPlain path),
    refl,
  ),
  (
    (
      (λ e. cc),
      IsPlain-append (codes "Content-Disposition: attachment; filename=") (file_name path name)
          (ground arith) p.0,
      refl,
    ),
    tt,
  ),
)
lines_of-AreOther (multipart code boundary ps) p = (
  (
    (λ e. cc),
    IsPlain-append (codes "Content-Type: multipart/form-data; boundary=") boundary (ground arith)
        p.0,
    refl,
  ),
  tt,
)

lines_of-few : (r : Response) → length (lines_of r) < 6
lines_of-few (text code bytes) = omega arith
lines_of-few (json code bytes) = omega arith
lines_of-few (file code path name bytes) = omega arith
lines_of-few (multipart code boundary ps) = omega arith

-- The calls that build the data.
abbrev pieces_of : Response → List Piece
pieces_of (text code bytes) =
    borrowed (text_header code (codes "text/plain; charset=utf-8") (length bytes))
    ∷ borrowed bytes
    ∷ []
pieces_of (json code bytes) =
    borrowed (text_header code (codes "application/json; charset=utf-8") (length bytes))
    ∷ borrowed bytes
    ∷ []
pieces_of (file code path name bytes) =
    borrowed (file_header code path name (length bytes)) ∷ mapped bytes ∷ []
pieces_of (multipart code boundary ps) =
    borrowed (multipart_header code boundary (total_size boundary ps)) ∷ part_pieces boundary ps

message-build : (r : Response) → IsProper r → message r ≡ some (build (pieces_of r) new_data)
unfolding send_string send_json send_file send_multipart add_file
message-build (text code bytes) p = refl
message-build (json code bytes) p = refl
message-build (file code path name bytes) p = rw (map_file-some bytes p.1) refl
message-build (multipart code boundary ps) p = add_parts-build boundary ps _ p.1

pieces_of-cons : (r : Response) → pieces_of r ≢ []
pieces_of-cons (text code bytes) e = cc
pieces_of-cons (json code bytes) e = cc
pieces_of-cons (file code path name bytes) e = cc
pieces_of-cons (multipart code boundary ps) e = cc

two_pieces : (h l bytes : Bytes) → h ≡ l ++ crlf → h ++ (bytes ++ []) ≡ l ++ 13 ∷ 10 ∷ bytes
two_pieces h l bytes e = rw (e, append-nil bytes) (append_assoc l crlf bytes)

pieces_bytes-wire : (r : Response) → pieces_bytes (pieces_of r) ≡ wire r
pieces_bytes-wire (text code bytes) =
    two_pieces _ (head code (lines_of (text code bytes)) (length bytes)) bytes
      (text_header-head code _ (length bytes))
pieces_bytes-wire (json code bytes) =
    two_pieces _ (head code (lines_of (json code bytes)) (length bytes)) bytes
      (text_header-head code _ (length bytes))
pieces_bytes-wire (file code path name bytes) =
    two_pieces _ (head code (lines_of (file code path name bytes)) (length bytes)) bytes
      (file_header-head code path name (length bytes))
pieces_bytes-wire (multipart code boundary ps) =
    rw
      (
        pieces_bytes-parts boundary ps,
        multipart_header-head code boundary (total_size boundary ps),
        total_size-mime boundary ps,
      )
      refl

-- Whatever a session replies, text, JSON, a file or parts, the data it hands to the connection is
-- sound, and a client that reads lines up to an empty one gets the status line, a length that is
-- that of the body, and behind the empty line the whole body and nothing else. Files are not empty,
-- file names and boundaries have no carriage return, and the reply is shorter than 2 ^ 31.
pub message-read_reply :
    (r : Response)
    → IsProper r
    → length (wire r) < 2 ^ 31
    → (d : ByteData) × (message r ≡ some d)
      × Inv d
      × (read_reply (unsent d) ≡ some (status_line (status_of r), length (body_of r), body_of r))
message-read_reply r p small =
    let d = build (pieces_of r) new_data in
    let bytes = pieces_bytes-wire r in
    let (v, u) = build_lem (pieces_of r) (pieces_of-cons r) (rw bytes small) in
    let body : length (body_of r) < 10 ^ 20 = omega (
      arith,
      small,
      length-append (head (status_of r) (lines_of r) (length (body_of r))) (13 ∷ 10 ∷ body_of r),
    ) in
    (
      d,
      message-build r p,
      v,
      rw (u ∙ bytes) (
          read_reply-head (status_of r) (lines_of r) (length (body_of r)) (body_of r)
            (lines_of-AreOther r p) (lines_of-few r) body),
    )

-- ===== src/Http/Reply/Length.antt =====
-- What a client reads of a reply.
use restful_cweb.Prelude.{
  ℕ, ◌^◌, ◌<◌, ◌≡◌, refl, ap, ◌∙◌, ◌≢◌, false, List, [], ◌∷◌, ◌++◌, Bytes, codes, arith, some,
  length, length-append, append_assoc, starts_with,
}
use restful_cweb.Http.Reply.{
  HttpStatusCode, status_ok, status_moved_permanently, status_bad_request, status_not_found,
  status_number, status_text, to_string, digits, crlf, set_status_code, set_header, text_header,
  filetype, file_name, file_header, multipart_header,
}
use restful_cweb.Http.Reply.Head.{
  read_reply, with_length, lines_text, AreLines, IsPlain, IsPlain-append, read_lines-text,
  content_length, number_from-digits, digits-IsPlain,
}

abbrev pub status_line : HttpStatusCode → Bytes
status_line code =
    codes "HTTP/1.1 " ++ (to_string (status_number code) ++ (codes " " ++ status_text code))

abbrev pub length_line : ℕ → Bytes
length_line n = codes "Content-Length: " ++ to_string n

-- A head with these lines between the status and the length.
abbrev pub head : HttpStatusCode → List Bytes → ℕ → Bytes
head code between n = lines_text (status_line code ∷ (between ++ length_line n ∷ []))

-- No line between them is another length.
abbrev pub IsOther : Bytes → Type 0
IsOther l = (l ≢ []) × IsPlain l × (starts_with (codes "Content-Length: ") l ≡ false)

status_line-IsPlain : (code : HttpStatusCode) → IsPlain (status_line code)
unfolding digits
status_line-IsPlain status_ok = ground arith
status_line-IsPlain status_moved_permanently = ground arith
status_line-IsPlain status_bad_request = ground arith
status_line-IsPlain status_not_found = ground arith

length_line-IsPlain : (n : ℕ) → IsPlain (length_line n)
length_line-IsPlain n =
    IsPlain-append (codes "Content-Length: ") (to_string n) (ground arith) (digits-IsPlain 20 n)

abbrev pub AreOther : List Bytes → Type 0
AreOther [] = Unit {0}
AreOther (l ∷ ls) = IsOther l × AreOther ls

AreLines-between : (ls : List Bytes) (n : ℕ) → AreOther ls → AreLines (ls ++ length_line n ∷ [])
AreLines-between [] n o = ((λ e. cc), length_line-IsPlain n, tt)
AreLines-between (l ∷ ls) n o = (o.0.0, o.0.1, AreLines-between ls n o.1)

content_length-between :
    (ls : List Bytes) (n : ℕ)
    → AreOther ls
    → n < 10 ^ 20
    → content_length (ls ++ length_line n ∷ []) ≡ some n
unfolding content_length starts_with
content_length-between [] n o h = ap some (number_from-digits 20 n h)
content_length-between (l ∷ ls) n o h = rw o.0.2 (content_length-between ls n o.1 h)

pub read_reply-head :
    (code : HttpStatusCode) (ls : List Bytes) (n : ℕ) (body : Bytes)
    → AreOther ls
    → length ls < 6
    → n < 10 ^ 20
    → read_reply (head code ls n ++ 13 ∷ 10 ∷ body) ≡ some (status_line code, n, body)
unfolding read_reply
read_reply-head code ls n body o few h =
    ap with_length (
      read_lines-text 8 (status_line code ∷ (ls ++ length_line n ∷ [])) body
        (omega (arith, few, length-append ls (length_line n ∷ [])))
        ((λ e. cc), status_line-IsPlain code, AreLines-between ls n o))
    ∙ rw (content_length-between ls n o h, with_length) refl

set_status_code-line : (code : HttpStatusCode) → set_status_code code [] ≡ status_line code ++ crlf
unfolding set_status_code digits
set_status_code-line status_ok = refl
set_status_code-line status_moved_permanently = refl
set_status_code-line status_bad_request = refl
set_status_code-line status_not_found = refl

abbrev pub header_line : Bytes → Bytes → Bytes
header_line key value = key ++ (codes ": " ++ value)

pub text_header-head :
    (code : HttpStatusCode) (kind : Bytes) (n : ℕ)
    → text_header code kind n ≡ head code (header_line (codes "Content-Type") kind ∷ []) n ++ crlf
unfolding set_header
text_header-head code kind n = rw (set_status_code-line code) (simp append_assoc)

pub file_header-head :
    (code : HttpStatusCode) (path name : Bytes) (n : ℕ)
    → file_header code path name n
      ≡ head code
          (header_line (codes "Content-Type") (filetype path)
            ∷ header_line
                (codes "Content-Disposition")
                (codes "attachment; filename=" ++ file_name path name)
            ∷ [])
          n
        ++ crlf
unfolding set_header
file_header-head code path name n = rw (set_status_code-line code) (simp append_assoc)

pub multipart_header-head :
    (code : HttpStatusCode) (boundary : Bytes) (n : ℕ)
    → multipart_header code boundary n
      ≡ head code
          (header_line (codes "Content-Type") (codes "multipart/form-data; boundary=" ++ boundary)
            ∷ [])
          n
unfolding set_header
multipart_header-head code boundary n = rw (set_status_code-line code) (simp append_assoc)

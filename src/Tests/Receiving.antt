-- ===== src/Tests/Receiving.antt =====
-- Tests of the model of src/tcpserver/bytebuffer.cc.
use restful_cweb.Prelude.{◌≡◌, refl, List, [], ◌∷◌, ◌++◌, codes, some}
use restful_cweb.Tcp.ByteBuffer.{ByteBuffer, new_buffer, contents, append, find_crlf}
use restful_cweb.Tcp.ByteBuffer.Queue.{Inv, new_buffer-Inv, append_lem, contents-new_buffer}
use restful_cweb.Tcp.ByteBuffer.Reads.{Call, appends, receives, skips, takes, calls, calls_refine}
use restful_cweb.Tcp.ByteBuffer.Scan.{Line, find_crlf-Line}

abbrev script : List Call
script = appends (codes "hello") ∷ skips 2 ∷ receives (some (codes " you")) ∷ takes 9 ∷ takes 3 ∷ []

calls_refine_example :
    (contents (calls (new_buffer 16) script) ≡ codes " you") × Inv (calls (new_buffer 16) script)
calls_refine_example = calls_refine 16 script

append_lem_example :
    Inv (append (new_buffer 0) (codes "abc"))
    × (contents (append (new_buffer 0) (codes "abc")) ≡ contents (new_buffer 0) ++ codes "abc")
append_lem_example = append_lem (new_buffer 0) (codes "abc") (new_buffer-Inv 0)

abbrev filled : ByteBuffer
filled = append (new_buffer 0) (codes "abc")

filled-Inv : Inv filled
filled-Inv = (append_lem (new_buffer 0) (codes "abc") (new_buffer-Inv 0)).0

contents-filled : contents filled ≡ codes "abc"
contents-filled =
    rw (append_lem (new_buffer 0) (codes "abc") (new_buffer-Inv 0)).1
      (rw (contents-new_buffer 0) refl)

find_crlf-Line_example : Line (contents filled) (find_crlf filled)
find_crlf-Line_example = find_crlf-Line filled

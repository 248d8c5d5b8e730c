-- ===== src/Http/Request/Parts.antt =====
-- The parts of a multipart form: what their headers and bytes become.
use restful_cweb.Prelude.{List, [], ◌∷◌, ◌++◌, Bytes, codes, ◌≢◌, if◌then◌else◌, bytes_eq}
use restful_cweb.Http.Request.{
  FormPart, new_part, header_value, PartEvent, part_begin, part_end, field, value, bytes,
}

-- A text with no quotation mark.
abbrev pub IsQuotable : Bytes → Type 0
IsQuotable [] = Unit {0}
IsQuotable (c ∷ s) = (c ≢ 34) × IsQuotable s

-- Parts of a form, each with its name and its bytes, and the callbacks for them.
abbrev pub Named : Type 0
Named = List (Bytes × Bytes)

abbrev pub AreQuotable : Named → Type 0
AreQuotable [] = Unit {0}
AreQuotable ((name, b) ∷ ps) = IsQuotable name × AreQuotable ps

abbrev pub part_text : Bytes → Bytes
part_text name = codes "form-data; name=\"" ++ (name ++ codes "\"")

abbrev pub parts_events : Named → List PartEvent
parts_events [] = []
parts_events ((name, b) ∷ ps) =
    part_begin
    ∷ field (codes "Content-")
    ∷ field (codes "Disposition")
    ∷ value (part_text name)
    ∷ bytes b
    ∷ part_end
    ∷ parts_events ps

-- The bytes of the first part of a name; empty where there is none.
unfoldable pub bytes_of : Bytes → Named → Bytes
bytes_of key [] = []
bytes_of key ((name, b) ∷ ps) = if bytes_eq name key then b else bytes_of key ps

made : Bytes × Bytes → FormPart
made (name, b) = record (header_value (codes "Content-Disposition") (part_text name) new_part) {
  binary = b;
}

-- ===== src/Tests/Encoding.antt =====
-- Tests of the models of src/util/encode/base64.h and of the parameters in a request.
use restful_cweb.Prelude.{◌≡◌, refl, List, [], ◌∷◌, Bytes, codes, none, Dict, lookup, arith}
use restful_cweb.Util.Base64.{alphabet, digit_at, base64encode}
use restful_cweb.Util.Base64.Decode.{AreBytes, base64decode, base64decode-base64encode}
use restful_cweb.Http.Query.{handle_url, parsed, fault}
use restful_cweb.Http.Query.RoundTrip.{last_value, handle_url-text, handle_url-fault}

base64_text : base64encode alphabet (codes "Many hands") ≡ codes "TWFueSBoYW5kcw=="
unfolding base64encode digit_at
base64_text = refl

bytes : AreBytes (codes "Many")
bytes = (omega arith, (omega arith, (omega arith, (omega arith, tt))))

base64decode-base64encode_example :
    base64decode (base64encode alphabet (codes "Many")) ≡ codes "Many"
base64decode-base64encode_example = base64decode-base64encode (codes "Many") bytes

abbrev pairs : List (Bytes × Bytes)
pairs = (codes "id", codes "1") ∷ (codes "q", codes "a=b") ∷ (codes "id", codes "2") ∷ []

handle_url-text_example :
    (d : Dict Bytes) × (handle_url (codes "/find?id=1&q=a=b&id=2") ≡ (codes "/find", parsed d))
    × ((k : Bytes) → lookup k d ≡ last_value k pairs none)
handle_url-text_example =
    handle_url-text (codes "/find") pairs (ground arith) (λ e. cc) (ground arith)

handle_url-fault_example : handle_url (codes "/find?id=1&debug&q=2") ≡ (codes "/find", fault)
handle_url-fault_example =
    handle_url-fault (codes "/find") (codes "debug") (codes "q=2") ((codes "id", codes "1") ∷ [])
      (ground arith) (ground arith) (ground arith) (ground arith)

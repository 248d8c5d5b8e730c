-- ===== src/Util/Base64.antt =====
-- `base64encode` of src/util/encode/base64.h.
pub mod Decode
use Prim.Native.Nat.{bit_and, bit_or}
use restful_cweb.Prelude.{ℕ, zero, suc, ◌*◌, ◌/◌, List, [], ◌∷◌, Bytes, codes}

abbrev pub alphabet : Bytes
alphabet = codes "ABCDEFGHIJKLMNOPQRSTUVWXYZabcdefghijklmnopqrstuvwxyz0123456789+/"

-- `key[i]`. At its end a text has a NUL.
unfoldable pub digit_at : Bytes → ℕ → ℕ
digit_at [] i = 0
digit_at (c ∷ key) zero = c
digit_at (c ∷ key) (suc i) = digit_at key i

-- The four indices that the code computes of the bytes: of the first one, of the first and the
-- second, of the second and the third, and of the third. A byte that is not there counts as 0.
abbrev pub first_index : ℕ → ℕ
first_index a = bit_and a 0xFC / 4

abbrev pub second_index : ℕ → ℕ → ℕ
second_index a b = bit_or (bit_and a 0x03 * 16) (bit_and b 0xF0 / 16)

abbrev pub third_index : ℕ → ℕ → ℕ
third_index b c = bit_or (bit_and b 0x0F * 4) (bit_and c 0xC0 / 64)

abbrev pub fourth_index : ℕ → ℕ
fourth_index c = bit_and c 0x3F

-- The loop and the two tests behind it: three bytes in each turn, then one or two with padding.
unfoldable pub base64encode : Bytes → Bytes → Bytes
base64encode key [] = []
base64encode key (a ∷ []) =
    digit_at key (first_index a) ∷ digit_at key (bit_and a 0x03 * 16) ∷ b'=' ∷ b'=' ∷ []
base64encode key (a ∷ b ∷ []) =
    digit_at key (first_index a)
    ∷ digit_at key (second_index a b)
    ∷ digit_at key (bit_and b 0x0F * 4)
    ∷ b'='
    ∷ []
base64encode key (a ∷ b ∷ c ∷ s) =
    digit_at key (first_index a)
    ∷ digit_at key (second_index a b)
    ∷ digit_at key (third_index b c)
    ∷ digit_at key (fourth_index c)
    ∷ base64encode key s

-- ===== src/Util/Base64/Decode.antt =====
-- What the encoder writes: its length, and the bytes read back by the rules of RFC 4648.
use Prim.Native.Nat.{bit_and, bit_or}
use restful_cweb.Prelude.{
  ℕ, ◌+◌, ◌-◌, ◌*◌, ◌/◌, ◌%◌, ◌<◌, ◌≡◌, refl, ap, false, not, ◌&&◌, [], ◌∷◌, Bytes, arith, leb,
  ◌==◌, ==_iff, every, every-below, if◌then◌else◌, length,
}
use restful_cweb.Util.Base64.{alphabet, digit_at, second_index, third_index, base64encode}

-- `ret` is resized to this, and the encoder fills it exactly, whatever the alphabet.
pub length-base64encode : (key s : Bytes) → length (base64encode key s) ≡ (length s + 2) / 3 * 4
unfolding base64encode
length-base64encode key [] = refl
length-base64encode key (a ∷ []) = refl
length-base64encode key (a ∷ b ∷ []) = refl
length-base64encode key (a ∷ b ∷ c ∷ s) = omega (arith, length-base64encode key s)

module _ (a : ℕ) (lt : a < 256) where
  high_six : bit_and a 0xFC / 4 ≡ a / 4
  unfolding every
  high_six = (==_iff _ _).0 (every-below 256 a (λ x. bit_and x 0xFC / 4 == x / 4) refl lt)

  low_two : bit_and a 0x03 ≡ a % 4
  unfolding every
  low_two = (==_iff _ _).0 (every-below 256 a (λ x. bit_and x 0x03 == x % 4) refl lt)

  high_four : bit_and a 0xF0 / 16 ≡ a / 16
  unfolding every
  high_four = (==_iff _ _).0 (every-below 256 a (λ x. bit_and x 0xF0 / 16 == x / 16) refl lt)

  low_four : bit_and a 0x0F ≡ a % 16
  unfolding every
  low_four = (==_iff _ _).0 (every-below 256 a (λ x. bit_and x 0x0F == x % 16) refl lt)

  high_two : bit_and a 0xC0 / 64 ≡ a / 64
  unfolding every
  high_two = (==_iff _ _).0 (every-below 256 a (λ x. bit_and x 0xC0 / 64 == x / 64) refl lt)

  low_six : bit_and a 0x3F ≡ a % 64
  unfolding every
  low_six = (==_iff _ _).0 (every-below 256 a (λ x. bit_and x 0x3F == x % 64) refl lt)

or_sixteens : (h l : ℕ) → h < 4 → l < 16 → bit_or (h * 16) l ≡ h * 16 + l
unfolding every
or_sixteens h l p q = (==_iff _ _).0 (
    every-below 16 l (λ y. bit_or (h * 16) y == h * 16 + y)
      (every-below 4 h (λ x. every 16 (λ y. bit_or (x * 16) y == x * 16 + y)) refl p) q)

or_fours : (h l : ℕ) → h < 16 → l < 4 → bit_or (h * 4) l ≡ h * 4 + l
unfolding every
or_fours h l p q = (==_iff _ _).0 (
    every-below 4 l (λ y. bit_or (h * 4) y == h * 4 + y)
      (every-below 16 h (λ x. every 4 (λ y. bit_or (x * 4) y == x * 4 + y)) refl p) q)

-- The value of a digit, by the table of the RFC; 64 of another byte.
pub sextet : ℕ → ℕ
sextet c =
    if leb b'A' c && leb c b'Z'
    then c - b'A'
    else if leb b'a' c && leb c b'z'
    then c - b'a' + 26
    else if leb b'0' c && leb c b'9'
    then c - b'0' + 52
    else if c == b'+'
    then 62
    else if c == b'/'
    then 63
    else 64

-- Four digits are three bytes, and fewer where padding stands.
pub base64decode : Bytes → Bytes
base64decode (w ∷ x ∷ y ∷ z ∷ s) =
    let rest = base64decode s in
    let a = sextet w * 4 + sextet x / 16 in
    let b = sextet x % 16 * 16 + sextet y / 4 in
    let c = sextet y % 4 * 64 + sextet z in
    if y == b'=' then a ∷ [] else if z == b'=' then a ∷ b ∷ [] else a ∷ b ∷ c ∷ rest
base64decode _ = []

module _ (i : ℕ) (lt : i < 64) where
  sextet-digit : sextet (digit_at alphabet i) ≡ i
  unfolding every digit_at sextet
  sextet-digit = (==_iff _ _).0 (every-below 64 i (λ j. sextet (digit_at alphabet j) == j) refl lt)

  digit-no_padding : (digit_at alphabet i == b'=') ≡ false
  unfolding every digit_at
  digit-no_padding =
      let h = every-below 64 i (λ j. not (digit_at alphabet j == b'=')) refl lt in ground (arith, h)

abbrev pub AreBytes : Bytes → Type 0
AreBytes [] = Unit {0}
AreBytes (c ∷ s) = (c < 256) × AreBytes s

second_index_lem : (a b : ℕ) → a < 256 → b < 256 → second_index a b ≡ a % 4 * 16 + b / 16
second_index_lem a b p q =
    rw (low_two a p, high_four b q) (or_sixteens (a % 4) (b / 16) (omega arith) (omega arith))

third_index_lem : (b c : ℕ) → b < 256 → c < 256 → third_index b c ≡ b % 16 * 4 + c / 64
third_index_lem b c p q =
    rw (low_four b p, high_two c q) (or_fours (b % 16) (c / 64) (omega arith) (omega arith))

-- The bytes out of their digits.
first_byte : (a b : ℕ) → b < 256 → a / 4 * 4 + (a % 4 * 16 + b / 16) / 16 ≡ a
first_byte a b q = omega arith

second_byte :
    (a b c : ℕ)
    → b < 256
    → c < 256
    → (a % 4 * 16 + b / 16) % 16 * 16 + (b % 16 * 4 + c / 64) / 4 ≡ b
second_byte a b c q r = omega arith

third_byte : (b c : ℕ) → c < 256 → (b % 16 * 4 + c / 64) % 4 * 64 + c % 64 ≡ c
third_byte b c r = omega arith

cons_eq : {x a : ℕ} {s t : Bytes} → x ≡ a → s ≡ t → x ∷ s ≡ a ∷ t
cons_eq {x} {s = s} e f = rw (← e, ← f) refl

-- Decoding what was encoded with the standard alphabet gives the bytes back.
pub base64decode-base64encode :
    (s : Bytes) → AreBytes s → base64decode (base64encode alphabet s) ≡ s
unfolding base64decode base64encode
base64decode-base64encode [] h = refl
base64decode-base64encode (a ∷ []) h =
    let x = a % 4 * 16 in
    rw
      (
        high_six a h.0,
        low_two a h.0,
        sextet-digit (a / 4) (omega (arith, h.0)),
        sextet-digit x (omega arith),
      )
      (ap (λ v. v ∷ []) (omega arith))
base64decode-base64encode (a ∷ b ∷ []) h =
    let (p, (q, t)) = h in
    let y = b % 16 * 4 in
    rw
      (
        high_six a p,
        second_index_lem a b p q,
        low_four b q,
        digit-no_padding y (omega arith),
        sextet-digit (a / 4) (omega arith),
        sextet-digit (a % 4 * 16 + b / 16) (omega arith),
        sextet-digit y (omega arith),
      )
      (let last : (a % 4 * 16 + b / 16) % 16 * 16 + b % 16 * 4 / 4 ≡ b = omega (arith, q) in
        cons_eq (first_byte a b q) (ap (λ v. v ∷ []) last))
base64decode-base64encode (a ∷ b ∷ c ∷ s) h =
    let (p, (q, (r, t))) = h in
    let x = a % 4 * 16 + b / 16 in
    let y = b % 16 * 4 + c / 64 in
    rw
      (
        high_six a p,
        second_index_lem a b p q,
        third_index_lem b c q r,
        low_six c r,
        digit-no_padding y (omega arith),
        digit-no_padding (c % 64) (omega arith),
        sextet-digit (a / 4) (omega arith),
        sextet-digit x (omega arith),
        sextet-digit y (omega arith),
        sextet-digit (c % 64) (omega arith),
        base64decode-base64encode s t,
      )
      (cons_eq (first_byte a b q)
        (cons_eq (second_byte a b c q r) (ap (λ v. v ∷ s) (third_byte b c r))))

-- ===== src/Http/WebSocket/Header.antt =====
-- The header of a frame that the server sends, read back by the rules of RFC 6455.
use restful_cweb.Prelude.{
  ℕ, zero, suc, ◌+◌, ◌*◌, ◌/◌, ◌%◌, ◌^◌, ◌<◌, ◌≡◌, refl, sym, inl, inr, [], ◌∷◌, ◌++◌, Bytes,
  Option, none, some, arith, false, ltb, ◌==◌, if◌then◌else◌, take, drop, Bool-cases, length,
  take-length, drop-length, length-append,
}
use restful_cweb.Http.WebSocket.{from_network, to_network, build_header}

-- How many numbers `k` bytes can hold.
abbrev pub room : ℕ → ℕ
room zero = 1
room (suc k) = 256 * room k

from_network-last :
    (m b : ℕ) (bs : Bytes) → from_network m (bs ++ b ∷ []) ≡ from_network m bs * 256 + b
unfolding from_network
from_network-last m b [] = refl
from_network-last m b (c ∷ bs) = from_network-last (m * 256 + c) b bs

pub length-to_network : (k n : ℕ) → length (to_network k n) ≡ k
unfolding to_network
length-to_network zero n = refl
length-to_network (suc k) n =
    omega
      (arith, length-append (to_network k (n / 256)) (n % 256 ∷ []), length-to_network k (n / 256))

-- A number that fits is read as it was written.
pub from_network-to_network : (k n : ℕ) → n < room k → from_network 0 (to_network k n) ≡ n
unfolding from_network to_network
from_network-to_network zero n lt = omega arith
from_network-to_network (suc k) n lt = omega (
  arith,
  from_network-last 0 (n % 256) (to_network k (n / 256)),
  from_network-to_network k (n / 256) (omega arith),
)

-- A length that stands in `k` bytes, which the rules forbid for one that has a shorter form.
abbrev pub long_length : ℕ → ℕ → ℕ → Bytes → Option (ℕ × ℕ × Bytes)
long_length op k least s =
    let n = from_network 0 (take k s) in if ltb n least then none else some (op, n, drop k s)

abbrev pub read_length : ℕ → ℕ → Bytes → Option (ℕ × ℕ × Bytes)
read_length op b s =
    if ltb b 126
    then some (op, b, s)
    else if b == 126
    then long_length op 2 126 s
    else if b == 127
    then long_length op 8 0x10000 s
    else none

-- The opcode, the length and what follows, of a frame without a mask whose first byte has the FIN
-- bit and no reserved one, and whose length has the shortest form.
pub read_header : Bytes → Option (ℕ × ℕ × Bytes)
read_header [] = none
read_header (a ∷ []) = none
read_header (a ∷ b ∷ s) = if a / 16 == 8 then read_length (a % 16) b s else none

long_length_lem :
    (op k least n : ℕ) (body : Bytes)
    → n < room k
    → ltb n least ≡ false
    → long_length op k least (to_network k n ++ body) ≡ some (op, n, body)
long_length_lem op k least n body lt long =
    rw
      (
        take-length (to_network k n) body k (sym (length-to_network k n)),
        drop-length (to_network k n) body k (sym (length-to_network k n)),
        from_network-to_network k n lt,
        long,
      )
      refl

-- A header that `buildHeader` makes for an opcode of four bits, with whatever behind it, is read as
-- that opcode, the length and what is behind it by a reader that takes only final frames without a
-- mask and reserved bits, and of the three forms of the length only the shortest that fits: in one
-- byte below 126, in two more below 65536, and in eight more from there on, in network order.
pub read_header-build_header :
    (op size : ℕ) (body : Bytes)
    → op < 16
    → size < 2 ^ 64
    → read_header (build_header op size ++ body) ≡ some (op, size, body)
unfolding read_header build_header
read_header-build_header op size body small fits =
    let same : (0x80 + op) % 256 % 16 ≡ op = omega arith in
    let final : (0x80 + op) % 256 / 16 ≡ 8 = omega arith in
    elim (Bool-cases (ltb size 126)) [
      | inl short ↦ rw (short, final, same) (rw short refl)
      | inr long ↦ rw long (elim (Bool-cases (ltb size 0x10000)) [
        | inl middle ↦
            rw middle
              (rw (final, same) (long_length_lem op 2 126 size body (ground (arith, middle)) long))
        | inr big ↦ rw big (rw (final, same) (long_length_lem op 8 0x10000 size body fits big))
      ])
    ]

-- ===== src/Tcp/ByteBuffer/Scan.antt =====
-- Looking for the end of a line.
use mathlib.Core.Option
use restful_cweb.Prelude.{
  ℕ, zero, suc, ◌≡◌, ap, ◌⊎◌, inl, inr, ◌≢◌, [], ◌∷◌, ◌++◌, Bytes, Option, none, some, arith, ◌==◌,
  take, Bool-cases,
}
use restful_cweb.Tcp.ByteBuffer.{ByteBuffer, contents, find_crlf_from, find_crlf}

-- No carriage return is followed by a line feed.
abbrev pub NoCrlf : Bytes → Type 0
NoCrlf [] = Unit {0}
NoCrlf (c ∷ []) = Unit {0}
NoCrlf (c ∷ d ∷ s) = ((c ≢ 13) ⊎ (d ≢ 10)) × NoCrlf (d ∷ s)

-- What the result says of the bytes: the two bytes stand at the index and nowhere before it, or
-- nowhere. (A line may end in a carriage return that the pair follows.)
abbrev pub Line : Bytes → Option ℕ → Type 0
Line s none = NoCrlf s
Line s (some i) = (rest : Bytes) × (s ≡ take i s ++ 13 ∷ 10 ∷ rest) × NoCrlf (take (suc i) s)

later_Line :
    (c d : ℕ) (s : Bytes) (o : Option ℕ)
    → (c ≢ 13) ⊎ (d ≢ 10)
    → Line (d ∷ s) o
    → Line (c ∷ d ∷ s) (Option.map suc o)
later_Line c d s none h l = (h, l)
later_Line c d s (some zero) h (rest, e, n) = (rest, ap (λ l. c ∷ l) e, (h, tt))
later_Line c d s (some (suc i)) h (rest, e, n) = (rest, ap (λ l. c ∷ l) e, (h, n))

find_crlf_from-Line : (s : Bytes) → Line s (find_crlf_from s)
unfolding find_crlf_from
find_crlf_from-Line [] = tt
find_crlf_from-Line (c ∷ []) = tt
find_crlf_from-Line (c ∷ d ∷ s) =
    let rest = find_crlf_from-Line (d ∷ s) in
    elim (Bool-cases (c == 13)) [
      | inr other ↦
          rw other (later_Line c d s (find_crlf_from (d ∷ s)) (inl (ground (arith, other))) rest)
      | inl return ↦ elim (Bool-cases (d == 10)) [
        | inr other ↦ rw return (
            rw other (later_Line c d s (find_crlf_from (d ∷ s)) (inr (ground (arith, other))) rest))
        | inl feed ↦
            let e : c ≡ 13 = ground (arith, return) in
            let f : d ≡ 10 = ground (arith, feed) in rw return (rw feed (s, rw (e, f), tt))
      ]
    ]

-- `FindCRLF` finds the first line end among the readable bytes: the bytes before it hold no
-- carriage return with a line feed behind it. It returns null exactly where there is none.
pub find_crlf-Line : (b : ByteBuffer) → Line (contents b) (find_crlf b)
unfolding find_crlf
find_crlf-Line b = find_crlf_from-Line (contents b)

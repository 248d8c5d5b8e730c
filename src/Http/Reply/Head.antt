-- ===== src/Http/Reply/Head.antt =====
-- The head of a reply as a client reads it: lines up to an empty one, and the length among them.
use restful_cweb.Prelude.{
  ℕ, zero, suc, ◌+◌, ◌-◌, ◌*◌, ◌/◌, ◌%◌, ◌<◌, ◌≡◌, refl, ap, ◌∙◌, ◌≢◌, false, ◌&&◌, List, [], ◌∷◌,
  ◌++◌, Bytes, codes, arith, ltb, ◌==◌, if◌then◌else◌, Option, none, some, length, drop,
  starts_with, append_assoc, Bool-cases, inl, inr,
}
use restful_cweb.Http.Reply.{digits}

abbrev pub add_to_line : ℕ → Option (Bytes × Bytes) → Option (Bytes × Bytes)
add_to_line c none = none
add_to_line c (some (l, rest)) = some (c ∷ l, rest)

unfoldable pub take_line : Bytes → Option (Bytes × Bytes)
take_line [] = none
take_line (c ∷ []) = none
take_line (c ∷ d ∷ s) =
    let rest = add_to_line c (take_line (d ∷ s)) in
    if (c == 13) && (d == 10) then some ([], s) else rest

-- At most so many lines.
abbrev pub add_line : Bytes → Option (List Bytes × Bytes) → Option (List Bytes × Bytes)
add_line l none = none
add_line l (some (ls, body)) = some (l ∷ ls, body)

abbrev pub end_or_more :
    (Bytes → Option (List Bytes × Bytes)) → Option (Bytes × Bytes) → Option (List Bytes × Bytes)
end_or_more k none = none
end_or_more k (some ([], rest)) = some ([], rest)
end_or_more k (some (c ∷ l, rest)) = add_line (c ∷ l) (k rest)

unfoldable pub read_lines : ℕ → Bytes → Option (List Bytes × Bytes)
read_lines zero s = none
read_lines (suc k) s = end_or_more (read_lines k) (take_line s)

unfoldable pub number_from : ℕ → Bytes → ℕ
number_from n [] = n
number_from n (c ∷ s) = number_from (n * 10 + (c - b'0')) s

unfoldable pub content_length : List Bytes → Option ℕ
content_length [] = none
content_length (l ∷ ls) =
    let rest = content_length ls in
    if starts_with (codes "Content-Length: ") l then some (number_from 0 (drop 16 l)) else rest

-- The status line, the length that is declared, and what stands behind the head.
abbrev pub with_length : Option (List Bytes × Bytes) → Option (Bytes × ℕ × Bytes)
with_length none = none
with_length (some ([], body)) = none
with_length (some (l ∷ ls, body)) = elim (content_length ls) [
  | none ↦ none
  | some n ↦ some (l, n, body)
]

unfoldable pub read_reply : Bytes → Option (Bytes × ℕ × Bytes)
read_reply s = with_length (read_lines 8 s)

-- No carriage return.
abbrev pub IsPlain : Bytes → Type 0
IsPlain [] = Unit {0}
IsPlain (c ∷ s) = (c ≢ 13) × IsPlain s

pub IsPlain-append : (s t : Bytes) → IsPlain s → IsPlain t → IsPlain (s ++ t)
IsPlain-append [] t p q = q
IsPlain-append (c ∷ s) t p q = (p.0, IsPlain-append s t p.1 q)

take_line-text : (s rest : Bytes) → IsPlain s → take_line (s ++ 13 ∷ 10 ∷ rest) ≡ some (s, rest)
unfolding take_line
take_line-text [] rest p = refl
take_line-text (c ∷ []) rest p =
    let no : ((c == 13) && (13 == 10)) ≡ false = ground (arith, p.0) in rw no refl
take_line-text (c ∷ d ∷ s) rest p =
    let no : ((c == 13) && (d == 10)) ≡ false = ground (arith, p.0) in
    rw no (ap (add_to_line c) (take_line-text (d ∷ s) rest p.1))

abbrev pub lines_text : List Bytes → Bytes
lines_text [] = []
lines_text (l ∷ ls) = l ++ (13 ∷ 10 ∷ lines_text ls)

abbrev pub AreLines : List Bytes → Type 0
AreLines [] = Unit {0}
AreLines (l ∷ ls) = (l ≢ []) × IsPlain l × AreLines ls

add_line-some :
    (k : ℕ) (l rest : Bytes)
    → l ≢ []
    → end_or_more (read_lines k) (some (l, rest)) ≡ add_line l (read_lines k rest)
add_line-some k [] rest ne = absurd (ne refl)
add_line-some k (c ∷ l) rest ne = refl

pub read_lines-text :
    (k : ℕ) (ls : List Bytes) (body : Bytes)
    → length ls < k
    → AreLines ls
    → read_lines k (lines_text ls ++ 13 ∷ 10 ∷ body) ≡ some (ls, body)
unfolding read_lines take_line
read_lines-text zero ls body h p = absurd (omega arith)
read_lines-text (suc k) [] body h p = refl
read_lines-text (suc k) (l ∷ ls) body h p =
    ap (λ t. end_or_more (read_lines k) (take_line t))
      (append_assoc l (13 ∷ 10 ∷ lines_text ls) (13 ∷ 10 ∷ body))
    ∙ ap (end_or_more (read_lines k)) (take_line-text l (lines_text ls ++ 13 ∷ 10 ∷ body) p.1)
    ∙ add_line-some k l (lines_text ls ++ 13 ∷ 10 ∷ body) p.0
    ∙ ap (add_line l) (read_lines-text k ls body (omega (arith, h)) p.2)

-- Numbers.
number_from-last :
    (n c : ℕ) (s : Bytes) → number_from n (s ++ c ∷ []) ≡ number_from n s * 10 + (c - b'0')
unfolding number_from
number_from-last n c [] = refl
number_from-last n c (d ∷ s) = number_from-last (n * 10 + (d - b'0')) c s

abbrev pub tens : ℕ → ℕ
tens zero = 1
tens (suc k) = 10 * tens k

pub number_from-digits : (k n : ℕ) → n < tens k → number_from 0 (digits k n) ≡ n
unfolding digits number_from
number_from-digits zero n h = omega arith
number_from-digits (suc k) n h = elim (Bool-cases (ltb n 10)) [
  | inl small ↦ rw small (omega arith)
  | inr big ↦ rw big (
      omega (
        arith,
        number_from-last 0 (b'0' + n % 10) (digits k (n / 10)),
        number_from-digits k (n / 10) (omega arith),
      ))
]

pub digits-IsPlain : (k n : ℕ) → IsPlain (digits k n)
unfolding digits
digits-IsPlain zero n = tt
digits-IsPlain (suc k) n = elim (Bool-cases (ltb n 10)) [
  | inl small ↦ rw (small, IsPlain) (omega arith, tt)
  | inr big ↦
      rw (big, IsPlain)
        (IsPlain-append (digits k (n / 10)) ((b'0' + n % 10) ∷ []) (digits-IsPlain k (n / 10))
          (omega arith, tt))
]

-- ===== src/Routing/Split/RoundTrip.antt =====
-- Splitting a path, and joining its parts again.
use restful_cweb.Prelude.{
  ℕ, ◌≡◌, refl, ap, sym, ◌∙◌, ◌≢◌, List, [], ◌∷◌, ◌++◌, Bytes, arith, ◌==◌, if◌then◌else◌,
  append_assoc, append-nil, Bool-cases, inl, inr,
}
use restful_cweb.Routing.Split.{split_loop, split, parse_pattern}

-- The parts with a slash between them.
abbrev pub join : List Bytes → Bytes
join [] = []
join (p ∷ []) = p
join (p ∷ q ∷ ps) = p ++ b'/' ∷ join (q ∷ ps)

-- A path without the slash at its start, if it has one.
abbrev pub drop_slash : Bytes → Bytes
drop_slash [] = []
drop_slash (c ∷ s) = if c == b'/' then s else c ∷ s

abbrev pub NoSlash : Bytes → Type 0
NoSlash [] = Unit {0}
NoSlash (c ∷ s) = (c ≢ b'/') × NoSlash s

-- The parts that a path can be put together from: no slash in them, and none empty behind the
-- first.
abbrev pub LaterParts : List Bytes → Type 0
LaterParts [] = Unit {0}
LaterParts (p ∷ ps) = (p ≢ []) × NoSlash p × LaterParts ps

abbrev pub PathParts : List Bytes → Type 0
PathParts [] = ⊥
PathParts (p ∷ ps) = NoSlash p × LaterParts ps

join-cons : (p : Bytes) (xs : List Bytes) → xs ≢ [] → join (p ∷ xs) ≡ p ++ b'/' ∷ join xs
join-cons p [] h = absurd (h refl)
join-cons p (x ∷ xs) h = refl

split_loop-ne : (cur s : Bytes) → split_loop b'/' cur s ≢ []
unfolding split_loop
split_loop-ne cur [] = ground arith
split_loop-ne cur (c ∷ []) = ground arith
split_loop-ne cur (c ∷ d ∷ s) = ground (arith, split_loop-ne (cur ++ c ∷ []) (d ∷ s))

join-split_loop : (cur s : Bytes) → join (split_loop b'/' cur s) ≡ cur ++ s
unfolding split_loop
join-split_loop cur [] = sym (append-nil cur)
join-split_loop cur (c ∷ []) = ground arith
join-split_loop cur (c ∷ d ∷ s) = elim (Bool-cases (c == b'/')) [
  | inl e ↦
      let c_is : c ≡ b'/' = ground arith in
      rw e (
        join-cons cur (split_loop b'/' (d ∷ []) s) (split_loop-ne (d ∷ []) s)
        ∙ rw (join-split_loop (d ∷ []) s, c_is) refl)
  | inr e ↦ rw e (join-split_loop (cur ++ c ∷ []) (d ∷ s) ∙ append_assoc cur (c ∷ []) (d ∷ s))
]

-- Splitting loses nothing: for every path, the parts joined by slashes are the path without its
-- first slash.
pub join-parse_pattern : (s : Bytes) → join (parse_pattern s) ≡ drop_slash s
unfolding parse_pattern split
join-parse_pattern [] = refl
join-parse_pattern (c ∷ s) = elim (Bool-cases (c == b'/')) [
  | inl e ↦ rw e (join-split_loop [] s)
  | inr e ↦ rw e (join-split_loop [] (c ∷ s))
]

split_loop_step :
    (cur : Bytes) (c : ℕ) (s : Bytes)
    → c ≢ b'/'
    → split_loop b'/' cur (c ∷ s) ≡ split_loop b'/' (cur ++ c ∷ []) s
unfolding split_loop
split_loop_step cur c [] h = ground arith
split_loop_step cur c (d ∷ s) h = ground arith

split_loop_part :
    (cur p : Bytes) (d : ℕ) (s : Bytes)
    → NoSlash p
    → split_loop b'/' cur (p ++ b'/' ∷ d ∷ s) ≡ (cur ++ p) ∷ split_loop b'/' (d ∷ []) s
split_loop_part cur [] d s h = unfold split_loop in rw (append-nil cur)
split_loop_part cur (c ∷ p) d s h =
    split_loop_step cur c (p ++ b'/' ∷ d ∷ s) h.0
    ∙ split_loop_part (cur ++ c ∷ []) p d s h.1
    ∙ rw (append_assoc cur (c ∷ []) p)

split_loop_last : (cur p : Bytes) → NoSlash p → split_loop b'/' cur p ≡ (cur ++ p) ∷ []
split_loop_last cur [] h = unfold split_loop in rw (append-nil cur)
split_loop_last cur (c ∷ p) h =
    split_loop_step cur c p h.0
    ∙ split_loop_last (cur ++ c ∷ []) p h.1
    ∙ rw (append_assoc cur (c ∷ []) p)

split_loop-join :
    (cur p : Bytes) (ps : List Bytes)
    → NoSlash p
    → LaterParts ps
    → split_loop b'/' cur (join (p ∷ ps)) ≡ (cur ++ p) ∷ ps
split_loop-join cur p [] h k = split_loop_last cur p h
split_loop-join cur p ([] ∷ ps) h k = absurd (k.0 refl)
split_loop-join cur p ((d ∷ q) ∷ []) h k =
    split_loop_part cur p d q h ∙ ap (λ t. (cur ++ p) ∷ t) (split_loop-join (d ∷ []) q [] k.1.1 tt)
split_loop-join cur p ((d ∷ q) ∷ r ∷ ps) h k =
    split_loop_part cur p d (q ++ b'/' ∷ join (r ∷ ps)) h
    ∙ ap (λ t. (cur ++ p) ∷ t) (split_loop-join (d ∷ []) q (r ∷ ps) k.1.1 k.2)

-- A path put together from parts, with a slash at its start, splits into those parts.
pub parse_pattern-join : (ps : List Bytes) → PathParts ps → parse_pattern (b'/' ∷ join ps) ≡ ps
unfolding parse_pattern split
parse_pattern-join [] h = absurd h
parse_pattern-join (p ∷ ps) h = split_loop-join [] p ps h.0 h.1

-- The slash at the start makes no difference, unless a second one follows it.
pub parse_pattern-slash :
    (c : ℕ) (s : Bytes) → c ≢ b'/' → parse_pattern (b'/' ∷ c ∷ s) ≡ parse_pattern (c ∷ s)
unfolding parse_pattern split
parse_pattern-slash c s h = ground arith

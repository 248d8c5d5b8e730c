-- ===== src/Routing/Split.antt =====
-- `Trie::Split` and `Trie::ParsePattern` of src/cweb/router.h. A text is a list of bytes, and the
-- part between `begin` and `end` is the list of the bytes that the loop has passed.
pub mod RoundTrip
use restful_cweb.Prelude.{ℕ, List, [], ◌∷◌, ◌++◌, Bytes, ◌==◌, if◌then◌else◌}

-- The loop. Behind a delimiter it steps `end` twice, so the first byte of the next part is taken
-- without a test.
unfoldable pub split_loop : ℕ → Bytes → Bytes → List Bytes
split_loop delim cur [] = cur ∷ []
split_loop delim cur (c ∷ []) = if c == delim then cur ∷ [] ∷ [] else (cur ++ c ∷ []) ∷ []
split_loop delim cur (c ∷ d ∷ s) =
    let next_part = cur ∷ split_loop delim (d ∷ []) s in
    let same_part = split_loop delim (cur ++ c ∷ []) (d ∷ s) in
    if c == delim then next_part else same_part

-- A delimiter at the start is skipped. (`s[0]` of an empty text is NUL, no delimiter in use.)
unfoldable pub split : Bytes → ℕ → List Bytes
unfolding split_loop
split [] delim = split_loop delim [] []
split (c ∷ s) delim = if c == delim then split_loop delim [] s else split_loop delim [] (c ∷ s)

unfoldable pub parse_pattern : Bytes → List Bytes
unfolding split
parse_pattern pattern = split pattern b'/'

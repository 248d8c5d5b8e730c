-- ===== src/Routing/Trie.antt =====
-- `Node` and `Trie` of src/cweb/router.h. A node holds its children as a list of their own type,
-- and `insert` returns the tree that the code leaves behind. `H` is the type of the functions
-- that a `ContextHandler` can hold; `none` is the empty one, which a node has that no route ends at,
-- and which may be registered as well.
pub mod Search
pub mod Insert
pub mod Shape
use restful_cweb.Prelude.{
  ℕ, Bool, true, false, ◌||◌, List, [], ◌∷◌, Bytes, ◌==◌, if◌then◌else◌, Option, none, some,
  bytes_eq,
}
use restful_cweb.Routing.Split.{parse_pattern}

mutual
  pub data Node (H : Type 0) : Type 0 where
    node : (pattern part : Bytes) → Nodes H → (iswild : Bool) → Option H → Node H

  pub data Nodes (H : Type 0) : Type 0 where
    nil : Nodes H
    cons : Node H → Nodes H → Nodes H

-- `part[0] == ':'`; an empty part has NUL there.
abbrev pub is_param : Bytes → Bool
is_param [] = false
is_param (c ∷ s) = c == b':'

-- `node->pattern_ == ""`.
abbrev pub is_nil : Bytes → Bool
is_nil [] = true
is_nil (c ∷ s) = false

module _ {H : Type 0} where
  abbrev pub pattern : Node H → Bytes
  pattern (node pat part cs wild h) = pat

  abbrev pub children : Node H → Nodes H
  children (node pat part cs wild h) = cs

  abbrev pub handler : Node H → Option H
  handler (node pat part cs wild h) = h

  -- The test of `FindChild` and `FindChildren`.
  abbrev pub fits : Bytes → Node H → Bool
  fits p (node pat part cs wild h) = bytes_eq part p || wild

  unfoldable pub find_children : Bytes → Nodes H → List (Node H)
  find_children p nil = []
  find_children p (cons c cs) = if fits p c then c ∷ find_children p cs else find_children p cs

  -- The loop over the children in `search`: the first result that is not null.
  unfoldable pub first_found : (Node H → Option (Node H)) → List (Node H) → Option (Node H)
  first_found f [] = none
  first_found f (c ∷ cs) = elim (f c) [ some m ↦ some m | none ↦ first_found f cs ]

  unfoldable pub search : List Bytes → Node H → Option (Node H)
  unfolding first_found find_children
  search [] n = if is_nil (pattern n) then none else some n
  search (p ∷ ps) n = first_found (search ps) (find_children p (children n))

  -- `FindChild`, the new child where there is none, and the recursive call on the child: `f` is
  -- that call. The child stays at its place, a new one goes to the end.
  unfoldable pub at_child : (Node H → Node H) → Bytes → Nodes H → Nodes H
  at_child f p nil = cons (f (node [] p nil (is_param p) none)) nil
  at_child f p (cons c cs) = if fits p c then cons (f c) cs else cons c (at_child f p cs)

  -- `insert` at the parts from `high` on.
  unfoldable pub insert_parts : List Bytes → Bytes → Option H → Node H → Node H
  unfolding at_child
  insert_parts [] pat h (node old part cs wild old_h) = node pat part cs wild h
  insert_parts (p ∷ ps) pat h (node old part cs wild old_h) =
      node old part (at_child (insert_parts ps pat h) p cs) wild old_h

  -- `Trie::Insert` and the constructor's root.
  unfoldable pub insert : Bytes → Option H → Node H → Node H
  unfolding insert_parts
  insert pat h root = insert_parts (parse_pattern pat) pat h root

  unfoldable pub empty_trie : Node H
  empty_trie = node [] (b'/' ∷ []) nil false none

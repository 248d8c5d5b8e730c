-- ===== src/Util/LinkedList.antt =====
-- `LinkedList` of src/util/linked_list.h. Nodes are addresses, 0 is the null pointer, and a store
-- has the two pointers of every node. `none` is an access through the null pointer, or the failed
-- assertion.
pub mod Chain
pub mod Fifo
pub mod Links
pub mod Erasure
use restful_cweb.Prelude.{
  update, ℕ, zero, suc, ◌+◌, ◌-◌, ◌^◌, Option, none, some, ◌==◌, if◌then◌else◌, List, [], ◌∷◌,
}

pub record NodeStore : Type 0 where
  pub pre : ℕ → ℕ
  pub next : ℕ → ℕ

pub record LinkedList : Type 0 where
  pub head : ℕ
  pub tail : ℕ
  pub size : ℕ

-- Assignments to the pointers of one node.
abbrev pub set_pre : ℕ → ℕ → NodeStore → NodeStore
set_pre p v s = record s { pre = update s.pre p v }

abbrev pub set_next : ℕ → ℕ → NodeStore → NodeStore
set_next p v s = record s { next = update s.next p v }

abbrev pub new_list : LinkedList
new_list = record { head = 0; tail = 0; size = 0 }

-- `--size_` of a `size_t`.
abbrev pub less_one : ℕ → ℕ
less_one n = if n == 0 then 2 ^ 64 - 1 else n - 1

-- `Pop` of more than one node, and `Pop`, with what it returns.
abbrev pub pop_several : NodeStore → LinkedList → Option (ℕ × NodeStore × LinkedList)
pop_several s l =
    if s.next l.head == 0
    then none
    else if l.tail == 0
    then none
    else some (
      l.head,
      set_next l.tail (s.next l.head) (set_pre (s.next l.head) l.tail s),
      record l { head = s.next l.head; size = less_one l.size },
    )

unfoldable pub pop_node : NodeStore → LinkedList → Option (ℕ × NodeStore × LinkedList)
pop_node s l =
    if l.head == 0
    then some (0, s, l)
    else if l.size == 1
    then some (l.head, s, new_list)
    else pop_several s l

unfoldable pub push_node : ℕ → NodeStore → LinkedList → Option (NodeStore × LinkedList)
push_node v s l =
    if v == 0
    then some (s, l)
    else if l.size == 0
    then some (set_pre v 0 (set_next v 0 s), record { head = v; tail = v; size = l.size + 1 })
    else if l.tail == 0
    then none
    else some (
      set_next v 0 (set_pre v l.tail (set_next l.tail v s)),
      record l { tail = v; size = l.size + 1 },
    )

-- `Push` of a list, which is empty afterwards.
unfoldable pub push_list :
    LinkedList → NodeStore → LinkedList → Option (NodeStore × LinkedList × LinkedList)
push_list m s l =
    if l.size == 0
    then some (s, m, new_list)
    else if l.tail == 0
    then none
    else if m.head == 0
    then none
    else some (
      set_next m.tail 0 (set_pre m.head l.tail (set_next l.tail m.head s)),
      record l { tail = m.tail; size = l.size + m.size },
      new_list,
    )

-- The branches of `Erase`: the first node, the last one, and one between two others.
abbrev pub erase_first : NodeStore → LinkedList → Option (NodeStore × LinkedList)
erase_first s l =
    if l.head == 0
    then none
    else some (
      if s.next l.head == 0 then s else set_pre (s.next l.head) 0 s,
      record l { head = s.next l.head; size = less_one l.size },
    )

abbrev pub erase_last : ℕ → NodeStore → LinkedList → Option (NodeStore × LinkedList)
erase_last v s l = some (
  if s.pre v == 0 then s else set_next (s.pre v) 0 s,
  record l { tail = s.pre v; size = less_one l.size },
)

abbrev pub erase_between : ℕ → NodeStore → LinkedList → Option (NodeStore × LinkedList)
erase_between v s l = some (
  set_pre (s.next v) (s.pre v) (set_next (s.pre v) (s.next v) s),
  record l { size = less_one l.size },
)

unfoldable pub erase : ℕ → NodeStore → LinkedList → Option (NodeStore × LinkedList)
erase v s l =
    if v == 0
    then none
    else if l.size == 0
    then some (s, l)
    else if s.pre v == 0
    then erase_first s l
    else if s.next v == 0
    then erase_last v s l
    else erase_between v s l

-- `Next`.
abbrev pub next_of : ℕ → NodeStore → Option ℕ
next_of v s = if v == 0 then none else some (s.next v)

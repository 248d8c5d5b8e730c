-- ===== src/Tests/Lists.antt =====
-- Tests of the model of src/util/linked_list.h.
use restful_cweb.Prelude.{◌+◌, ◌-◌, ◌==◌, ◌≡◌, refl, List, [], ◌∷◌, arith, some, if◌then◌else◌}
use restful_cweb.Util.LinkedList.{NodeStore, LinkedList, new_list, erase}
use restful_cweb.Util.LinkedList.Fifo.{IsQueue, Use, add, remove, uses, uses-IsQueue}
use restful_cweb.Util.LinkedList.Erasure.{IsList, erase-IsList}

abbrev blank : NodeStore
blank = record { pre = λ n. 0; next = λ n. 0 }

-- A node comes back after it was popped, and the last pop finds the list empty.
abbrev some_uses : List Use
some_uses = add 3 ∷ add 5 ∷ remove ∷ add 3 ∷ remove ∷ remove ∷ remove ∷ add 4 ∷ []

uses-IsQueue_example :
    (t : NodeStore) × (m : LinkedList) × (uses some_uses blank new_list
      ≡ some (3 ∷ 5 ∷ 3 ∷ 0 ∷ [], t, m))
    × IsQueue t m (4 ∷ [])
uses-IsQueue_example =
    uses-IsQueue some_uses blank new_list []
      (record { nodes = tt; head = refl; tail = refl; size = refl; linked = tt })
      (
        omega arith,
        tt,
        (omega arith, (omega arith, tt), (omega arith, (omega arith, tt), (omega arith, tt, tt))),
      )

-- Three nodes in a row.
abbrev row : NodeStore
row = record { pre = λ n. n - 1; next = λ n. if n == 3 then 0 else n + 1 }

abbrev row_list : LinkedList
row_list = record { head = 1; tail = 3; size = 3 }

row-IsList : IsList row row_list (1 ∷ 2 ∷ 3 ∷ [])
row-IsList = record {
  nodes = (
    omega arith,
    (omega arith, (omega arith, tt)),
    (omega arith, (omega arith, tt), (omega arith, tt, tt)),
  );
  head = refl;
  tail = refl;
  size = refl;
  tied = (refl, refl, (refl, refl, (refl, refl, tt)));
}

erase-IsList_example :
    (t : NodeStore) × (m : LinkedList) × (erase 2 row row_list ≡ some (t, m))
    × IsList t m (1 ∷ 3 ∷ [])
erase-IsList_example = erase-IsList row row_list (1 ∷ []) 2 (3 ∷ []) row-IsList

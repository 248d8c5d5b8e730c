-- ===== src/Coroutine/Loop.antt =====
-- The coroutines of `CoEventLoop` of src/co_tcpserver/co_eventloop.cc, which are addresses, in lists;
-- `Next` is by the list that the coroutine is in. What a coroutine does between two switches is an
-- argument, which gives the loop as the coroutine leaves it and the state it is in then.
pub mod Switching
pub mod Order
pub mod Lists
pub mod Counts
use restful_cweb.Prelude.{
  ℕ, zero, suc, ◌+◌, Option, none, some, ◌==◌, ltb, ◌&&◌, not, if◌then◌else◌, List, [], ◌∷◌, ◌++◌,
  length, Bool, true, false,
}

pub data State : Type 0 where
  ready : State
  hold : State
  exec : State
  term : State

pub record CoLoop : Type 0 where
  pub running : List ℕ
  pub held : List ℕ
  pub stateful : List ℕ
  pub stateless : List ℕ
  pub current : Option ℕ

-- `Erase` of a coroutine that is in the list; nothing is ever popped from these lists.
abbrev pub without : ℕ → List ℕ → List ℕ
without a [] = []
without a (x ∷ xs) = if x == a then xs else x ∷ without a xs

-- `Front`, and `Next` of a coroutine in a list.
abbrev pub front_of : List ℕ → Option ℕ
front_of [] = none
front_of (x ∷ xs) = some x

abbrev pub next_in : List ℕ → ℕ → Option ℕ
next_in [] co = none
next_in (x ∷ xs) co = if x == co then front_of xs else next_in xs co

abbrev pub add_coroutine : ℕ → Bool → CoLoop → CoLoop
add_coroutine co true l = record l { stateful = l.stateful ++ co ∷ [] }
add_coroutine co false l = record l { stateless = l.stateless ++ co ∷ [] }

unfoldable pub notify_coroutine_ready : ℕ → CoLoop → CoLoop
notify_coroutine_ready co l = record l { held = without co l.held; running = l.running ++ co ∷ [] }

-- The two halves of `moveReadyCoroutines`, which moves a list that has any coroutines.
abbrev pub has_any : List ℕ → Bool
has_any [] = false
has_any (x ∷ xs) = true

abbrev pub move_stateful : CoLoop → CoLoop
move_stateful l =
    if has_any l.stateful then record l { running = l.running ++ l.stateful; stateful = [] } else l

abbrev pub move_stateless : ℕ → CoLoop → CoLoop
move_stateless size l =
    if ltb size 5 && has_any l.stateless
    then record l { running = l.running ++ l.stateless; stateless = [] }
    else l

unfoldable pub move_ready_coroutines : CoLoop → CoLoop
move_ready_coroutines l = move_stateless (length l.stateful) (move_stateful l)

-- The next coroutine, if there is one, and else the one after the ready ones have moved.
abbrev pub set_current : Option ℕ → CoLoop → CoLoop
set_current o l = record l { current = o }

abbrev pub choose_next : (CoLoop → Option ℕ) → Option ℕ → CoLoop → CoLoop
choose_next next (some co) l = set_current (some co) l
choose_next next none l = let m = move_ready_coroutines l in set_current (next m) m

-- The cases of the switch on the state of a coroutine that has switched back.
abbrev pub after_exec : ℕ → CoLoop → CoLoop
after_exec co l = choose_next (λ m. next_in m.running co) (next_in l.running co) l

abbrev pub hold_coroutine : ℕ → CoLoop → CoLoop
hold_coroutine co l = record l { running = without co l.running; held = l.held ++ co ∷ [] }

abbrev pub after_hold : ℕ → CoLoop → CoLoop
after_hold co l =
    let m = hold_coroutine co l in choose_next (λ k. next_in k.held co) (next_in m.held co) m

abbrev pub after_term : ℕ → CoLoop → CoLoop
after_term co l = let m = after_exec co l in record m { running = without co m.running }

abbrev pub after_switch : State → ℕ → CoLoop → CoLoop
after_switch ready co l = after_term co l
after_switch hold co l = after_hold co l
after_switch exec co l = after_exec co l
after_switch term co l = after_term co l

-- The inner loop, with the coroutines that it switches to. The list has what the tests of `running_`
-- read, one for each turn, since any thread may call `Quit`; `none` when the loop outlasts it.
abbrev pub Slice : Type 0
Slice = ℕ → CoLoop → State × CoLoop

abbrev pub with_switch : ℕ → Option (List ℕ × CoLoop) → Option (List ℕ × CoLoop)
with_switch co none = none
with_switch co (some (cos, l)) = some (co ∷ cos, l)

abbrev pub switch_to :
    (CoLoop → Option (List ℕ × CoLoop)) → Slice → Option ℕ → CoLoop → Option (List ℕ × CoLoop)
switch_to go slice none l = some ([], l)
switch_to go slice (some co) l = with_switch co (go (after_switch (slice co l).0 co (slice co l).1))

unfoldable pub inner_loop : List Bool → Slice → CoLoop → Option (List ℕ × CoLoop)
inner_loop [] slice l = none
inner_loop (is_running ∷ reads) slice l =
    if is_running then switch_to (inner_loop reads slice) slice l.current l else some ([], l)

-- The part of a turn of `loop` behind the timers.
abbrev pub start_round : CoLoop → CoLoop
start_round l = choose_next (λ m. front_of m.running) (front_of l.running) l

unfoldable pub run_coroutines : List Bool → Slice → CoLoop → Option (List ℕ × CoLoop)
unfolding inner_loop
run_coroutines reads slice l = inner_loop reads slice (start_round l)

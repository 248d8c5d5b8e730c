-- ===== src/Tests/Coroutines.antt =====
-- Tests of the model of src/co_tcpserver/co_eventloop.cc.
use restful_cweb.Prelude.{ℕ, ◌+◌, ◌≡◌, refl, ◌++◌, [], ◌∷◌, arith, some, none, Bool, ◌==◌}
use restful_cweb.Coroutine.Loop.Counts.{times_in, lost, after_switch-times}
use restful_cweb.Coroutine.Loop.{
  after_switch, CoLoop, Slice, hold, move_ready_coroutines, inner_loop, run_coroutines,
}
use restful_cweb.Coroutine.Loop.Switching.{plain}
use restful_cweb.Coroutine.Loop.Order.{undisturbed, run_coroutines-order}

abbrev four : CoLoop
four = record {
  running = 1 ∷ 2 ∷ [];
  held = 5 ∷ [];
  stateful = 3 ∷ [];
  stateless = 4 ∷ [];
  current = none;
}

-- The second coroutine ends.
abbrev two_ends : ℕ → Bool
two_ends co = co == 2

run_coroutines-order_example :
    (m : CoLoop) × (run_coroutines (undisturbed 6) (plain two_ends) four
      ≡ some (1 ∷ 2 ∷ 3 ∷ 4 ∷ [], m))
    × (m.running ≡ 1 ∷ 3 ∷ 4 ∷ [])
    × (m.stateful ++ m.stateless ≡ [])
run_coroutines-order_example =
    run_coroutines-order two_ends 6 four
      (
        omega arith,
        (omega arith, (omega arith, (omega arith, tt))),
        (
          omega arith,
          (omega arith, (omega arith, tt)),
          (omega arith, (omega arith, tt), (omega arith, tt, tt)),
        ),
      )
      (omega arith)

-- The first coroutine holds: the others, though they are running, wait for the next round.
abbrev first_holds : Slice
first_holds co l = (hold, l)

four-waits :
    run_coroutines (undisturbed 6) first_holds four
    ≡ some (
      1 ∷ [],
      record {
        running = 2 ∷ 3 ∷ 4 ∷ [];
        held = 5 ∷ 1 ∷ [];
        stateful = [];
        stateless = [];
        current = none;
      },
    )
unfolding run_coroutines inner_loop move_ready_coroutines
four-waits = refl

after_switch-times_example : times_in 1 (after_switch hold 1 four) + lost hold 1 1 ≡ times_in 1 four
after_switch-times_example = after_switch-times 1 1 hold four (omega arith)

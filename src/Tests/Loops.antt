-- ===== src/Tests/Loops.antt =====
-- Tests of the models of src/tcpserver/eventloop.cc and src/tcpserver/tcpserver.cc.
use restful_cweb.Prelude.{ℕ, ◌≡◌, refl, List, [], ◌∷◌, ◌++◌, codes, some, none, arith}
use restful_cweb.Tcp.EventLoop.{
  EventLoop, new_loop, add_tasks, queue_task, end_add_task, test_running, queues, writes, tests,
  Reach, start, other, own,
}
use restful_cweb.Tcp.EventLoop.Wakeup.{reach-order}
use restful_cweb.Tcp.Server.{Server, new_server, accept, close, task, calls}
use restful_cweb.Tcp.Server.Turns.{share, calls-share}

-- The loop waits; two other threads queue a task each.
abbrev two_queued : EventLoop
two_queued = end_add_task (queue_task 8 (end_add_task (queue_task 7 (test_running new_loop))))

two_queued-Reach : Reach two_queued
two_queued-Reach =
    other
      (other (other (other (own start (tests refl)) (queues 7 refl)) (writes refl)) (queues 8 refl))
      (writes refl)

reach-order_example : two_queued.added ≡ [] ++ ([] ++ two_queued.tasks)
reach-order_example = reach-order two_queued-Reach

calls-share_example :
    (s t : Server) × (new : List (List ℕ × ℕ)) × (calls
        (accept (some (codes "a")) ∷ accept none ∷ [])
        (new_server 2)
      ≡ some s)
    × (calls
          (accept (some (codes "b")) ∷ close (codes "a") ∷ task ∷ accept (some (codes "c")) ∷ [])
          s
        ≡ some t)
    × (t.established ≡ s.established ++ new)
    × (share 1 new ≡ 1)
calls-share_example =
    calls-share 1 1 (accept (some (codes "a")) ∷ accept none ∷ [])
      (accept (some (codes "b")) ∷ close (codes "a") ∷ task ∷ accept (some (codes "c")) ∷ [])
      (omega arith) refl

-- Tasks that `AddTasks` queues leave the pipe of a waiting loop empty.
add_tasks-silent :
    ((add_tasks (7 ∷ []) (test_running new_loop)).tasks ≡ 7 ∷ [])
    × ((add_tasks (7 ∷ []) (test_running new_loop)).bytes ≡ 0)
add_tasks-silent = (refl, refl)

-- ===== src/Tcp/EventLoop.antt =====
-- `EventLoop` of src/tcpserver/eventloop.h and src/tcpserver/eventloop.cc: the thread of the loop, and
-- other threads that give it tasks or stop it. What a thread does under `mutex_`, or on the pipe, is
-- one step; steps of different threads come in any order. Of the events that a poll reports only
-- that of the pipe is told apart; timers are in Tcp/Timer.
pub mod Wakeup
use restful_cweb.Prelude.{
  ℕ, zero, suc, ◌+◌, ◌-◌, ◌<◌, ◌≡◌, Bool, true, false, List, [], ◌∷◌, ◌++◌, length, if◌then◌else◌,
}

-- Where the loop's thread is: before the test of `running_`, in `Poll`, behind it with the pipe
-- reported readable or not, behind `handleActiveEvents`, in `handleTasks` with the tasks still to
-- run, behind it, or out of the loop.
pub data Phase : Type 0 where
  testing polling : Phase
  polled : Bool → Phase
  events_handled : Phase
  running_tasks : List ℕ → Phase
  tasks_handled : Phase
  left : Phase

-- `bytes` is what the pipe holds. `locked` says that a thread holds `mutex_` in `AddTask`, with its
-- task queued and the pipe not yet written. `added` and `ran` are the tasks that other threads
-- queued and those of them that ran, from the start on, and `direct` those that ran at once.
pub record EventLoop : Type 0 where
  pub phase : Phase
  pub running : Bool
  pub tasks : List ℕ
  pub bytes : ℕ
  pub locked : Bool
  pub added : List ℕ
  pub ran : List ℕ
  pub direct : List ℕ

abbrev pub new_loop : EventLoop
new_loop = record {
  phase = testing;
  running = true;
  tasks = [];
  bytes = 0;
  locked = false;
  added = [];
  ran = [];
  direct = [];
}

abbrev pub wakeup : EventLoop → EventLoop
wakeup l = record l { bytes = l.bytes + 1 }

-- `AddTask` of another thread, up to `push_back`, and from there on.
abbrev pub queue_task : ℕ → EventLoop → EventLoop
queue_task t l = record l { tasks = l.tasks ++ t ∷ []; added = l.added ++ t ∷ []; locked = true }

abbrev pub end_add_task : EventLoop → EventLoop
end_add_task l = record (wakeup l) { locked = false }

-- `AddTask` on the loop's thread.
abbrev pub run_at_once : ℕ → EventLoop → EventLoop
run_at_once t l = record l { direct = l.direct ++ t ∷ [] }

-- `AddTasks` of another thread.
abbrev pub add_tasks : List ℕ → EventLoop → EventLoop
add_tasks ts l = record l { tasks = l.tasks ++ ts; added = l.added ++ ts }

-- `Quit`, its two effects for another thread.
abbrev pub stop_running : EventLoop → EventLoop
stop_running l = record l { running = false }

-- The steps of `loop`.
abbrev pub test_running : EventLoop → EventLoop
test_running l = record l { phase = if l.running then polling else left }

abbrev pub poll : Bool → EventLoop → EventLoop
poll readable l = record l { phase = polled readable }

abbrev pub handle_wakeup : EventLoop → EventLoop
handle_wakeup l = record l { bytes = l.bytes - 1 }

abbrev pub handle_active_events : Bool → EventLoop → EventLoop
handle_active_events true l = record (handle_wakeup l) { phase = events_handled }
handle_active_events false l = record l { phase = events_handled }

-- `handleTasks`, up to the end of the block with the lock, and one turn of its loop.
abbrev pub swap_tasks : EventLoop → EventLoop
swap_tasks l = record l { phase = running_tasks l.tasks; tasks = [] }

abbrev pub run_task : ℕ → List ℕ → EventLoop → EventLoop
run_task t ts l = record l { phase = running_tasks ts; ran = l.ran ++ t ∷ [] }

abbrev pub end_tasks : EventLoop → EventLoop
end_tasks l = record l { phase = tasks_handled }

abbrev pub end_turn : EventLoop → EventLoop
end_turn l = record l { phase = testing }

-- Steps of other threads.
pub data OtherStep : EventLoop → EventLoop → Type 0 where
  queues : {l : EventLoop} (t : ℕ) → l.locked ≡ false → OtherStep l (queue_task t l)
  writes : {l : EventLoop} → l.locked ≡ true → OtherStep l (end_add_task l)
  stops : {l : EventLoop} → OtherStep l (stop_running l)
  wakes : {l : EventLoop} → OtherStep l (wakeup l)

-- Steps of the loop's thread. The poll reports the pipe if it holds a byte, and it can return
-- without if it holds none, for another event or for the timeout.
pub data LoopStep : EventLoop → EventLoop → Type 0 where
  at_once : {l : EventLoop} (t : ℕ) → LoopStep l (run_at_once t l)
  tests : {l : EventLoop} → l.phase ≡ testing → LoopStep l (test_running l)
  polls : {l : EventLoop} → l.phase ≡ polling → 0 < l.bytes → LoopStep l (poll true l)
  times_out : {l : EventLoop} → l.phase ≡ polling → l.bytes ≡ 0 → LoopStep l (poll false l)
  handles : {l : EventLoop} (r : Bool) → l.phase ≡ polled r → LoopStep l (handle_active_events r l)
  swaps : {l : EventLoop} → l.phase ≡ events_handled → l.locked ≡ false → LoopStep l (swap_tasks l)
  runs :
      {l : EventLoop} (t : ℕ) (ts : List ℕ)
      → l.phase ≡ running_tasks (t ∷ ts)
      → LoopStep l (run_task t ts l)
  ends_tasks : {l : EventLoop} → l.phase ≡ running_tasks [] → LoopStep l (end_tasks l)
  ends_turn : {l : EventLoop} → l.phase ≡ tasks_handled → LoopStep l (end_turn l)

pub data Reach : EventLoop → Type 0 where
  start : Reach new_loop
  other : {l k : EventLoop} → Reach l → OtherStep l k → Reach k
  own : {l k : EventLoop} → Reach l → LoopStep l k → Reach k

-- Steps of the loop's thread alone.
pub data Runs : EventLoop → EventLoop → Type 0 where
  stay : {l : EventLoop} → Runs l l
  go : {l m k : EventLoop} → LoopStep l m → Runs m k → Runs l k
